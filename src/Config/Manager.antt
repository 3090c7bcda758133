-- ===== src/Config/Manager.antt =====
-- core/configuration.{hpp,cxx}: `ConfigurationManager`, and the round of main.cxx that polls it.
use aqua_regulator_server.Base.{
  ℕ, String, Bool, true, false, Option, none, some, List, [], ◌∷◌, Bytes, Result, ok, err, ◌==◌,
  seconds, if◌then◌else◌,
}
use aqua_regulator_server.Config.{Configuration, build_default_config}
use aqua_regulator_server.Platform.{Platform}
use aqua_regulator_server.World.{Action, Throwing, pure, call, lift, modify, bind_throwing}

-- Statements of the `try` block of `fromJson`: they fill the configuration, and what was filled before
-- an exception stays.
abbrev pub Loader : Type 0
Loader = Configuration → Result (Unit {0}) × Configuration

infixl 5 ◌>>=◌ ◌>>◌
abbrev ◌>>=◌ : {E W A B : Type 0} → Throwing E W A → (A → Throwing E W B) → Throwing E W B
m >>= f = bind_throwing m f

abbrev ◌>>◌ : {E W B : Type 0} → Throwing E W (Unit {0}) → Throwing E W B → Throwing E W B
m >> k = bind_throwing m λ _. k

-- The statements one after the other.
unfoldable pub run : List Loader → Loader
run [] c = (ok tt, c)
run (f ∷ fs) c = let (r, c') = f c in elim r [ ok u ↦ run fs c' | err what ↦ (err what, c') ]

-- cfg.field = value, for a value that may have been thrown
unfoldable pub assign : {A : Type 0} → (A → Configuration → Configuration) → Result A → Loader
assign set (ok a) c = (ok tt, set a c)
assign set (err what) c = (err what, c)

module _ {E W J : Type 0} (lib : Platform E W J) where
  open lib use {json, files, clock}

  -- if (auto it = json.find(key); it != json.end()) { … }
  unfoldable pub section : J → String → (J → List Loader) → Loader
  section j key body c = elim (json.find j key) [ none ↦ (ok tt, c) | some it ↦ run (body it) c ]

  unfoldable pub load_database : J → List Loader
  load_database it =
      (λ c.
        assign (λ v c. record c { database = record (c.database) { host = v } })
          (json.value_text it "host" c.database.host) c)
      ∷ (λ c.
          assign (λ v c. record c { database = record (c.database) { user = v } })
            (json.value_text it "user" c.database.user) c)
      ∷ (λ c.
          assign (λ v c. record c { database = record (c.database) { password = v } })
            (json.value_text it "password" c.database.password) c)
      ∷ (λ c.
          assign (λ v c. record c { database = record (c.database) { schema = v } })
            (json.value_text it "schema" c.database.schema) c)
      ∷ (λ c.
          assign (λ v c. record c { database = record (c.database) { port = v } })
            (json.value_u16 it "port" c.database.port) c)
      ∷ (λ c.
          assign (λ v c. record c { database = record (c.database) { read_recent_limit = v } })
            (json.value_u16 it "recentLimit" c.database.read_recent_limit) c)
      ∷ (λ c.
          assign (λ v c. record c { database = record (c.database) { retry_seconds = v } })
            (json.value_u16 it "retrySeconds" c.database.retry_seconds) c)
      ∷ []

  unfoldable pub load_sensor : J → List Loader
  load_sensor it =
      (λ c.
        assign (λ v c. record c { sensor = record (c.sensor) { endpoint = v } })
          (json.value_text it "endpoint" c.sensor.endpoint) c)
      ∷ (λ c.
          assign (λ v c. record c { sensor = record (c.sensor) { port = v } })
            (json.value_u16 it "port" c.sensor.port) c)
      ∷ (λ c.
          assign (λ v c. record c { sensor = record (c.sensor) { retry_seconds = v } })
            (json.value_u16 it "retrySeconds" c.sensor.retry_seconds) c)
      ∷ (λ c.
          assign (λ v c. record c { sensor = record (c.sensor) { registers = v } })
            (json.value_u16 it "registers" c.sensor.registers) c)
      ∷ []

  unfoldable pub load_publisher : J → List Loader
  load_publisher it =
      (λ c.
        assign (λ v c. record c { publisher = record (c.publisher) { bind_address = v } })
          (json.value_text it "bindAddress" c.publisher.bind_address) c)
      ∷ (λ c.
          assign (λ v c. record c { publisher = record (c.publisher) { port = v } })
            (json.value_u16 it "port" c.publisher.port) c)
      ∷ (λ c.
          assign (λ v c. record c { publisher = record (c.publisher) { worker_threads = v } })
            (json.value_u16 it "workerThreads" c.publisher.worker_threads) c)
      ∷ (λ c.
          assign (λ v c. record c { publisher = record (c.publisher) { max_connections = v } })
            (json.value_u16 it "maxConnections" c.publisher.max_connections) c)
      ∷ []

  unfoldable pub load_video : J → List Loader
  load_video it =
      (λ c.
        assign (λ v c. record c { video = record (c.video) { port = v } })
          (json.value_u16 it "port" c.video.port) c)
      ∷ []

  unfoldable pub load_health : J → List Loader
  load_health it =
      (λ c.
        assign (λ v c. record c { health = record (c.health) { status_file = v } })
          (json.value_text it "statusFile" c.health.status_file) c)
      ∷ (λ c.
          assign (λ v c. record c { health = record (c.health) { interval_seconds = v } })
            (json.value_u16 it "intervalSeconds" c.health.interval_seconds) c)
      ∷ []

  unfoldable pub load_pipeline : J → List Loader
  load_pipeline it =
      (λ c.
        assign
          (λ v c. record c { pipeline = record (c.pipeline) { realtime_interval_seconds = v } })
          (json.value_u16 it "realtimeSeconds" c.pipeline.realtime_interval_seconds) c)
      ∷ (λ c.
          assign
            (λ v c. record c { pipeline = record (c.pipeline) { historical_interval_seconds = v } })
            (json.value_u16 it "historicalSeconds" c.pipeline.historical_interval_seconds) c)
      ∷ (λ c.
          assign (λ v c. record c { pipeline = record (c.pipeline) { cache_size = v } })
            (json.value_u16 it "cacheSize" c.pipeline.cache_size) c)
      ∷ []

  unfoldable pub load_redis : J → List Loader
  load_redis it =
      (λ c.
        assign (λ v c. record c { redis = record (c.redis) { host = v } })
          (json.value_text it "host" c.redis.host) c)
      ∷ (λ c.
          assign (λ v c. record c { redis = record (c.redis) { port = v } })
            (json.value_u16 it "port" c.redis.port) c)
      ∷ (λ c.
          assign (λ v c. record c { redis = record (c.redis) { password = v } })
            (json.value_text it "password" c.redis.password) c)
      ∷ (λ c.
          assign (λ v c. record c { redis = record (c.redis) { database = v } })
            (json.value_u16 it "database" c.redis.database) c)
      ∷ (λ c.
          assign (λ v c. record c { redis = record (c.redis) { pool_size = v } })
            (json.value_u16 it "poolSize" c.redis.pool_size) c)
      ∷ (λ c.
          assign (λ v c. record c { redis = record (c.redis) { timeout_ms = v } })
            (json.value_u16 it "timeoutMs" c.redis.timeout_ms) c)
      ∷ (λ c.
          assign (λ v c. record c { redis = record (c.redis) { enabled = v } })
            (json.value_bool it "enabled" c.redis.enabled) c)
      ∷ []

  unfoldable pub load_sections : J → List Loader
  load_sections j =
      section j "database" load_database
      ∷ section j "sensor" load_sensor
      ∷ section j "publisher" load_publisher
      ∷ section j "video" load_video
      ∷ section j "health" load_health
      ∷ section j "pipeline" load_pipeline
      ∷ section j "redis" load_redis
      ∷ []

  -- `fromJson`: the `catch` block only logs.
  unfoldable pub from_json : Bytes → Configuration
  from_json json_text = elim (json.parse json_text) [
    | err what ↦ build_default_config
    | ok j ↦ (run (load_sections j) build_default_config).1
  ]

  -- `defaultJson`: the fields of each section, and the whole.
  unfoldable pub database_template : List (String × J)
  database_template =
      ("host", json.text "192.168.31.250")
      ∷ ("user", json.text "devuser")
      ∷ ("password", json.text "123456")
      ∷ ("schema", json.text "testdb")
      ∷ ("port", json.natural 3306)
      ∷ ("recentLimit", json.natural 50)
      ∷ ("retrySeconds", json.natural 5)
      ∷ []

  unfoldable pub sensor_template : List (String × J)
  sensor_template =
      ("endpoint", json.text "192.168.31.186")
      ∷ ("port", json.natural 502)
      ∷ ("retrySeconds", json.natural 5)
      ∷ ("registers", json.natural 6)
      ∷ []

  unfoldable pub publisher_template : List (String × J)
  publisher_template =
      ("bindAddress", json.text "0.0.0.0")
      ∷ ("port", json.natural 5555)
      ∷ ("workerThreads", json.natural 4)
      ∷ ("maxConnections", json.natural 200)
      ∷ []

  unfoldable pub video_template : List (String × J)
  video_template = ("port", json.natural 6000) ∷ []

  unfoldable pub health_template : List (String × J)
  health_template =
      ("statusFile", json.text "artifacts/health_status.json")
      ∷ ("intervalSeconds", json.natural 10)
      ∷ []

  unfoldable pub pipeline_template : List (String × J)
  pipeline_template =
      ("realtimeSeconds", json.natural 5)
      ∷ ("historicalSeconds", json.natural 60)
      ∷ ("cacheSize", json.natural 120)
      ∷ []

  unfoldable pub redis_template : List (String × J)
  redis_template =
      ("host", json.text "127.0.0.1")
      ∷ ("port", json.natural 6379)
      ∷ ("password", json.text "")
      ∷ ("database", json.natural 0)
      ∷ ("poolSize", json.natural 10)
      ∷ ("timeoutMs", json.natural 3000)
      ∷ ("enabled", json.boolean true)
      ∷ []

  unfoldable pub default_fields : List (String × J)
  default_fields =
      ("database", json.object database_template)
      ∷ ("sensor", json.object sensor_template)
      ∷ ("publisher", json.object publisher_template)
      ∷ ("video", json.object video_template)
      ∷ ("health", json.object health_template)
      ∷ ("pipeline", json.object pipeline_template)
      ∷ ("redis", json.object redis_template)
      ∷ []

  unfoldable pub default_json : Bytes
  default_json = json.dump_indented 4 (json.object default_fields)

  unfoldable pub set_config : Configuration → Action E W (Unit {0})
  set_config config = modify (λ w. record w { manager = record (w.manager) { config = config } })

  unfoldable pub set_time : ℕ → Action E W (Unit {0})
  set_time time = modify (λ w. record w { manager = record (w.manager) { last_write_time = time } })

  -- The file time with an error code: on an error it is the least time.
  unfoldable pub time_or_min : Option ℕ → ℕ
  time_or_min none = files.min_time
  time_or_min (some t) = t

  -- `loadFromDisk`. Creating the directory may throw, and nothing catches it.
  unfoldable pub load_from_disk : Throwing E W (Unit {0})
  load_from_disk w =
      let path = w.manager.path in
      bind_throwing (lift (call (files.read_file path)))
        (λ content. elim content [
          | none ↦ (do
            call (files.create_directories (files.parent_path path))
            lift (modify (λ v. record v { env = files.write_file path default_json v.env }))
            lift (set_config build_default_config))
          | some text ↦ (do
            lift (set_config (from_json text))
            time ← lift (call (files.last_write_time path))
            lift (set_time (time_or_min time)))
        ])
        w

  -- `reloadIfChanged`
  unfoldable pub reload_if_changed : Throwing E W Bool
  reload_if_changed w =
      bind_throwing (lift (call (files.last_write_time w.manager.path)))
        (λ current. elim current [
          | none ↦ lift (pure false)
          | some time ↦
              if time == w.manager.last_write_time
              then lift (pure false)
              else (do load_from_disk; lift (set_time time); lift (pure true))
        ])
        w

  -- A round of the loop of `main`: both branches reload, and differ in a log line.
  unfoldable pub poll : Throwing E W (Unit {0})
  poll = do
    lift (modify (λ w. record w { reload_requested = false }))
    changed ← reload_if_changed
    lift (modify (λ w. record w { env = clock.sleep_for (seconds 5) w.env }))
