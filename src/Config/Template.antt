-- ===== src/Config/Template.antt =====
-- core/configuration.cxx: what `fromJson` reads back from the file that `defaultJson` fills.
use aqua_regulator_server.Base.{◌≡◌, refl, true, ok, arith}
use aqua_regulator_server.Config.{Configuration, build_default_config}
use aqua_regulator_server.Config.Manager.{
  run, assign, section, load_database, load_sensor, load_publisher, load_video, load_health,
  load_pipeline, load_redis, load_sections, from_json, default_fields, default_json,
  database_template, sensor_template, publisher_template, video_template, health_template,
  pipeline_template, redis_template,
}
use aqua_regulator_server.Domain.Codec.{field, IsJson}
use aqua_regulator_server.Platform.{Platform}

-- The configuration of the template file.
abbrev pub template : Configuration
template = record {
  database = record {
    host = "192.168.31.250";
    user = "devuser";
    password = "123456";
    schema = "testdb";
    port = 3306;
    read_recent_limit = 50;
    retry_seconds = 5;
  };
  sensor = record { endpoint = "192.168.31.186"; port = 502; retry_seconds = 5; registers = 6 };
  publisher = build_default_config.publisher;
  video = build_default_config.video;
  health = record { status_file = "artifacts/health_status.json"; interval_seconds = 10 };
  pipeline = record {
    realtime_interval_seconds = 5;
    historical_interval_seconds = 60;
    cache_size = 120;
  };
  redis = build_default_config.redis;
}

module _ {E W J : Type 0} (lib : Platform E W J) (law : IsJson lib.json) where
  open law use {value_text_found, value_u16_found, value_bool_found, find_found}

  load_database-template :
      (c : Configuration)
      → run (load_database lib (lib.json.object (database_template lib))) c
        ≡ (ok tt, record c { database = template.database })
  unfolding run assign load_database database_template field
  load_database-template c = ground (
    arith,
    value_text_found (database_template lib) "host" c.database.host "192.168.31.250" refl,
    value_text_found (database_template lib) "user" c.database.user "devuser" refl,
    value_text_found (database_template lib) "password" c.database.password "123456" refl,
    value_text_found (database_template lib) "schema" c.database.schema "testdb" refl,
    value_u16_found (database_template lib) "port" c.database.port 3306 refl (omega arith),
    value_u16_found (database_template lib) "recentLimit" c.database.read_recent_limit 50 refl
        (omega arith),
    value_u16_found (database_template lib) "retrySeconds" c.database.retry_seconds 5 refl
        (omega arith),
  )

  load_sensor-template :
      (c : Configuration)
      → run (load_sensor lib (lib.json.object (sensor_template lib))) c
        ≡ (ok tt, record c { sensor = template.sensor })
  unfolding run assign load_sensor sensor_template field
  load_sensor-template c = ground (
    arith,
    value_text_found (sensor_template lib) "endpoint" c.sensor.endpoint "192.168.31.186" refl,
    value_u16_found (sensor_template lib) "port" c.sensor.port 502 refl (omega arith),
    value_u16_found (sensor_template lib) "retrySeconds" c.sensor.retry_seconds 5 refl
        (omega arith),
    value_u16_found (sensor_template lib) "registers" c.sensor.registers 6 refl (omega arith),
  )

  load_publisher-template :
      (c : Configuration)
      → run (load_publisher lib (lib.json.object (publisher_template lib))) c
        ≡ (ok tt, record c { publisher = template.publisher })
  unfolding run assign load_publisher publisher_template field
  load_publisher-template c = ground (
    arith,
    value_text_found (publisher_template lib) "bindAddress" c.publisher.bind_address "0.0.0.0" refl,
    value_u16_found (publisher_template lib) "port" c.publisher.port 5555 refl (omega arith),
    value_u16_found (publisher_template lib) "workerThreads" c.publisher.worker_threads 4 refl
        (omega arith),
    value_u16_found (publisher_template lib) "maxConnections" c.publisher.max_connections 200 refl
        (omega arith),
  )

  load_video-template :
      (c : Configuration)
      → run (load_video lib (lib.json.object (video_template lib))) c
        ≡ (ok tt, record c { video = template.video })
  unfolding run assign load_video video_template field
  load_video-template c =
      ground
        (arith, value_u16_found (video_template lib) "port" c.video.port 6000 refl (omega arith))

  load_health-template :
      (c : Configuration)
      → run (load_health lib (lib.json.object (health_template lib))) c
        ≡ (ok tt, record c { health = template.health })
  unfolding run assign load_health health_template field
  load_health-template c = ground (
    arith,
    value_text_found (health_template lib) "statusFile" c.health.status_file
        "artifacts/health_status.json" refl,
    value_u16_found (health_template lib) "intervalSeconds" c.health.interval_seconds 10 refl
        (omega arith),
  )

  load_pipeline-template :
      (c : Configuration)
      → run (load_pipeline lib (lib.json.object (pipeline_template lib))) c
        ≡ (ok tt, record c { pipeline = template.pipeline })
  unfolding run assign load_pipeline pipeline_template field
  load_pipeline-template c = ground (
    arith,
    value_u16_found (pipeline_template lib) "realtimeSeconds" c.pipeline.realtime_interval_seconds 5
        refl (omega arith),
    value_u16_found (pipeline_template lib) "historicalSeconds"
        c.pipeline.historical_interval_seconds 60 refl (omega arith),
    value_u16_found (pipeline_template lib) "cacheSize" c.pipeline.cache_size 120 refl
        (omega arith),
  )

  load_redis-template :
      (c : Configuration)
      → run (load_redis lib (lib.json.object (redis_template lib))) c
        ≡ (ok tt, record c { redis = template.redis })
  unfolding run assign load_redis redis_template field
  load_redis-template c = ground (
    arith,
    value_text_found (redis_template lib) "host" c.redis.host "127.0.0.1" refl,
    value_u16_found (redis_template lib) "port" c.redis.port 6379 refl (omega arith),
    value_text_found (redis_template lib) "password" c.redis.password "" refl,
    value_u16_found (redis_template lib) "database" c.redis.database 0 refl (omega arith),
    value_u16_found (redis_template lib) "poolSize" c.redis.pool_size 10 refl (omega arith),
    value_u16_found (redis_template lib) "timeoutMs" c.redis.timeout_ms 3000 refl (omega arith),
    value_bool_found (redis_template lib) "enabled" c.redis.enabled true refl,
  )

  -- The file that the manager writes when there is none, read back, gives the values of the
  -- template, if `parse` reads back what `dump` wrote and `find` and `value` find the fields of an
  -- object.
  pub from_json-default_json :
      lib.json.parse (default_json lib) ≡ ok (lib.json.object (default_fields lib))
      → from_json lib (default_json lib) ≡ template
  unfolding from_json load_sections section run default_fields field
  from_json-default_json h =
      let fields = default_fields lib in
      let c0 : Configuration = build_default_config in
      let c1 = record c0 { database = template.database } in
      let c2 = record c1 { sensor = template.sensor } in
      let c3 = record c2 { publisher = template.publisher } in
      let c4 = record c3 { video = template.video } in
      let c5 = record c4 { health = template.health } in
      let c6 = record c5 { pipeline = template.pipeline } in
      ground (
        arith,
        h,
        find_found fields (database_template lib) "database" refl,
        find_found fields (sensor_template lib) "sensor" refl,
        find_found fields (publisher_template lib) "publisher" refl,
        find_found fields (video_template lib) "video" refl,
        find_found fields (health_template lib) "health" refl,
        find_found fields (pipeline_template lib) "pipeline" refl,
        find_found fields (redis_template lib) "redis" refl,
        load_database-template c0,
        load_sensor-template c1,
        load_publisher-template c2,
        load_video-template c3,
        load_health-template c4,
        load_pipeline-template c5,
        load_redis-template c6,
      )
