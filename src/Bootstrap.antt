-- ===== src/Bootstrap.antt =====
-- main.cxx: the start of the server, the loop that polls the configuration, and the end, with the
-- constructors, `start` and `stop` of the parts.
pub mod Release
pub mod Status
pub mod Success
use aqua_regulator_server.Base.{
  String, Bool, true, false, Option, none, some, List, [], ◌∷◌, Result, ok, err, if◌then◌else◌,
}
use aqua_regulator_server.Cache.Client
use aqua_regulator_server.Config.{
  SensorConfig, PublisherConfig, PipelineConfig, RedisConfig, VideoConfig, Configuration,
  build_default_config,
}
use aqua_regulator_server.Config.Manager.{load_from_disk, poll}
use aqua_regulator_server.Database
use aqua_regulator_server.Logger
use aqua_regulator_server.Logger.{info}
use aqua_regulator_server.Monitor.{flush_to_disk}
use aqua_regulator_server.Platform.{Platform}
use aqua_regulator_server.Publisher
use aqua_regulator_server.Sensors
use aqua_regulator_server.Service.{choose_cache}
use aqua_regulator_server.Video.{Video}
use aqua_regulator_server.Video
use aqua_regulator_server.World.{
  World, Action, Throwing, pure, modify, bind_throwing, lift, ◌>>=◌, ◌>>◌,
}

pub data ExitStatus : Type 0 where
  exit_success exit_failure : ExitStatus

-- How `main` ends: with a status; with the process, by an exception of its thread or of another one that
-- nothing catches; or not, in a `join` that never returns.
pub data Ending : Type 0 where
  returns : ExitStatus → Ending
  terminates : String → Ending
  waits : Ending

-- What `main` holds: the logger, the video server with the world, the path and `running_` of the health monitor,
-- whether the publisher listens, and `running_` of the telemetry service.
pub record Process (E W : Type 0) : Type 0 where
  pub logger : Logger.Logger
  pub video : Video E W
  pub file_path : String
  pub monitoring : Bool
  pub listening : Bool
  pub collecting : Bool

-- A round of the loop of `main`: what the other threads do before it, which ends the process if an
-- exception leaves one of them, and whether a signal comes in it.
pub record Round (E W : Type 0) : Type 0 where
  pub before : Throwing E W (Unit {0})
  pub signalled : Bool

-- The rounds, with a signal behind the last of them; whether the relay thread returns once `stop` of the
-- video server waits for it; and what the other threads do while `stop` of the telemetry service waits
-- for its thread to end its round.
pub record Others (E W : Type 0) : Type 0 where
  pub rounds : List (Round E W)
  pub relay_returns : Bool
  pub last_round : Throwing E W (Unit {0})

-- `handleSignal`, on what `g_shouldRun` points to, if it is not null.
unfoldable pub handle_signal : Option Bool → Option Bool
handle_signal none = none
handle_signal (some should_run) = some false

-- shouldRun.load()
unfoldable pub is_set : Option Bool → Bool
is_set none = false
is_set (some should_run) = should_run

module _ {E W : Type 0} where
  abbrev pub the_world : Process E W → World E W
  the_world p = p.video.world

  unfoldable pub on_world : {A : Type 0} → Action E W A → Process E W → A × Process E W
  on_world m p =
      let (a, w) = m p.video.world in (a, record p { video = record (p.video) { world = w } })

  unfoldable pub then_world : Action E W (Unit {0}) → Process E W → Process E W
  unfolding on_world
  then_world m p = (on_world m p).1

module _ {E W J : Type 0} (lib : Platform E W J) where
  -- The constructor of `ConfigurationManager`, whose time is that of `file_time_type{}`.
  unfoldable pub construct_manager : String → Throwing E W (Unit {0})
  construct_manager path w = load_from_disk lib (record w {
    manager = record {
      config = build_default_config;
      path = path;
      last_write_time = lib.files.epoch;
    };
  })

  -- `HealthMonitor`: the constructor, `start`, and `stop`, which waits for the last writing of the
  -- thread. What the thread writes before is in Monitor/Worker.
  unfoldable pub construct_monitor : String → Process E W → Process E W
  unfolding then_world
  construct_monitor path p =
      then_world (modify (λ w. record w { states = [] }))
        (record p { file_path = path; monitoring = false })

  unfoldable pub start_monitor : Process E W → Process E W
  start_monitor p = if p.monitoring then p else record p { monitoring = true }

  unfoldable pub stop_monitor : Process E W → Process E W
  unfolding then_world
  stop_monitor p =
      if p.monitoring
      then then_world (flush_to_disk lib p.file_path) (record p { monitoring = false })
      else p

  -- The constructors of `SensorGateway`, and of `TelemetryServiceWithRedis` with its members.
  unfoldable pub construct_gateway : SensorConfig → Action E W (Unit {0})
  construct_gateway config =
      modify
        (λ w. record w { gateway = record { config = config; modbus = none; last_attempt = 0 } })

  unfoldable pub construct_service : PipelineConfig → RedisConfig → Action E W (Unit {0})
  construct_service pipeline redis = do
    modify (λ w. record w {
      service = record {
        pipeline = pipeline;
        memory_cache = record { capacity = pipeline.cache_size; buffer = λ channel. [] };
        use_redis = false;
        correlation = 0;
      };
      redis_client = record { config = redis; connected = false; last_attempt = 0 };
    })
    choose_cache lib

  -- `start` and `stop` of the telemetry service, and its `stop` again with the destructors of its
  -- members.
  unfoldable pub start_service : Process E W → Process E W
  start_service p = if p.collecting then p else record p { collecting = true }

  unfoldable pub stop_service :
      Throwing E W (Unit {0}) → Process E W → Result (Unit {0}) × Process E W
  unfolding on_world
  stop_service last_round p =
      if p.collecting then on_world last_round (record p { collecting = false }) else (ok tt, p)

  unfoldable pub start_publisher : PublisherConfig → Process E W → Bool × Process E W
  unfolding on_world
  start_publisher config p =
      let (listening, q) = on_world (Publisher.start lib config) p in
      (listening, record q { listening = listening })

  -- `server_->Stop()` and the report.
  unfoldable pub stop_publisher : Process E W → Process E W
  unfolding then_world
  stop_publisher p = then_world (Publisher.stop lib) (record p { listening = false })

  -- VideoManager videoManager(&healthMonitor); if (!videoManager.start(port)) the failure is logged.
  unfoldable pub start_video : VideoConfig → Process E W → Process E W
  start_video config p = record p {
    video =
        (Video.start lib config.port
          (record (p.video) { clients = []; queue = []; running = false; monitored = true })).1;
  }

  -- `stop`, and whether its `join` returns.
  unfoldable pub stop_video : Bool → Process E W → Bool × Process E W
  stop_video relay_returns p =
      if p.video.running
      then (relay_returns, record p { video = record (p.video) { running = false } })
      else (true, p)

  -- while (shouldRun.load()) { … }
  unfoldable pub poll_all : List (Round E W) → Option Bool → Throwing E W (Unit {0})
  unfolding handle_signal is_set
  poll_all [] should_run w = (ok tt, w)
  poll_all (round ∷ rest) should_run w =
      let next = if round.signalled then handle_signal should_run else should_run in
      let later =
        bind_throwing round.before (λ _. bind_throwing (poll lib) λ _. poll_all rest next) w in
      if is_set should_run then later else (ok tt, w)

  -- The destructors of what `main` has constructed, in reverse: of the repository and the monitor; with
  -- the gateway; and with the members of the telemetry service.
  unfoldable pub destroy_repository : Process E W → Process E W
  unfolding then_world
  destroy_repository p = stop_monitor (then_world (Database.disconnect lib) p)

  unfoldable pub destroy_gateway : Process E W → Process E W
  unfolding then_world
  destroy_gateway p = destroy_repository (then_world (Sensors.disconnect lib) p)

  -- Here both services were stopped, so their `stop` returns at once.
  unfoldable pub destroy_service : Process E W → Process E W
  unfolding then_world
  destroy_service p =
      let q = (stop_service (lift (pure tt)) (stop_video true p).1).1 in
      destroy_gateway (then_world (Client.disconnect lib) q)

  -- The end of `main` from `telemetryService.stop()` on, and from `videoManager.stop()` on.
  unfoldable pub stop_rest : Throwing E W (Unit {0}) → Process E W → Ending × Process E W
  stop_rest last_round p =
      let (ended, q) = stop_service last_round p in
      elim ended [
        | err what ↦ (terminates what, q)
        | ok u ↦ (returns exit_success, destroy_service (stop_monitor (stop_publisher q)))
      ]

  unfoldable pub shut_down : Others E W → Process E W → Ending × Process E W
  shut_down others p =
      let (joined, q) = stop_video others.relay_returns p in
      if joined then stop_rest others.last_round q else (waits, q)

  -- From `shouldRun{true}` and the loop on. An exception ends the process.
  unfoldable pub run : Others E W → Process E W → Ending × Process E W
  unfolding on_world
  run others p =
      let (polled, q) = on_world (poll_all others.rounds (some true)) p in
      elim polled [ err what ↦ (terminates what, q) | ok u ↦ shut_down others q ]

  -- From the publisher on.
  unfoldable pub publish_and_run : Configuration → Others E W → Process E W → Ending × Process E W
  unfolding then_world
  publish_and_run config others p =
      let (listening, q) = start_publisher config.publisher p in
      if listening
      then run others (
          start_video config.video
            (start_service (then_world (construct_service config.pipeline config.redis) q)))
      else (returns exit_failure, destroy_gateway q)

  -- From the database on.
  unfoldable pub connect_and_run : Configuration → Others E W → Process E W → Ending × Process E W
  unfolding on_world then_world
  connect_and_run config others p =
      let (ready, q) = on_world (Database.initialize lib config.database) p in
      if ready
      then publish_and_run config others (then_world (construct_gateway config.sensor) q)
      else (returns exit_failure, destroy_repository q)

  -- From the configuration on.
  unfoldable pub load_and_run : Others E W → Process E W → Ending × Process E W
  unfolding on_world
  load_and_run others p =
      let (loaded, q) = on_world (construct_manager "config/app_config.json") p in
      elim loaded [
        | err what ↦ (terminates what, q)
        | ok u ↦
            let config = q.video.world.manager.config in
            connect_and_run config others
              (start_monitor (construct_monitor config.health.status_file q))
      ]

  -- core::Logger::instance().configure(core::LogLevel::Info, "logs/aqua_regulator.log"), which may throw.
  unfoldable pub configure_logger : Process E W → Result (Unit {0}) × Process E W
  configure_logger p =
      let (configured, s) =
        Logger.configure lib info "logs/aqua_regulator.log" true
          (record { logger = p.logger; env = p.video.world.env; console = []; file = [] }) in
      (
        configured,
        record p {
          logger = s.logger;
          video = record (p.video) { world = record (p.video.world) { env = s.env } };
        },
      )

  unfoldable pub main : Others E W → Process E W → Ending × Process E W
  main others p =
      let (configured, q) = configure_logger p in
      elim configured [ err what ↦ (terminates what, q) | ok u ↦ load_and_run others q ]
