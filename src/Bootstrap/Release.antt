-- ===== src/Bootstrap/Release.antt =====
-- main.cxx: how `main` ends.
use aqua_regulator_server.Base.{
  String, ◌≡◌, refl, ◌∙◌, if◌then◌else◌, Bool, true, false, Option, none, some, List, [], ◌∷◌, ok,
  All, arith,
}
use aqua_regulator_server.Bootstrap.{
  construct_gateway, Round, is_set, handle_signal, ExitStatus, Ending, returns, stop_rest,
  exit_success, exit_failure, Process, Others, then_world, on_world, construct_manager,
  construct_monitor, start_monitor, stop_monitor, stop_service, start_publisher, stop_publisher,
  stop_video, poll_all, destroy_repository, destroy_gateway, destroy_service, shut_down, run,
  publish_and_run, connect_and_run, load_and_run, configure_logger, main,
}
use aqua_regulator_server.Cache.Client
use aqua_regulator_server.Config.{DatabaseConfig, PublisherConfig, Configuration}
use aqua_regulator_server.Config.Manager.{
  load_from_disk, reload_if_changed, poll, set_config, set_time,
}
use aqua_regulator_server.Database
use aqua_regulator_server.Monitor.{flush_to_disk, update}
use aqua_regulator_server.Publisher
use aqua_regulator_server.Logger
use aqua_regulator_server.Platform.{Platform}
use aqua_regulator_server.Sensors
use aqua_regulator_server.World.{World, Throwing, lift, pure}

-- No part runs, and no connection to the device, the database or Redis is held.
pub record Released {E W : Type 0} (p : Process E W) : Type 0 where
  pub monitor_stopped : p.monitoring ≡ false
  pub publisher_stopped : p.listening ≡ false
  pub service_stopped : p.collecting ≡ false
  pub video_stopped : p.video.running ≡ false
  pub device_closed : p.video.world.gateway.modbus ≡ none
  pub database_closed : p.video.world.repository.handle ≡ none
  pub redis_closed : p.video.world.redis_client.connected ≡ false

-- Every other thread comes to its end: no exception leaves one, and the relay thread returns once it is
-- waited for.
pub record AllEnd {E W : Type 0} (others : Others E W) : Type 0 where
  pub rounds_end : All (λ r. (w : World E W) → (r.before w).0 ≡ ok tt) others.rounds
  pub relay_ends : others.relay_returns ≡ true
  pub last_ends : (w : World E W) → (others.last_round w).0 ≡ ok tt

-- A status is returned, and everything is released.
abbrev pub Ends : {E W : Type 0} → Ending × Process E W → Type 0
Ends r = (status : ExitStatus) × (r.0 ≡ returns status) × Released r.1

module _ {E W J : Type 0} (lib : Platform E W J) where
  abbrev pub CreatesDirectories : Type 0
  CreatesDirectories = (path : String) (e : E) → (lib.files.create_directories path e).0 ≡ ok tt

  load-ok : CreatesDirectories → (w : World E W) → (load_from_disk lib w).0 ≡ ok tt
  unfolding load_from_disk set_config set_time
  load-ok creates w =
      let path = w.manager.path in
      ground (arith, creates (lib.files.parent_path path) (lib.files.read_file path w.env).1)

  pub construct-ok :
      CreatesDirectories
      → (path : String) (w : World E W) → (construct_manager lib path w).0 ≡ ok tt
  unfolding construct_manager
  construct-ok creates path w = load-ok creates _

  construct_manager-redis :
      (path : String) (w : World E W)
      → (construct_manager lib path w).1.redis_client.connected ≡ w.redis_client.connected
  unfolding construct_manager load_from_disk set_config set_time
  construct_manager-redis path w = ground arith

  construct_manager-gateway :
      (path : String) (w : World E W)
      → (construct_manager lib path w).1.gateway.modbus ≡ w.gateway.modbus
  unfolding construct_manager load_from_disk set_config set_time
  construct_manager-gateway path w = ground arith

  poll-ok : CreatesDirectories → (w : World E W) → (poll lib w).0 ≡ ok tt
  unfolding poll reload_if_changed set_time
  poll-ok creates w =
      let looked = record w {
        reload_requested = false;
        env = (lib.files.last_write_time w.manager.path w.env).1;
      } in
      ground (arith, load-ok creates looked)

  pub poll_all-ok :
      CreatesDirectories
      → (rounds : List (Round E W)) (should_run : Option Bool) (w : World E W)
      → All (λ r. (v : World E W) → (r.before v).0 ≡ ok tt) rounds
      → (poll_all lib rounds should_run w).0 ≡ ok tt
  unfolding poll_all is_set handle_signal
  poll_all-ok creates [] should_run w quiet = refl
  poll_all-ok creates (r ∷ rest) none w quiet = refl
  poll_all-ok creates (r ∷ rest) (some false) w quiet = refl
  poll_all-ok creates (r ∷ rest) (some true) w quiet =
      let next = if r.signalled then some false else some true in
      let v = (r.before w).1 in
      ground
        (arith, quiet.0 w, poll-ok creates v, poll_all-ok creates rest next (poll lib v).1 quiet.1)

  destroy_repository-Released :
      (p : Process E W)
      → p.listening ≡ false
      → p.collecting ≡ false
      → p.video.running ≡ false
      → p.video.world.gateway.modbus ≡ none
      → p.video.world.redis_client.connected ≡ false
      → Released (destroy_repository lib p)
  unfolding destroy_repository Database.disconnect Database.set_handle stop_monitor flush_to_disk
      then_world
  destroy_repository-Released p a b c d e = ground (arith, a, b, c, d, e)

  destroy_gateway-Released :
      (p : Process E W)
      → p.listening ≡ false
      → p.collecting ≡ false
      → p.video.running ≡ false
      → p.video.world.redis_client.connected ≡ false
      → Released (destroy_gateway lib p)
  unfolding destroy_gateway Sensors.disconnect Sensors.reset_modbus Sensors.set_modbus
      Sensors.delete_modbus then_world on_world
  destroy_gateway-Released p a b c d =
      let q = then_world (Sensors.disconnect lib) p in
      destroy_repository-Released q a b c (ground arith) (ground (arith, d))

  destroy_service-Released :
      (p : Process E W) → p.listening ≡ false → Released (destroy_service lib p)
  unfolding destroy_service stop_service stop_video Client.disconnect Client.set_connected
      then_world on_world
  destroy_service-Released p a =
      let q = (stop_service lib (lift (pure tt)) (stop_video lib true p).1).1 in
      destroy_gateway-Released (then_world (Client.disconnect lib) q) (ground (arith, a))
        (ground arith) (ground arith) (ground arith)

  stopped-listening :
      (p : Process E W) → (stop_monitor lib (stop_publisher lib p)).listening ≡ false
  unfolding stop_publisher stop_monitor then_world on_world
  stopped-listening p = ground arith

  stop_service-ok :
      (last_round : Throwing E W (Unit {0})) (p : Process E W)
      → ((w : World E W) → (last_round w).0 ≡ ok tt)
      → (stop_service lib last_round p).0 ≡ ok tt
  unfolding stop_service on_world
  stop_service-ok last_round p h = ground (arith, h p.video.world)

  stop_video-joined : (b : Bool) (p : Process E W) → b ≡ true → (stop_video lib b p).0 ≡ true
  unfolding stop_video
  stop_video-joined b p h = ground (arith, h)

  -- The end of `main`, where every other thread comes to its own.
  pub shut_down_lem :
      (others : Others E W) (p : Process E W)
      → AllEnd others
      → let q = (stop_service lib others.last_round (stop_video lib others.relay_returns p).1).1 in
        shut_down lib others p
        ≡ (returns exit_success, destroy_service lib (stop_monitor lib (stop_publisher lib q)))
  unfolding shut_down stop_rest
  shut_down_lem others p all =
      let q = (stop_video lib others.relay_returns p).1 in
      rw
        (
          shut_down,
          stop_video-joined others.relay_returns p all.relay_ends,
          stop_rest,
          stop_service-ok others.last_round q all.last_ends,
        )
        refl

  either-Ends :
      (b : Bool) {x : Ending × Process E W}
      → Ends x
      → (q : Process E W) → q.collecting ≡ false
      → q.video.running ≡ false
      → q.listening ≡ b
      → q.video.world.redis_client.connected ≡ false
      → Ends (if b then x else (returns exit_failure, destroy_gateway lib q))
  either-Ends true h q a c e f = h
  either-Ends false h q a c e f = (exit_failure, refl, destroy_gateway-Released q e a c f)

  run-Ends :
      CreatesDirectories
      → (others : Others E W) → AllEnd others
      → (p : Process E W) → Ends (run lib others p)
  unfolding run on_world
  run-Ends creates others all p =
      rw
        (
          run,
          poll_all-ok creates others.rounds (some true) p.video.world all.rounds_end,
          shut_down_lem others _ all,
        )
        (exit_success, refl, destroy_service-Released _ (stopped-listening _))

  start-redis :
      (cfg : PublisherConfig) (w : World E W)
      → (Publisher.start lib cfg w).1.redis_client.connected ≡ w.redis_client.connected
  unfolding Publisher.start update
  start-redis cfg w = ground arith

  publish_and_run-Ends :
      CreatesDirectories
      → (config : Configuration) (others : Others E W) → AllEnd others
      → (p : Process E W) → p.collecting ≡ false
      → p.video.running ≡ false
      → p.video.world.redis_client.connected ≡ false
      → Ends (publish_and_run lib config others p)
  unfolding publish_and_run on_world start_publisher
  publish_and_run-Ends creates config others all p a b c =
      let q = (start_publisher lib config.publisher p).1 in
      either-Ends q.listening (run-Ends creates others all _) q a b refl
        (start-redis config.publisher p.video.world ∙ c)

  either_early-Ends :
      (b : Bool) {x : Ending × Process E W}
      → Ends x
      → (q : Process E W) → q.listening ≡ false
      → q.collecting ≡ false
      → q.video.running ≡ false
      → q.video.world.gateway.modbus ≡ none
      → q.video.world.redis_client.connected ≡ false
      → Ends (if b then x else (returns exit_failure, destroy_repository lib q))
  either_early-Ends true h q a c d e f = h
  either_early-Ends false h q a c d e f =
      (exit_failure, refl, destroy_repository-Released q a c d e f)

  initialize-gateway :
      (cfg : DatabaseConfig) (w : World E W)
      → (Database.initialize lib cfg w).1.gateway.modbus ≡ w.gateway.modbus
  unfolding Database.initialize Database.initialize_client Database.set_handle Database.connect
      Database.have_handle Database.with_handle
  initialize-gateway cfg w = ground arith

  initialize-redis :
      (cfg : DatabaseConfig) (w : World E W)
      → (Database.initialize lib cfg w).1.redis_client.connected ≡ w.redis_client.connected
  unfolding Database.initialize Database.initialize_client Database.set_handle Database.connect
      Database.have_handle Database.with_handle
  initialize-redis cfg w = ground arith

  connect_and_run-Ends :
      CreatesDirectories
      → (config : Configuration) (others : Others E W) → AllEnd others
      → (p : Process E W) → p.listening ≡ false
      → p.collecting ≡ false
      → p.video.running ≡ false
      → p.video.world.gateway.modbus ≡ none
      → p.video.world.redis_client.connected ≡ false
      → Ends (connect_and_run lib config others p)
  unfolding connect_and_run construct_gateway on_world then_world
  connect_and_run-Ends creates config others all p b c d e f =
      let q = on_world (Database.initialize lib config.database) p in
      either_early-Ends q.0
        (publish_and_run-Ends creates config others all
          (then_world (construct_gateway lib config.sensor) q.1) c d
          (initialize-redis config.database p.video.world ∙ f))
        q.1 b c d (initialize-gateway config.database p.video.world ∙ e)
        (initialize-redis config.database p.video.world ∙ f)

  load_and_run-Ends :
      CreatesDirectories
      → (others : Others E W) → AllEnd others
      → (p : Process E W) → Released p
      → Ends (load_and_run lib others p)
  unfolding load_and_run on_world construct_monitor start_monitor then_world
  load_and_run-Ends creates others all p r =
      rw (load_and_run, construct-ok creates "config/app_config.json" p.video.world)
        (connect_and_run-Ends creates _ others all _ r.publisher_stopped r.service_stopped
          r.video_stopped
          (construct_manager-gateway "config/app_config.json" p.video.world ∙ r.device_closed)
          (construct_manager-redis "config/app_config.json" p.video.world ∙ r.redis_closed))

  configured-Released : (p : Process E W) → Released p → Released (configure_logger lib p).1
  unfolding configure_logger
  configured-Released p r = record {
    monitor_stopped = r.monitor_stopped;
    publisher_stopped = r.publisher_stopped;
    service_stopped = r.service_stopped;
    video_stopped = r.video_stopped;
    device_closed = r.device_closed;
    database_closed = r.database_closed;
    redis_closed = r.redis_closed;
  }

  pub configure-ok : CreatesDirectories → (p : Process E W) → (configure_logger lib p).0 ≡ ok tt
  unfolding configure_logger Logger.configure Logger.open_file
  configure-ok creates p =
      ground (arith, creates (lib.files.parent_path "logs/aqua_regulator.log") p.video.world.env)

  -- If no directory fails to be created, no exception leaves another thread, and the relay thread of the
  -- video server returns when it is waited for, then `main`, begun with no part running and no
  -- connection to the device, the database or Redis held, returns a status for every behaviour of the
  -- libraries and for any number of rounds of its loop, and then no part runs and no such connection is
  -- held again: it neither ends by an exception nor leaves a thread behind on its early returns.
  pub main_releases :
      CreatesDirectories
      → (others : Others E W) → AllEnd others
      → (p : Process E W) → Released p
      → Ends (main lib others p)
  unfolding main
  main_releases creates others all p r =
      let q = (configure_logger lib p).1 in
      rw (main, configure-ok creates p)
        (load_and_run-Ends creates others all q (configured-Released p r))
