-- ===== src/Bootstrap/Success.antt =====
-- main.cxx: when `main` succeeds, and what the health monitor then says of the publisher.
use aqua_regulator_server.Base.{ℕ, String, ◌≡◌, refl, ◌∙◌, ap, true, false, some, arith}
use aqua_regulator_server.Bootstrap.{
  Ending, returns, exit_success, Process, Others, then_world, on_world, stop_monitor, stop_service,
  stop_video, stop_publisher, start_publisher, destroy_repository, destroy_gateway, destroy_service,
  run, poll_all, publish_and_run, connect_and_run, load_and_run, configure_logger, main,
}
use aqua_regulator_server.Bootstrap.Release.{
  CreatesDirectories, AllEnd, shut_down_lem, configure-ok, construct-ok, poll_all-ok,
}
use aqua_regulator_server.Cache.Client
use aqua_regulator_server.Config.{DatabaseConfig, PublisherConfig, Configuration}
use aqua_regulator_server.Database
use aqua_regulator_server.Monitor.{flush_to_disk, lookup}
use aqua_regulator_server.Monitor.Table.{update-healthy}
use aqua_regulator_server.Platform.{Platform}
use aqua_regulator_server.Publisher
use aqua_regulator_server.Sensors
use aqua_regulator_server.World.{World}

-- The status is EXIT_SUCCESS, and the publisher is reported as stopped.
abbrev pub Succeeds : {E W : Type 0} → Ending × Process E W → Type 0
Succeeds r =
    (r.0 ≡ returns exit_success)
    × ((at : ℕ) × (lookup "telemetry_publisher" r.1.video.world.states
          ≡ some (record { healthy = false; detail = "Server stopped"; updated_at = at })))

-- The database accepts every connection, and the server can listen on every address.
pub record Accepts {E W J : Type 0} (lib : Platform E W J) : Type 0 where
  pub initialises : (e : E) → (h : ℕ) × ((lib.mysql.init e).0 ≡ some h)
  pub connects :
      (h : ℕ) (host user password schema : String) (port : ℕ) (e : E)
      → (lib.mysql.real_connect h host user password schema port e).0 ≡ true
  pub listens : (address : String) (port : ℕ) (e : E) → (lib.server.start address port e).0 ≡ true

module _ {E W J : Type 0} (lib : Platform E W J) where
  initialize-accepted :
      Accepts lib
      → (cfg : DatabaseConfig) (w : World E W) → (Database.initialize lib cfg w).0 ≡ true
  unfolding Database.initialize Database.initialize_client Database.set_handle Database.connect
      Database.have_handle Database.with_handle
  initialize-accepted a cfg w =
      let (h, e) = a.initialises w.env in
      let opened : E = (lib.mysql.init w.env).1 in
      ground (arith, e, a.connects h cfg.host cfg.user cfg.password cfg.schema cfg.port opened)

  start-accepted :
      Accepts lib → (cfg : PublisherConfig) (w : World E W) → (Publisher.start lib cfg w).0 ≡ true
  unfolding Publisher.start
  start-accepted a cfg w = ground (arith, a.listens cfg.bind_address cfg.port w.env)

  destroy_service-states :
      (p : Process E W) → (destroy_service lib p).video.world.states ≡ p.video.world.states
  unfolding destroy_service destroy_gateway destroy_repository Database.disconnect
      Database.set_handle stop_service stop_video stop_monitor flush_to_disk Sensors.disconnect
      Sensors.reset_modbus Sensors.set_modbus Sensors.delete_modbus Client.disconnect
      Client.set_connected then_world on_world
  destroy_service-states p = ground arith

  stop_monitor-states :
      (p : Process E W) → (stop_monitor lib p).video.world.states ≡ p.video.world.states
  unfolding stop_monitor flush_to_disk then_world on_world
  stop_monitor-states p = ground arith

  stopped-states :
      (p : Process E W)
      → (at : ℕ) × (lookup "telemetry_publisher"
            (stop_monitor lib (stop_publisher lib p)).video.world.states
          ≡ some (record { healthy = false; detail = "Server stopped"; updated_at = at }))
  unfolding stop_publisher Publisher.stop then_world on_world
  stopped-states p = (
    _,
    ap (lookup "telemetry_publisher") (stop_monitor-states _)
        ∙ update-healthy lib "telemetry_publisher" false "Server stopped" _,
  )

  run-Succeeds :
      CreatesDirectories lib
      → (others : Others E W) → AllEnd others
      → (p : Process E W) → Succeeds (run lib others p)
  unfolding run on_world
  run-Succeeds creates others all p =
      let q = (on_world (poll_all lib others.rounds (some true)) p).1 in
      let stopped =
        (stop_service lib others.last_round (stop_video lib others.relay_returns q).1).1 in
      let (at, h) = stopped-states stopped in
      rw
        (
          run,
          poll_all-ok lib creates others.rounds (some true) p.video.world all.rounds_end,
          shut_down_lem lib others q all,
        )
        (refl, (at, ap (lookup "telemetry_publisher") (destroy_service-states _) ∙ h))

  publish_and_run-Succeeds :
      CreatesDirectories lib
      → Accepts lib
      → (config : Configuration) (others : Others E W) → AllEnd others
      → (p : Process E W) → Succeeds (publish_and_run lib config others p)
  unfolding publish_and_run start_publisher on_world
  publish_and_run-Succeeds creates a config others all p =
      rw (publish_and_run, start-accepted a config.publisher p.video.world)
        (run-Succeeds creates others all _)

  connect_and_run-Succeeds :
      CreatesDirectories lib
      → Accepts lib
      → (config : Configuration) (others : Others E W) → AllEnd others
      → (p : Process E W) → Succeeds (connect_and_run lib config others p)
  unfolding connect_and_run on_world
  connect_and_run-Succeeds creates a config others all p =
      rw (connect_and_run, initialize-accepted a config.database p.video.world)
        (publish_and_run-Succeeds creates a config others all _)

  load_and_run-Succeeds :
      CreatesDirectories lib
      → Accepts lib
      → (others : Others E W) → AllEnd others
      → (p : Process E W) → Succeeds (load_and_run lib others p)
  unfolding load_and_run on_world
  load_and_run-Succeeds creates a others all p =
      rw (load_and_run, construct-ok lib creates "config/app_config.json" p.video.world)
        (connect_and_run-Succeeds creates a _ others all _)

  -- If no directory fails to be created, the database accepts every connection, the server can listen on
  -- every address, no exception leaves another thread, and the relay thread of the video server returns
  -- when it is waited for, then `main` returns EXIT_SUCCESS behind its loop, for any number of rounds,
  -- also when the device or Redis fail, and the health monitor then holds the publisher as unhealthy,
  -- with "Server stopped".
  pub main-Succeeds :
      CreatesDirectories lib
      → Accepts lib
      → (others : Others E W) → AllEnd others
      → (p : Process E W) → Succeeds (main lib others p)
  unfolding main
  main-Succeeds creates a others all p =
      rw (main, configure-ok lib creates p)
        (load_and_run-Succeeds creates a others all (configure_logger lib p).1)
