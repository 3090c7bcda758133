-- ===== src/Bootstrap/Status.antt =====
-- main.cxx: which status `main` returns, and what it has done by then if it fails.
use aqua_regulator_server.Base.{
  ℕ, String, ◌≡◌, refl, ◌∙◌, if◌then◌else◌, ◌⊎◌, inl, inr, Bool, true, false, Option, none, some,
  arith,
}
use aqua_regulator_server.Bootstrap.{
  Ending, returns, exit_failure, Process, Others, then_world, on_world, construct_manager,
  construct_monitor, start_monitor, stop_monitor, construct_gateway, start_publisher,
  destroy_repository, destroy_gateway, publish_and_run, connect_and_run, load_and_run,
  configure_logger, main,
}
use aqua_regulator_server.Bootstrap.Release.{CreatesDirectories, configure-ok, construct-ok}
use aqua_regulator_server.Config.{DatabaseConfig, PublisherConfig, Configuration}
use aqua_regulator_server.Config.Manager.{load_from_disk, set_config, set_time}
use aqua_regulator_server.Database
use aqua_regulator_server.Monitor.{flush_to_disk, update}
use aqua_regulator_server.Platform.{Platform}
use aqua_regulator_server.Publisher
use aqua_regulator_server.Sensors
use aqua_regulator_server.World.{World}

-- The status is EXIT_FAILURE, and no call on a connection or the device has been made since `p`.
abbrev pub Fails : {E W : Type 0} → Ending × Process E W → Process E W → Type 0
Fails r p = (r.0 ≡ returns exit_failure) × (r.1.video.world.calls ≡ p.video.world.calls)

module _ {E W J : Type 0} (lib : Platform E W J) where
  -- The database refuses every connection.
  abbrev pub DatabaseRefuses : Type 0
  DatabaseRefuses =
      (h : ℕ) (host user password schema : String) (port : ℕ) (e : E)
      → (lib.mysql.real_connect h host user password schema port e).0 ≡ false

  -- No address can be listened on.
  abbrev pub ListenFails : Type 0
  ListenFails = (address : String) (port : ℕ) (e : E) → (lib.server.start address port e).0 ≡ false

  connect_at-refused :
      DatabaseRefuses → (cfg : DatabaseConfig) (o : Option ℕ) (e : E) → elim o as (λ _. Type 0) [
        | none ↦ Unit {0}
        | some h ↦
            (lib.mysql.real_connect h cfg.host cfg.user cfg.password cfg.schema cfg.port e).0
            ≡ false
      ]
  connect_at-refused refuses cfg none e = tt
  connect_at-refused refuses cfg (some h) e = refuses h _ _ _ _ _ e

  initialize-refused :
      DatabaseRefuses
      → (cfg : DatabaseConfig) (w : World E W) → (Database.initialize lib cfg w).0 ≡ false
  unfolding Database.initialize Database.initialize_client Database.set_handle Database.connect
      Database.have_handle Database.with_handle
  initialize-refused refuses cfg w =
      let opened = lib.mysql.init w.env in
      ground (arith, connect_at-refused refuses cfg opened.0 opened.1)

  initialize-calls :
      (cfg : DatabaseConfig) (w : World E W) → (Database.initialize lib cfg w).1.calls ≡ w.calls
  unfolding Database.initialize Database.initialize_client Database.set_handle Database.connect
      Database.have_handle Database.with_handle
  initialize-calls cfg w = ground arith

  start-refused :
      ListenFails → (cfg : PublisherConfig) (w : World E W) → (Publisher.start lib cfg w).0 ≡ false
  unfolding Publisher.start
  start-refused fails cfg w = ground (arith, fails cfg.bind_address cfg.port w.env)

  start-calls :
      (cfg : PublisherConfig) (w : World E W) → (Publisher.start lib cfg w).1.calls ≡ w.calls
  unfolding Publisher.start update
  start-calls cfg w = ground arith

  destroy_repository-calls :
      (p : Process E W) → (destroy_repository lib p).video.world.calls ≡ p.video.world.calls
  unfolding destroy_repository Database.disconnect Database.set_handle stop_monitor flush_to_disk
      then_world
  destroy_repository-calls p = ground arith

  destroy_gateway-calls :
      (p : Process E W) → (destroy_gateway lib p).video.world.calls ≡ p.video.world.calls
  unfolding destroy_gateway Sensors.disconnect Sensors.reset_modbus Sensors.set_modbus
      Sensors.delete_modbus then_world on_world
  destroy_gateway-calls p =
      let q = then_world (Sensors.disconnect lib) p in destroy_repository-calls q ∙ ground arith

  either-Fails :
      (b : Bool) (x y : Ending × Process E W) (p : Process E W)
      → Fails x p
      → Fails y p
      → Fails (if b then x else y) p
  either-Fails true x y p h k = h
  either-Fails false x y p h k = k

  publish_and_run-Fails :
      ListenFails
      → (config : Configuration) (others : Others E W) (p : Process E W)
      → Fails (publish_and_run lib config others p) p
  unfolding publish_and_run start_publisher on_world
  publish_and_run-Fails fails config others p =
      rw (publish_and_run, start-refused fails config.publisher p.video.world)
        (refl, destroy_gateway-calls _ ∙ start-calls config.publisher p.video.world)

  connect_and_run-Fails :
      DatabaseRefuses ⊎ ListenFails
      → (config : Configuration) (others : Others E W) (p : Process E W)
      → Fails (connect_and_run lib config others p) p
  unfolding connect_and_run construct_gateway then_world on_world
  connect_and_run-Fails (inl refuses) config others p =
      rw (connect_and_run, initialize-refused refuses config.database p.video.world)
        (refl, destroy_repository-calls _ ∙ initialize-calls config.database p.video.world)
  connect_and_run-Fails (inr fails) config others p =
      let kept = initialize-calls config.database p.video.world in
      let (failure, calls) = publish_and_run-Fails fails config others _ in
      either-Fails _ _ _ p (failure, calls ∙ kept) (refl, destroy_repository-calls _ ∙ kept)

  construct_manager-calls :
      (path : String) (w : World E W) → (construct_manager lib path w).1.calls ≡ w.calls
  unfolding construct_manager load_from_disk set_config set_time
  construct_manager-calls path w = ground arith

  load_and_run-Fails :
      CreatesDirectories lib
      → DatabaseRefuses ⊎ ListenFails
      → (others : Others E W) (p : Process E W) → Fails (load_and_run lib others p) p
  unfolding load_and_run construct_monitor start_monitor then_world on_world
  load_and_run-Fails creates fault others p =
      let path : String = "config/app_config.json" in
      let (failure, calls) = connect_and_run-Fails fault _ others _ in
      rw (load_and_run, construct-ok lib creates path p.video.world)
        (failure, calls ∙ construct_manager-calls path p.video.world)

  -- If no directory fails to be created, and the database refuses every connection or the server can
  -- listen on no address, then `main` returns EXIT_FAILURE, and by then it has sent nothing to a
  -- connection and written nothing to the device.
  pub main-Fails :
      CreatesDirectories lib
      → DatabaseRefuses ⊎ ListenFails
      → (others : Others E W) (p : Process E W) → Fails (main lib others p) p
  unfolding main configure_logger
  main-Fails creates fault others p =
      rw (main, configure-ok lib creates p)
        (load_and_run-Fails creates fault others (configure_logger lib p).1)
