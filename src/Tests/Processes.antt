-- ===== src/Tests/Processes.antt =====
-- The process and the service without Redis at concrete runs.
use aqua_regulator_server.Base.{ℕ, ◌≡◌, refl, true, false, none, [], ok, ◌∷◌, inl}
use aqua_regulator_server.Bootstrap.{Process, Others, main}
use aqua_regulator_server.Bootstrap.Release.{Ends, AllEnd, main_releases}
use aqua_regulator_server.Bootstrap.Status.{Fails, main-Fails}
use aqua_regulator_server.Bootstrap.Success.{Succeeds, main-Succeeds}
use aqua_regulator_server.Logger.{initial}
use aqua_regulator_server.MemoryService
use aqua_regulator_server.MemoryService.Equivalence.{run_loop_lem}
use aqua_regulator_server.Platform.{Platform}
use aqua_regulator_server.Service
use aqua_regulator_server.Tests.Sim.{Outside, Value, plain, world}
use aqua_regulator_server.World.{send}

-- Before `main`.
abbrev unstarted : Process Outside ℕ
unstarted = record {
  logger = initial;
  video = record {
    world = record (world none) {
      repository = record { config = (world none).repository.config; handle = none };
      redis_client = record ((world none).redis_client) { connected = false };
    };
    clients = [];
    queue = [];
    running = false;
    monitored = false;
  };
  file_path = "";
  monitoring = false;
  listening = false;
  collecting = false;
}

-- Two rounds; a frame is sent before the second.
abbrev others : Others Outside ℕ
others = record {
  rounds =
      record { before = λ w. (ok tt, w); signalled = false }
      ∷ record { before = λ w. (ok tt, record w { calls = send 3 [] ∷ [] }); signalled = true }
      ∷ [];
  relay_returns = true;
  last_round = λ w. (ok tt, w);
}

others-AllEnd : AllEnd others
others-AllEnd = record {
  rounds_end = ((λ w. refl), ((λ w. refl), tt));
  relay_ends = refl;
  last_ends = λ w. refl;
}

-- A database that takes no connection.
abbrev refusing : Platform Outside ℕ Value
refusing = record plain {
  mysql = record (plain.mysql) { real_connect = λ h host user password schema port e. (false, e) };
}

main_releases_example : Ends (main plain others unstarted)
main_releases_example =
    main_releases plain (λ path e. refl) others others-AllEnd unstarted
      (record {
        monitor_stopped = refl;
        publisher_stopped = refl;
        service_stopped = refl;
        video_stopped = refl;
        device_closed = refl;
        database_closed = refl;
        redis_closed = refl;
      })

main-Fails_example : Fails (main refusing others unstarted) unstarted
main-Fails_example =
    main-Fails refusing (λ path e. refl) (inl λ h host user password schema port e. refl) others
      unstarted

main-Succeeds_example : Succeeds (main plain others unstarted)
main-Succeeds_example =
    main-Succeeds plain (λ path e. refl)
      (record {
        initialises = λ e. (1, refl);
        connects = λ h host user password schema port e. refl;
        listens = λ address port e. refl;
      })
      others others-AllEnd unstarted

run_loop_lem_example :
    MemoryService.run_loop plain 2 (world none) ≡ Service.run_loop plain 2 (world none)
run_loop_lem_example = run_loop_lem plain 2 (world none) refl
