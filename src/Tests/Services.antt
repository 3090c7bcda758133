-- ===== src/Tests/Services.antt =====
-- The telemetry service, the loads, the Redis client and the roles at concrete inputs.
use Prim.Native.String.{◌++◌ as ◌<>◌}
use aqua_regulator_server.Base.{
  ℕ, ◌≡◌, refl, String, true, false, none, some, List, [], ◌∷◌, ◌++◌, Result, ok, arith,
}
use aqua_regulator_server.Base.Slices.{last}
use aqua_regulator_server.Base.Decimal.{to_string}
use aqua_regulator_server.Cache.Memory
use aqua_regulator_server.Cache.Window.{IsBounded}
use aqua_regulator_server.Database.{
  load_environmental, load_soil_and_air, load, execute, have_handle, refresh_connection,
  is_connected, ping, with_handle, store_result, build_all, build_env_reading, build_soil_reading,
  number_or_nought, text_or_na,
}
use aqua_regulator_server.Domain.{
  TelemetryChannel, realtime, historical_environment, historical_soil, TelemetryReading,
  TelemetryFrame,
}
use aqua_regulator_server.Monitor.{lookup}
use aqua_regulator_server.Platform.{Platform, Row}
use aqua_regulator_server.Publisher.{on_accept}
use aqua_regulator_server.Publisher.Delivery.{deliveries, listed, to_all, frame_packet}
use aqua_regulator_server.Router.{has_subscribers}
use aqua_regulator_server.Sensors.{
  read_realtime, ensure_connection, sample, reading_of, current_timestamp, read_registers,
  overwrite, the_modbus,
}
use aqua_regulator_server.Sensors.Health.{Shows}
use aqua_regulator_server.Service.{snapshot_provider, process_historical, process_realtime}
use aqua_regulator_server.Service.Quiet.{on_accept-snapshot_provider}
use aqua_regulator_server.Service.Realtime.{increment, process_realtime-some}
use aqua_regulator_server.Service.Rounds.{process_historical_stores}
use aqua_regulator_server.Tests.Sim.{Outside, Value, sim, plain, no_json, world, cache}
use aqua_regulator_server.Video.{Video, relay}
use aqua_regulator_server.Video.Roles.{receivers, to_clients, relay_broadcast}

-- A database whose tables hold two rows, and what `stod` makes of their numbers.
abbrev rows : List Row
rows = (some "10:02", some "2", none, some "4") ∷ (none, some "1", some "1", none) ∷ []

abbrev holding : (String → Result ℕ) → Platform Outside ℕ Value
holding stod = record plain {
  real = record (plain.real) { stod = stod };
  mysql = record (plain.mysql) { store_result = λ h e. (some rows, e) };
}

abbrev readable : Platform Outside ℕ Value
readable = holding (λ s. ok 5)

on_accept-snapshot_provider_example :
    (on_accept plain (some (snapshot_provider plain)) 4 (world none)).1.calls
    ≡ deliveries plain (3 ∷ 4 ∷ []) (snapshot_provider plain (listed plain 4 (world none))).0
unfolding has_subscribers
on_accept-snapshot_provider_example = on_accept-snapshot_provider plain (λ v. refl) 4 (world none)

abbrev frame : TelemetryChannel → ℕ → TelemetryFrame ℕ
frame c n = record {
  channel = c;
  readings = Memory.snapshot cache c;
  snapshot = true;
  correlation_id = "frame-" <> to_string n;
}

-- Client 1 declares itself a publisher; client 2 watches.
abbrev watched : Video Outside ℕ
watched = record {
  world = world none;
  clients = record { id = 1; is_publisher = true } ∷ record { id = 2; is_publisher = false } ∷ [];
  queue = record { payload = 9 ∷ []; timestamp = 0 } ∷ [];
  running = true;
  monitored = true;
}

relay_broadcast_example :
    (v' : Video Outside ℕ) × (relay plain watched ≡ some v')
    × (v'.world.calls ≡ to_clients plain (receivers plain watched.clients) (9 ∷ []))
    × (v'.queue ≡ [])
    × (v'.clients ≡ watched.clients)
relay_broadcast_example =
    relay_broadcast plain (record { payload = 9 ∷ []; timestamp = 0 }) [] watched refl refl

abbrev old_row : TelemetryReading ℕ
old_row = record {
  label = "Historical_ENV";
  timestamp = "N/A";
  temperature = 5;
  humidity = 5;
  light = 0;
  soil = 0;
  gas = 0;
  raindrop = 0;
}

abbrev new_row : TelemetryReading ℕ
new_row = record old_row { timestamp = "10:02"; humidity = 0; light = 5 }

abbrev old_soil : TelemetryReading ℕ
old_soil = record {
  label = "Historical_Soil";
  timestamp = "N/A";
  temperature = 0;
  humidity = 0;
  light = 0;
  soil = 5;
  gas = 5;
  raindrop = 0;
}

abbrev new_soil : TelemetryReading ℕ
new_soil = record old_soil { timestamp = "10:02"; gas = 0; raindrop = 5 }

cache-IsBounded : IsBounded cache
cache-IsBounded = record { bound = λ c. omega arith }

process_historical_stores_example :
    let m = (process_historical readable (world none)).1.service.memory_cache in
    ((process_historical readable (world none)).0 ≡ ok tt)
    × (Memory.snapshot m historical_environment
        ≡ last 2 (Memory.snapshot cache historical_environment ++ old_row ∷ new_row ∷ []))
    × (Memory.snapshot m historical_soil
        ≡ last 2 (Memory.snapshot cache historical_soil ++ old_soil ∷ new_soil ∷ []))
    × (Memory.snapshot m realtime ≡ Memory.snapshot cache realtime)
unfolding load_environmental load_soil_and_air load execute have_handle refresh_connection
    is_connected ping with_handle store_result build_all build_env_reading build_soil_reading
    number_or_nought text_or_na
process_historical_stores_example =
    process_historical_stores readable (old_row ∷ new_row ∷ []) (old_soil ∷ new_soil ∷ [])
      (world none) (world none) (world none) refl cache-IsBounded refl refl

abbrev measuring : Platform Outside ℕ Value
measuring = sim no_json (λ n. some (4500 ∷ 1050 ∷ 0 ∷ 2550 ∷ 6020 ∷ 8000 ∷ []))

abbrev measured : TelemetryReading ℕ
measured = record {
  label = "Realtime";
  timestamp = "noon";
  temperature = 25;
  humidity = 60;
  light = 80;
  soil = 45;
  gas = 10;
  raindrop = 0;
}

process_realtime-some_example :
    let w' = (process_realtime measuring (world (some 1))).1 in
    (w'.service.memory_cache ≡ Memory.store cache realtime measured)
    × (w'.calls
        ≡ to_all (3 ∷ []) (frame_packet measuring (increment measuring measured (world (some 1)))))
    × Shows true (lookup "telemetry_service" w'.states)
unfolding read_realtime ensure_connection sample reading_of current_timestamp read_registers
    overwrite the_modbus has_subscribers
process_realtime-some_example =
    process_realtime-some measuring measured (world (some 1))
      (read_realtime measuring (world (some 1))).1 refl refl
