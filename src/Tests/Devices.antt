-- ===== src/Tests/Devices.antt =====
-- The gateway, the health table and the commands at concrete inputs.
use aqua_regulator_server.Base.{
  ℕ, ◌-◌, ◌≤◌, ◌≡◌, refl, ◌⊎◌, String, Option, none, some, List, [], ◌∷◌, ok, codes, seconds,
  str_eq, if◌then◌else◌, arith,
}
use aqua_regulator_server.Domain.{TelemetryReading}
use aqua_regulator_server.Platform.{Platform}
use aqua_regulator_server.Router.{parse_line, threshold_ok}
use aqua_regulator_server.Router.Commands.{parse_line_threshold}
use aqua_regulator_server.Sensors.{ensure_connection, read_realtime}
use aqua_regulator_server.Sensors.Connection.{
  attempts_spaced, Request, read, write as write_to, serve_all, broken_connection_kept,
}
use aqua_regulator_server.Sensors.Health.{read_realtime_values}
use aqua_regulator_server.Tests.Sim.{
  Outside, Value, string, double, object, missing, sim, plain, no_json, no_device, world,
}
use aqua_regulator_server.World.{write}

-- Six registers, as the sensor module documents them.
abbrev six : ℕ → Option (List ℕ)
six n = some (4500 ∷ 1050 ∷ 0 ∷ 2550 ∷ 6020 ∷ 8000 ∷ [])

attempts_spaced_example :
    ((ensure_connection plain (world none)).1
      ≡ record (world none) { env = (plain.clock.steady_now (world none).env).1 })
    ⊎ (((world none).gateway.modbus ≡ none)
        × (seconds 5 ≤ 100_000_000_000 - 0)
        × ((ensure_connection plain (world none)).1.gateway.last_attempt ≡ 100_000_000_000))
attempts_spaced_example = attempts_spaced plain (world none)

abbrev requests : List Request
requests = read ∷ write_to 10 500 ∷ read ∷ []

broken_connection_kept_example :
    (read_realtime plain (serve_all plain requests (world (some 1)))).0 ≡ none
broken_connection_kept_example =
    broken_connection_kept plain requests (world (some 1)) 1 refl (λ n e. refl)

abbrev measuring : Platform Outside ℕ Value
measuring = sim no_json six

abbrev measured : TelemetryReading ℕ
measured = record {
  label = "Realtime";
  timestamp = "noon";
  temperature = 25;
  humidity = 60;
  light = 80;
  soil = 45;
  gas = 10;
  raindrop = 0;
}

read_realtime_values_example : (read_realtime measuring (world (some 1))).0 ≡ some measured
read_realtime_values_example =
    read_realtime_values measuring (world (some 1)) 1 (4500 ∷ 1050 ∷ 0 ∷ 2550 ∷ 6020 ∷ 8000 ∷ [])
      refl refl refl (omega arith)

-- The commands: every line parses to the message that is given.
abbrev saying : Value → Platform Outside ℕ Value
saying msg = sim (λ line. ok msg) no_device

abbrev threshold_fields : String → Value
threshold_fields key =
    if str_eq key "type"
    then string "threshold"
    else if str_eq key "soil"
    then double 50
    else if str_eq key "rain"
    then double 30
    else missing

parse_line_threshold_example :
    ((parse_line (saying (object threshold_fields)) (codes "x") (world (some 1))).0 ≡ threshold_ok)
    × ((parse_line (saying (object threshold_fields)) (codes "x") (world (some 1))).1.calls
        ≡ write 1 10 5000 ∷ write 1 11 3000 ∷ write 1 12 0 ∷ write 1 13 0 ∷ [])
parse_line_threshold_example =
    parse_line_threshold (saying (object threshold_fields)) (codes "x") (object threshold_fields) 50
      30 0 0 1 (world (some 1)) refl refl refl refl refl refl refl
