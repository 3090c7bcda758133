-- ===== src/Tests/Pacing.antt =====
-- The rounds of the telemetry service on the simulated clock.
use aqua_regulator_server.Base.{◌+◌, ◌*◌, ◌≤◌, refl, none, seconds, List, Bool, arith}
use aqua_regulator_server.Database
use aqua_regulator_server.Sensors
use aqua_regulator_server.Service.{
  run_loop, first_historical, rounds, round, historical_if_due, process_realtime,
  process_historical,
}
use aqua_regulator_server.Service.Pacing.{IsForward}
use aqua_regulator_server.Service.Pacing.Rounds.{run_loop_paced}
use aqua_regulator_server.Service.Pacing.Loads.{Loading, count, historical_spaced}
use aqua_regulator_server.Tests.Sim.{plain, world}

plain-IsForward : IsForward plain (λ e. e.steady)
plain-IsForward = record {
  reads = λ e. omega arith;
  read = λ e. omega arith;
  system = λ e. omega arith;
  sleeps = λ n e. omega arith;
  new_tcp = λ ip port e. omega arith;
  connect = λ c e. omega arith;
  close = λ c e. omega arith;
  read_registers = λ c a n e. omega arith;
  init = λ e. omega arith;
  real_connect = λ h host user password schema port e. omega arith;
  ping = λ h e. omega arith;
  query = λ h q e. omega arith;
  store_result = λ h e. omega arith;
  close_mysql = λ h e. omega arith;
  redis_ping = λ e. omega arith;
  redis_create = λ host port password d t p e. omega arith;
  lpush = λ k v e. omega arith;
  ltrim = λ k a b e. omega arith;
  expire = λ k n e. omega arith;
  free = λ c e. omega arith;
}

run_loop_paced_example :
    100_000_000_000 + 1 * seconds 5 ≤ (run_loop plain 1 (world none)).1.env.steady
unfolding run_loop first_historical rounds round historical_if_due process_realtime
    process_historical Sensors.read_realtime Sensors.ensure_connection Sensors.reconnect
    Sensors.sample Sensors.the_modbus Sensors.read_registers Sensors.open_connection
    Sensors.new_modbus Sensors.connect Database.load_environmental Database.load_soil_and_air
    Database.load Database.execute Database.have_handle Database.refresh_connection
    Database.is_connected Database.ping Database.with_handle Database.store_result
    Database.build_all seconds
run_loop_paced_example = run_loop_paced plain (λ e. e.steady) plain-IsForward 1 (world none) refl

historical_spaced_example :
    let first = first_historical plain (world none) in
    (bs : List Bool) × Loading plain bs 1 first.0 first.1
    × (1 ≤ count plain bs)
    × (count plain bs * seconds 30 + 100_000_000_000
        ≤ (run_loop plain 1 (world none)).1.env.steady + seconds 30)
unfolding run_loop first_historical rounds round historical_if_due process_realtime
    process_historical Sensors.read_realtime Sensors.ensure_connection Sensors.reconnect
    Sensors.sample Sensors.the_modbus Sensors.read_registers Sensors.open_connection
    Sensors.new_modbus Sensors.connect Database.load_environmental Database.load_soil_and_air
    Database.load Database.execute Database.have_handle Database.refresh_connection
    Database.is_connected Database.ping Database.with_handle Database.store_result
    Database.build_all seconds
historical_spaced_example =
    historical_spaced plain (λ e. e.steady) plain-IsForward 0 (world none) refl
