-- ===== src/Sensors/Health.antt =====
-- infrastructure/sensors/sensor_data.hpp: what a read yields, and what it leaves in the health table.
use aqua_regulator_server.Base.{
  ℕ, zero, suc, ◌≤◌, ◌<◌, ◌≡◌, refl, ap, ◌⊎◌, Bool, true, false, Option, none, some, List, [], ◌∷◌,
  length, get_or, replicate, arith,
}
use aqua_regulator_server.Domain.{TelemetryReading}
use aqua_regulator_server.Monitor.{lookup}
use aqua_regulator_server.Monitor.Table.{lookup-insert_self}
use aqua_regulator_server.Platform.{Platform}
use aqua_regulator_server.Sensors.Connection.{ensure_connection-some}
use aqua_regulator_server.Sensors.{
  overwrite, reading_of, sample, read_realtime, ensure_connection, reconnect,
}
use aqua_regulator_server.World.{World, HealthState}

-- The health entry of a component says that it is well, or not.
abbrev pub Shows : Bool → Option HealthState → Type 0
Shows b none = ⊥
Shows b (some s) = s.healthy ≡ b

module _ {E W J : Type 0} (lib : Platform E W J) where
  sample-Shows-some :
      (n : ℕ) (w : World E W) (r : TelemetryReading W)
      → (sample lib n w).0 ≡ some r
      → Shows true (lookup "sensor_gateway" (sample lib n w).1.states)
  unfolding sample
  sample-Shows-some n w r h = grind (arith, lookup-insert_self)

  sample-Shows-none :
      (n : ℕ) (w : World E W)
      → (sample lib n w).0 ≡ none
      → Shows false (lookup "sensor_gateway" (sample lib n w).1.states)
  unfolding sample
  sample-Shows-none n w h = grind (arith, lookup-insert_self)

  ensure-Shows-false :
      (w : World E W)
      → (ensure_connection lib w).0 ≡ false
      → ((ensure_connection lib w).1.states ≡ w.states)
        ⊎ Shows false (lookup "sensor_gateway" (ensure_connection lib w).1.states)
  unfolding ensure_connection reconnect
  ensure-Shows-false w h = grind (arith, lookup-insert_self)

  -- A read that yields a reading leaves the gateway shown as healthy.
  read_realtime-Shows-some :
      (w : World E W) (r : TelemetryReading W)
      → (read_realtime lib w).0 ≡ some r
      → Shows true (lookup "sensor_gateway" (read_realtime lib w).1.states)
  unfolding read_realtime
  read_realtime-Shows-some w r h = ground (
    arith,
    sample-Shows-some (ensure_connection lib w).1.gateway.config.registers
        (ensure_connection lib w).1 r,
  )

  -- A read that yields none leaves the gateway shown as unhealthy, unless it made no attempt and left
  -- the health table as it was.
  read_realtime-Shows-none :
      (w : World E W)
      → (read_realtime lib w).0 ≡ none
      → ((read_realtime lib w).1.states ≡ w.states)
        ⊎ Shows false (lookup "sensor_gateway" (read_realtime lib w).1.states)
  unfolding read_realtime
  read_realtime-Shows-none w h = ground (
    arith,
    ensure-Shows-false w,
    sample-Shows-none (ensure_connection lib w).1.gateway.config.registers
        (ensure_connection lib w).1,
  )

overwrite_whole : (n : ℕ) (vs : List ℕ) → length vs ≡ n → overwrite (replicate n 0) vs ≡ vs
unfolding overwrite
overwrite_whole zero [] h = refl
overwrite_whole zero (v ∷ vs) h = absurd (omega arith)
overwrite_whole (suc n) [] h = absurd (omega arith)
overwrite_whole (suc n) (v ∷ vs) h = ap (λ t. v ∷ t) (overwrite_whole n vs (omega arith))

module _ {E W J : Type 0} (lib : Platform E W J) where
  open lib.real use {over_hundred, nought}

  -- What libmodbus answers to the read, with the world behind it.
  abbrev device_read : World E W → ℕ → Option (List ℕ) × E
  device_read w ctx =
      lib.modbus.read_registers ctx 0 w.gateway.config.registers (lib.clock.steady_now w.env).1

  sample_answers :
      (n : ℕ) (w : World E W) (ctx : ℕ) (vs : List ℕ)
      → w.gateway.modbus ≡ some ctx
      → (lib.modbus.read_registers ctx 0 n w.env).0 ≡ some vs
      → (sample lib n w).0
        ≡ some (
            reading_of lib
              (lib.clock.put_time
                (lib.clock.system_now (lib.modbus.read_registers ctx 0 n w.env).1).0)
              (overwrite (replicate n 0) vs))
  unfolding sample
  sample_answers n w ctx vs e answered = ground arith

  read_realtime_answers :
      (w : World E W) (ctx : ℕ) (vs : List ℕ)
      → w.gateway.modbus ≡ some ctx
      → (device_read w ctx).0 ≡ some vs
      → length vs ≡ w.gateway.config.registers
      → (read_realtime lib w).0
        ≡ some
            (reading_of lib (lib.clock.put_time (lib.clock.system_now (device_read w ctx).1).0) vs)
  unfolding read_realtime
  read_realtime_answers w ctx vs e answered whole =
      rw (ensure_connection-some lib w ctx e, read_realtime)
        (rw (overwrite_whole w.gateway.config.registers vs whole) at (
          sample_answers w.gateway.config.registers
            (record w { env = (lib.clock.steady_now w.env).1 }) ctx vs e answered))

  -- Where a connection is at hand and libmodbus delivers as many registers as are configured, six or
  -- more, the read yields a reading with the first six, each divided by 100: soil, gas, rain,
  -- temperature, humidity and light, in this order.
  pub read_realtime_values :
      (w : World E W) (ctx : ℕ) (vs : List ℕ)
      → w.gateway.modbus ≡ some ctx
      → (device_read w ctx).0 ≡ some vs
      → length vs ≡ w.gateway.config.registers
      → 6 ≤ w.gateway.config.registers
      → (read_realtime lib w).0
        ≡ some (record {
          label = "Realtime";
          timestamp = lib.clock.put_time (lib.clock.system_now (device_read w ctx).1).0;
          temperature = over_hundred (get_or vs 3 0);
          humidity = over_hundred (get_or vs 4 0);
          light = over_hundred (get_or vs 5 0);
          soil = over_hundred (get_or vs 0 0);
          gas = over_hundred (get_or vs 1 0);
          raindrop = over_hundred (get_or vs 2 0);
        })
  unfolding reading_of
  read_realtime_values w ctx vs e answered whole six =
      ground (arith, read_realtime_answers w ctx vs e answered whole)

  -- Where a connection is at hand, fewer than six registers are configured and libmodbus delivers
  -- as many, the read still yields a reading, and all its values are 0.0.
  pub read_realtime_short :
      (w : World E W) (ctx : ℕ) (vs : List ℕ)
      → w.gateway.modbus ≡ some ctx
      → (device_read w ctx).0 ≡ some vs
      → length vs ≡ w.gateway.config.registers
      → w.gateway.config.registers < 6
      → (read_realtime lib w).0
        ≡ some (record {
          label = "Realtime";
          timestamp = lib.clock.put_time (lib.clock.system_now (device_read w ctx).1).0;
          temperature = nought;
          humidity = nought;
          light = nought;
          soil = nought;
          gas = nought;
          raindrop = nought;
        })
  unfolding reading_of
  read_realtime_short w ctx vs e answered whole few =
      ground (arith, read_realtime_answers w ctx vs e answered whole)
