-- ===== src/Service/Pacing/Device.antt =====
-- infrastructure/sensors/sensor_data.hpp, and what the publisher sends: the time that its steps take.
use Prim.Native.String.{◌++◌ as ◌<>◌}
use aqua_regulator_server.Config.{SensorConfig}
use aqua_regulator_server.Base.{
  Bool, replicate, ltb, ◌-◌, true, false, Option, some, none, err, Option-cases, inl, inr, ℕ,
  String, refl, List, ok, seconds, arith,
}
use aqua_regulator_server.Sensors
use aqua_regulator_server.Monitor.{update}
use aqua_regulator_server.Platform.{Platform}
use aqua_regulator_server.Domain.{TelemetryFrame}
use aqua_regulator_server.Publisher.{publish}
use aqua_regulator_server.Publisher.Delivery.{frame_packet, broadcast_lem}
use aqua_regulator_server.World.{Gateway, call}
use aqua_regulator_server.Service.Pacing.{IsForward, Forward, Later-IsPreorder, call-Forward}
use aqua_regulator_server.World.Keeps.{
  pure-Keeps, gets-Keeps, bind-Keeps, if-Keeps, option-Keeps, bind_throwing-Keeps, try-Keeps,
  lift-Keeps,
}

module _ {E W J : Type 0} (lib : Platform E W J) (time : E → ℕ) (f : IsForward lib time) where
  pub update-Forward :
      (c : String) (b : Bool) (d : String) → Forward {W = W} time (update lib c b d)
  unfolding update
  update-Forward c b d = record { later = λ w. (f.system w.env, refl) }

  pub tick-Forward : Forward {W = W} time (call lib.clock.steady_now)
  tick-Forward = call-Forward lib.clock.steady_now (λ e. omega (arith, f.reads e, f.read e))

  set_modbus-Forward : (o : Option ℕ) → Forward time (Sensors.set_modbus lib o)
  unfolding Sensors.set_modbus
  set_modbus-Forward o = record { later = λ w. (omega arith, refl) }

  reset-Forward : Forward time (Sensors.reset_modbus lib)
  unfolding Sensors.reset_modbus Sensors.delete_modbus Sensors.set_modbus
  reset-Forward = record {
    later = λ w. elim (Option-cases w.gateway.modbus) [
      | inl e ↦ rw (Sensors.reset_modbus, e) (omega arith, refl)
      | inr (c, e) ↦
          rw (Sensors.reset_modbus, e)
            (omega (arith, f.close c w.env, f.free c (lib.modbus.close c w.env)), refl)
    ];
  }

  handle-Forward : (what : String) → Forward time (Sensors.handle_failure lib what)
  unfolding Sensors.handle_failure
  handle-Forward what = update-Forward "sensor_gateway" false what

  connection_error-Forward : (what : String) → Forward time (Sensors.connection_error lib what)
  unfolding Sensors.connection_error
  connection_error-Forward what = (bind-Keeps (Later-IsPreorder time)) reset-Forward λ _.
      (bind-Keeps (Later-IsPreorder time)) (handle-Forward ("Connection error: " <> what))
        λ _. (pure-Keeps (Later-IsPreorder time)) false

  throw_errno-Forward :
      {A : Type 0} (prefix : String) → Forward time (Sensors.throw_errno lib {A = A} prefix)
  unfolding Sensors.throw_errno
  throw_errno-Forward prefix = record { later = λ w. (omega arith, refl) }

  new_modbus-Forward :
      (ip : String) (port : ℕ) → Forward {W = W} time (Sensors.new_modbus lib ip port)
  unfolding Sensors.new_modbus
  new_modbus-Forward ip port =
      (bind-Keeps (Later-IsPreorder time))
        (call-Forward (lib.modbus.new_tcp ip port) (f.new_tcp ip port))
        (λ ctx.
          option-Keeps ctx
            ((pure-Keeps (Later-IsPreorder time)) (err "Failed to create Modbus context"))
            (λ c. (pure-Keeps (Later-IsPreorder time)) (ok c)))

  connect-Forward : (c : ℕ) → Forward {W = W} time (Sensors.connect lib c)
  unfolding Sensors.connect
  connect-Forward c =
      (bind-Keeps (Later-IsPreorder time)) (call-Forward (lib.modbus.connect c) (f.connect c))
        (λ connected.
          if-Keeps connected ((pure-Keeps (Later-IsPreorder time)) (ok tt))
            (throw_errno-Forward "Connection failed: "))

  open_connection-Forward : (c : SensorConfig) → Forward time (Sensors.open_connection lib c)
  unfolding Sensors.open_connection
  open_connection-Forward c =
      (bind_throwing-Keeps (Later-IsPreorder time)) (new_modbus-Forward c.endpoint c.port) λ ctx.
        (bind_throwing-Keeps (Later-IsPreorder time)) (lift-Keeps (set_modbus-Forward (some ctx)))
          λ _. (bind_throwing-Keeps (Later-IsPreorder time)) (connect-Forward ctx) λ _. lift-Keeps (
            (bind-Keeps (Later-IsPreorder time))
              (update-Forward "sensor_gateway" true "Modbus connected")
              λ _. (pure-Keeps (Later-IsPreorder time)) true)

  last_attempt-Forward : (now : ℕ) → Forward time (Sensors.set_last_attempt lib now)
  unfolding Sensors.set_last_attempt
  last_attempt-Forward now = record { later = λ w. (omega arith, refl) }

  reconnect-Forward : (now : ℕ) (g : Gateway) → Forward time (Sensors.reconnect lib now g)
  unfolding Sensors.reconnect
  reconnect-Forward now g =
      if-Keeps (ltb (now - g.last_attempt) (seconds g.config.retry_seconds))
        ((pure-Keeps (Later-IsPreorder time)) false)
        ((bind-Keeps (Later-IsPreorder time)) (last_attempt-Forward now) λ _.
          (try-Keeps (Later-IsPreorder time)) (open_connection-Forward g.config)
            connection_error-Forward)

  ensure_connection-Forward : Forward time (Sensors.ensure_connection lib)
  unfolding Sensors.ensure_connection
  ensure_connection-Forward = (bind-Keeps (Later-IsPreorder time)) tick-Forward λ now.
      (bind-Keeps (Later-IsPreorder time)) ((gets-Keeps (Later-IsPreorder time)) (λ w. w.gateway))
        λ g.
          option-Keeps g.modbus (reconnect-Forward now g)
            (λ c. (pure-Keeps (Later-IsPreorder time)) true)

  the_modbus-Forward : Forward time (Sensors.the_modbus lib)
  unfolding Sensors.the_modbus
  the_modbus-Forward = record {
    later = λ w. elim (Option-cases w.gateway.modbus) [
      | inl e ↦ rw (Sensors.the_modbus, e) (omega arith, refl)
      | inr (c, e) ↦ rw (Sensors.the_modbus, e) (omega arith, refl)
    ];
  }

  read_registers-Forward :
      (c a n : ℕ) (dest : List ℕ) → Forward {W = W} time (Sensors.read_registers lib c a n dest)
  unfolding Sensors.read_registers
  read_registers-Forward c a n dest =
      (bind-Keeps (Later-IsPreorder time))
        (call-Forward (lib.modbus.read_registers c a n) (f.read_registers c a n))
        (λ values.
          option-Keeps values (throw_errno-Forward "Read failed: ")
            (λ vs. (pure-Keeps (Later-IsPreorder time)) (ok (Sensors.overwrite dest vs))))

  timestamp-Forward : Forward {W = W} time (Sensors.current_timestamp lib)
  unfolding Sensors.current_timestamp
  timestamp-Forward =
      (bind-Keeps (Later-IsPreorder time)) (call-Forward lib.clock.system_now f.system)
        λ now. (pure-Keeps (Later-IsPreorder time)) (lib.clock.put_time now)

  sample-Forward : (count : ℕ) → Forward time (Sensors.sample lib count)
  unfolding Sensors.sample
  sample-Forward count =
      (bind-Keeps (Later-IsPreorder time))
        ((try-Keeps (Later-IsPreorder time))
          ((bind_throwing-Keeps (Later-IsPreorder time))
            ((bind_throwing-Keeps (Later-IsPreorder time)) the_modbus-Forward
              λ ctx. read_registers-Forward ctx 0 count (replicate count 0))
            λ registers. lift-Keeps ((pure-Keeps (Later-IsPreorder time)) (some registers)))
          (λ what.
            (bind-Keeps (Later-IsPreorder time)) (handle-Forward ("readRegisters failed: " <> what))
              λ _. (pure-Keeps (Later-IsPreorder time)) none))
        λ read. option-Keeps read ((pure-Keeps (Later-IsPreorder time)) none) λ registers.
          (bind-Keeps (Later-IsPreorder time)) timestamp-Forward λ timestamp.
            (bind-Keeps (Later-IsPreorder time))
              (update-Forward "sensor_gateway" true "Realtime sample collected")
              λ _.
                (pure-Keeps (Later-IsPreorder time))
                  (some (Sensors.reading_of lib timestamp registers))

  pub read_realtime-Forward : Forward time (Sensors.read_realtime lib)
  unfolding Sensors.read_realtime
  read_realtime-Forward =
      (bind-Keeps (Later-IsPreorder time)) ensure_connection-Forward λ connected.
        (bind-Keeps (Later-IsPreorder time))
          ((gets-Keeps (Later-IsPreorder time)) (λ w. w.gateway.config.registers))
          λ count.
            if-Keeps connected (sample-Forward count) ((pure-Keeps (Later-IsPreorder time)) none)

  pub publish-Forward : (frame : TelemetryFrame W) → Forward time (publish lib frame)
  unfolding publish update
  publish-Forward frame = record {
    later = λ w. ground (arith, broadcast_lem lib (frame_packet lib frame) w, f.system w.env);
  }
