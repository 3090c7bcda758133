-- ===== src/Sensors.antt =====
-- infrastructure/sensors/modbus_tcp.hpp and sensor_data.hpp.
pub mod Connection
pub mod Health
use Prim.Native.String.{◌++◌ as ◌<>◌}
use aqua_regulator_server.Base.{
  ℕ, ◌+◌, ◌-◌, take, String, Bool, true, false, Option, none, some, List, [], ◌∷◌, ok, err, ltb,
  leb, length, get_or, replicate, seconds, if◌then◌else◌,
}
use aqua_regulator_server.Platform.{Platform}
use aqua_regulator_server.Config.{SensorConfig}
use aqua_regulator_server.Domain.{TelemetryReading, blank_reading}
use aqua_regulator_server.Monitor.{update}
use aqua_regulator_server.World.{
  Gateway, Call, write, Action, Throwing, pure, throw, call, gets, lift, try, modify, record_call,
  bind, bind_throwing, for_each, ◌>>=◌, ◌>>◌,
}

-- What a read leaves in the caller's buffer: the values that came, then what was there.
unfoldable pub overwrite : List ℕ → List ℕ → List ℕ
overwrite [] values = []
overwrite (x ∷ xs) [] = x ∷ xs
overwrite (x ∷ xs) (v ∷ values) = v ∷ overwrite xs values

-- The values of one request, the first of them for the register `addr`.
unfoldable pub writes : ℕ → ℕ → List ℕ → List Call
writes ctx addr [] = []
writes ctx addr (v ∷ values) = write ctx addr v ∷ writes ctx (addr + 1) values

module _ {E W J : Type 0} (lib : Platform E W J) where
  open lib use {clock, real, modbus}

  -- throw std::runtime_error(prefix + modbus_strerror(errno))
  unfoldable pub throw_errno : {A : Type 0} → String → Throwing E W A
  throw_errno prefix w = (err (prefix <> modbus.strerror w.env), w)

  -- `ModbusTCP::ModbusTCP`
  unfoldable pub new_modbus : String → ℕ → Throwing E W ℕ
  new_modbus ip_address port = do
    ctx ← call (modbus.new_tcp ip_address port)
    elim ctx [ none ↦ throw "Failed to create Modbus context" | some c ↦ lift (pure c) ]

  -- `ModbusTCP::~ModbusTCP`
  unfoldable pub delete_modbus : ℕ → Action E W (Unit {0})
  delete_modbus ctx = modify (λ w. record w { env = modbus.free ctx (modbus.close ctx w.env) })

  -- `ModbusTCP::connect`
  unfoldable pub connect : ℕ → Throwing E W (Unit {0})
  unfolding throw_errno
  connect ctx = do
    connected ← call (modbus.connect ctx)
    if connected then lift (pure tt) else throw_errno "Connection failed: "

  -- `ModbusTCP::readRegisters` into the buffer `dest`.
  unfoldable pub read_registers : ℕ → ℕ → ℕ → List ℕ → Throwing E W (List ℕ)
  unfolding throw_errno overwrite
  read_registers ctx addr nb dest = do
    values ← call (modbus.read_registers ctx addr nb)
    elim values [ none ↦ throw_errno "Read failed: " | some vs ↦ lift (pure (overwrite dest vs)) ]

  -- `ModbusTCP::writeRegister`
  unfoldable pub modbus_write : ℕ → ℕ → ℕ → Throwing E W (Unit {0})
  unfolding throw_errno
  modbus_write ctx reg_addr value = do
    record_call (write ctx reg_addr value)
    written ← call (modbus.write_register ctx reg_addr value)
    if written then lift (pure tt) else throw_errno "Write failed: "

  -- `ModbusTCP::writeRegisters` of the `nb` first values, one request, which nothing in the server sends.
  unfoldable pub write_registers : ℕ → ℕ → ℕ → List ℕ → Throwing E W (Unit {0})
  unfolding throw_errno writes
  write_registers ctx addr nb values = do
    for_each record_call (writes ctx addr (take nb values))
    written ← call (modbus.write_registers ctx addr (take nb values))
    if written then lift (pure tt) else throw_errno "Write multiple registers failed: "

  -- `handleFailure`
  unfoldable pub handle_failure : String → Action E W (Unit {0})
  unfolding update
  handle_failure reason = update lib "sensor_gateway" false reason

  -- `modbus_ = p`, and `modbus_.reset()`, which destroys what it pointed to.
  unfoldable pub set_modbus : Option ℕ → Action E W (Unit {0})
  set_modbus p = modify (λ w. record w { gateway = record (w.gateway) { modbus = p } })

  unfoldable pub reset_modbus : Action E W (Unit {0})
  unfolding delete_modbus set_modbus
  reset_modbus w = elim w.gateway.modbus [
    | none ↦ (tt, w)
    | some ctx ↦ (do delete_modbus ctx; set_modbus none) w
  ]

  -- The `try` block of `ensureConnection`.
  unfoldable pub open_connection : SensorConfig → Throwing E W Bool
  unfolding new_modbus set_modbus connect update
  open_connection config = bind_throwing (new_modbus config.endpoint config.port) λ ctx.
      bind_throwing (lift (set_modbus (some ctx))) λ _.
        bind_throwing (connect ctx)
          λ _. lift (do update lib "sensor_gateway" true "Modbus connected"; pure true)

  -- Its `catch` block.
  unfoldable pub connection_error : String → Action E W Bool
  unfolding reset_modbus handle_failure
  connection_error what = do reset_modbus; handle_failure ("Connection error: " <> what); pure false

  unfoldable pub set_last_attempt : ℕ → Action E W (Unit {0})
  set_last_attempt now =
      modify (λ w. record w { gateway = record (w.gateway) { last_attempt = now } })

  -- `ensureConnection` behind its first test. The steady clock never runs backwards, so
  -- `now - lastAttempt_` is not negative.
  unfoldable pub reconnect : ℕ → Gateway → Action E W Bool
  unfolding set_last_attempt open_connection connection_error
  reconnect now g =
      if ltb (now - g.last_attempt) (seconds g.config.retry_seconds)
      then pure false
      else (do set_last_attempt now; try (open_connection g.config) connection_error)

  unfoldable pub ensure_connection : Action E W Bool
  ensure_connection = do
    now ← call clock.steady_now
    g ← gets (λ w. w.gateway)
    elim g.modbus [ some ctx ↦ pure true | none ↦ reconnect now g ]

  -- `*modbus_`. Both callers have a connection there, so the null pointer is not met.
  unfoldable pub the_modbus : Throwing E W ℕ
  the_modbus w = elim w.gateway.modbus [ none ↦ (err "null", w) | some ctx ↦ (ok ctx, w) ]

  -- `currentTimestamp`
  unfoldable pub current_timestamp : Action E W String
  current_timestamp = do now ← call clock.system_now; pure (clock.put_time now)

  -- A reading from the registers: hundredths in the first six, if there are that many.
  unfoldable pub reading_of : String → List ℕ → TelemetryReading W
  reading_of timestamp registers =
      let blank : TelemetryReading W = record (blank_reading real) {
        label = "Realtime";
        timestamp = timestamp;
      } in
      if leb 6 (length registers)
      then record blank {
        soil = real.over_hundred (get_or registers 0 0);
        gas = real.over_hundred (get_or registers 1 0);
        raindrop = real.over_hundred (get_or registers 2 0);
        temperature = real.over_hundred (get_or registers 3 0);
        humidity = real.over_hundred (get_or registers 4 0);
        light = real.over_hundred (get_or registers 5 0);
      }
      else blank

  -- `readRealtime` once there is a connection.
  unfoldable pub sample : ℕ → Action E W (Option (TelemetryReading W))
  unfolding the_modbus read_registers handle_failure current_timestamp update
  sample count =
      bind
        (try
          (bind_throwing
            (bind_throwing the_modbus λ ctx. read_registers ctx 0 count (replicate count 0))
            λ registers. lift (pure (some registers)))
          (λ what. do handle_failure ("readRegisters failed: " <> what); pure none))
        λ read. elim read [
          | none ↦ pure none
          | some registers ↦ (do
            timestamp ← current_timestamp
            update lib "sensor_gateway" true "Realtime sample collected"
            pure (some (reading_of timestamp registers)))
        ]

  -- `SensorGateway::readRealtime`
  unfoldable pub read_realtime : Action E W (Option (TelemetryReading W))
  read_realtime = do
    connected ← ensure_connection
    count ← gets (λ w. w.gateway.config.registers)
    if connected then sample count else pure none

  -- `SensorGateway::writeRegister` once there is a connection, and whole.
  unfoldable pub write_connected : ℕ → ℕ → Action E W (Unit {0})
  unfolding the_modbus modbus_write handle_failure update
  write_connected address value =
      try
        (bind_throwing (bind_throwing the_modbus λ ctx. modbus_write ctx address value)
          λ _. lift (update lib "sensor_gateway" true "Register write successful"))
        (λ what. handle_failure ("writeRegister failed: " <> what))

  unfoldable pub write_register : ℕ → ℕ → Action E W (Unit {0})
  write_register address value = do
    connected ← ensure_connection
    if connected then write_connected address value else pure tt

  -- `disconnect`, which the destructor calls.
  unfoldable pub disconnect : Action E W (Unit {0})
  disconnect = reset_modbus
