-- ===== src/Router.antt =====
-- transport/sensor_data_settings.hpp: `DeviceCommandRouter`.
pub mod Framing
pub mod Commands
pub mod Touches
pub mod Confined
pub mod Writers
use aqua_regulator_server.Base.{
  ℕ, zero, suc, ◌+◌, String, Bool, true, false, Option, none, some, [], ◌∷◌, ◌++◌, Bytes, codes,
  str_eq, length, take, drop, is_empty, not, ◌==◌, ltb, if◌then◌else◌,
}
use aqua_regulator_server.Base.Int.{ℤ, pos, negsuc, to_u16}
use aqua_regulator_server.Platform.{Platform}
use aqua_regulator_server.Monitor.{update}
use aqua_regulator_server.Sensors.{write_register}
use aqua_regulator_server.World.{
  World, Action, Throwing, pure, lift, attempt, try, gets, modify, bind, bind_throwing,
}

-- The answers, as raw string literals in `parseLine`.
abbrev pub threshold_ok : Bytes
threshold_ok = codes "{\"status\":\"ok\",\"message\":\"threshold updated\"}"

abbrev pub light_control_ok : Bytes
light_control_ok = codes "{\"status\":\"ok\",\"message\":\"light control updated\"}"

abbrev pub mode_ok : Bytes
mode_ok = codes "{\"status\":\"ok\",\"message\":\"mode updated\"}"

abbrev pub reload_ok : Bytes
reload_ok = codes "{\"status\":\"ok\",\"message\":\"configuration reload requested\"}"

abbrev pub write_ok : Bytes
write_ok = codes "{\"status\":\"ok\",\"message\":\"register write queued\"}"

abbrev pub unknown_command : Bytes
unknown_command = codes "{\"status\":\"error\",\"message\":\"unknown command\"}"

abbrev pub invalid_payload : Bytes
invalid_payload = codes "{\"status\":\"error\",\"message\":\"invalid payload\"}"

-- `buffer.find(c)` and `npos`.
unfoldable pub find : ℕ → Bytes → Option ℕ
find c [] = none
find c (b ∷ bs) =
    let later = find c bs in
    if b == c then some 0 else elim later [ none ↦ none | some p ↦ some (suc p) ]

-- Chains of actions that may throw.
infixl 5 ◌>>=◌ ◌>>◌
abbrev ◌>>=◌ : {E W A B : Type 0} → Throwing E W A → (A → Throwing E W B) → Throwing E W B
m >>= f = bind_throwing m f

abbrev ◌>>◌ : {E W B : Type 0} → Throwing E W (Unit {0}) → Throwing E W B → Throwing E W B
m >> k = bind_throwing m λ _. k

module _ {E W J : Type 0} (lib : Platform E W J) where
  open lib use {json, real, server}

  -- `sensorGateway_.writeRegister(address, static_cast<uint16_t>(x * 100))`
  unfoldable pub write_scaled : ℕ → W → Throwing E W (Unit {0})
  write_scaled address x = lift (write_register lib address (real.cast_u16 (real.hundred_times x)))

  unfoldable pub handle_threshold : J → Throwing E W (Unit {0})
  handle_threshold msg = do
    soil ← attempt (json.value_double msg "soil" real.nought)
    rain ← attempt (json.value_double msg "rain" real.nought)
    temp ← attempt (json.value_double msg "temp" real.nought)
    light ← attempt (json.value_double msg "light" real.nought)
    write_scaled 10 soil
    write_scaled 11 rain
    write_scaled 12 temp
    write_scaled 13 light
    lift (update lib "command_router" true "threshold updated")

  unfoldable pub handle_light_control : J → Throwing E W (Unit {0})
  handle_light_control msg = do
    light ← attempt (json.value_double msg "light" real.nought)
    write_scaled 14 light
    lift (update lib "command_router" true "light control updated")

  unfoldable pub handle_mode_select : J → Throwing E W (Unit {0})
  handle_mode_select msg = do
    mode ← attempt (json.value_int msg "mode" (pos 0))
    lift (write_register lib 15 (to_u16 mode))
    lift (update lib "command_router" true "mode updated")

  -- `if (address >= 0)`
  unfoldable pub write_at : ℤ → ℤ → Throwing E W (Unit {0})
  write_at (pos a) value = lift (write_register lib (to_u16 (pos a)) (to_u16 value))
  write_at (negsuc a) value = lift (pure tt)

  unfoldable pub handle_direct_write : J → Throwing E W (Unit {0})
  handle_direct_write msg = do
    address ← attempt (json.value_int msg "address" (negsuc 0))
    value ← attempt (json.value_int msg "value" (pos 0))
    write_at address value

  -- `TelemetryPublisher::hasSubscribers`
  unfoldable pub has_subscribers : World E W → Bool
  has_subscribers w = ltb 0 (server.connection_count w.env)

  -- The diagnostics provider that main.cxx installs. It reads the configuration manager's current
  -- configuration.
  unfoldable pub diagnostics : World E W → J
  diagnostics w = json.object (
      ("telemetry", json.object (("subscribers", json.boolean (has_subscribers w)) ∷ []))
      ∷ (
        "pipeline",
        json.object (
            ("realtimeSeconds", json.natural w.manager.config.pipeline.realtime_interval_seconds)
            ∷ (
              "historicalSeconds",
              json.natural w.manager.config.pipeline.historical_interval_seconds,
            )
            ∷ []),
      )
      ∷ [])

  -- The reload callback that main.cxx installs.
  unfoldable pub request_reload : Action E W (Unit {0})
  request_reload = modify (λ w. record w { reload_requested = true })

  -- The chain of tests on `type`.
  unfoldable pub route : String → J → Throwing E W Bytes
  route type msg =
      if str_eq type "threshold"
      then (do handle_threshold msg; lift (pure threshold_ok))
      else if str_eq type "light_control"
      then (do handle_light_control msg; lift (pure light_control_ok))
      else if str_eq type "mode_select"
      then (do handle_mode_select msg; lift (pure mode_ok))
      else if str_eq type "diagnostics"
      then lift (gets (λ w. json.dump (diagnostics w)))
      else if str_eq type "config_reload"
      then (do lift request_reload; lift (pure reload_ok))
      else if str_eq type "write_register"
      then (do handle_direct_write msg; lift (pure write_ok))
      else lift (pure unknown_command)

  -- The `try` block of `parseLine`, its `catch` block, and the whole.
  unfoldable pub dispatch : Bytes → Throwing E W Bytes
  dispatch line = do
    msg ← attempt (json.parse line)
    type ← attempt (json.value_text msg "type" "")
    route type msg

  unfoldable pub reject : String → Action E W Bytes
  reject what = bind (update lib "command_router" false what) λ _. pure invalid_payload

  unfoldable pub parse_line : Bytes → Action E W Bytes
  parse_line line = try (dispatch line) reject

  -- The body of the loop in `feed`, behind the cut of one line.
  unfoldable pub answer : Option (Bytes → Action E W (Unit {0})) → Bytes → Action E W (Unit {0})
  answer respond line = bind (parse_line line) λ reply. elim respond [
    | none ↦ pure tt
    | some f ↦ if not (is_empty reply) then f reply else pure tt
  ]

  -- The loop of `feed`, on fuel. The buffer is written back when it ends: nothing reads it before.
  unfoldable pub drain : Option (Bytes → Action E W (Unit {0})) → ℕ → Bytes → Action E W Bytes
  drain respond zero buffer w = (buffer, w)
  drain respond (suc fuel) buffer w = elim (find 10 buffer) [
    | none ↦ (buffer, w)
    | some p ↦ drain respond fuel (drop (p + 1) buffer) (answer respond (take p buffer) w).1
  ]

-- The router's own state beside the world: `buffers_`, where a missing key is an empty string.
pub record Server (E W : Type 0) : Type 0 where
  pub world : World E W
  pub buffers : ℕ → Bytes

abbrev pub put : ℕ → Bytes → (ℕ → Bytes) → ℕ → Bytes
put id b buffers k = if k == id then b else buffers k

module _ {E W J : Type 0} (lib : Platform E W J) where
  -- `feed`. Each round drops at least the newline, so the fuel outlasts the buffer.
  unfoldable pub feed : Option (Bytes → Action E W (Unit {0})) → ℕ → Bytes → Server E W → Server E W
  feed respond id chunk s =
      let buffer = s.buffers id ++ chunk in
      let (rest, w) = drain lib respond (suc (length buffer)) buffer s.world in
      record { world = w; buffers = put id rest s.buffers }
