-- ===== src/Sensors/Connection.antt =====
-- infrastructure/sensors/sensor_data.hpp: when the gateway has a connection, when it tries for one, and
-- that it never gives one up.
use aqua_regulator_server.Base.{
  ℕ, ◌-◌, ◌≤◌, ◌<◌, ◌≡◌, refl, ap, ◌∙◌, ◌⊎◌, Bool, true, false, Option, none, some, List, [], ◌∷◌,
  seconds, arith,
}
use aqua_regulator_server.Platform.{Platform}
use aqua_regulator_server.World.{World, Gateway}
use aqua_regulator_server.Sensors.{
  reconnect, ensure_connection, sample, read_realtime, write_connected, write_register,
}

abbrev pub is_some : {A : Type 0} → Option A → Bool
is_some none = false
is_some (some a) = true

module _ {E W J : Type 0} (lib : Platform E W J) where
  -- `ensureConnection` returns true exactly when the gateway has a connection afterwards.
  pub ensure_connection-connected :
      (w : World E W)
      → (ensure_connection lib w).0 ≡ is_some (ensure_connection lib w).1.gateway.modbus
  unfolding ensure_connection reconnect
  ensure_connection-connected w = ground arith

  -- With a connection at hand, `ensureConnection` only reads the clock.
  pub ensure_connection-some :
      (w : World E W) (ctx : ℕ)
      → w.gateway.modbus ≡ some ctx
      → ensure_connection lib w ≡ (true, record w { env = (lib.clock.steady_now w.env).1 })
  unfolding ensure_connection
  ensure_connection-some w ctx e = rw (e, ensure_connection)

  -- A call of `ensureConnection` either does nothing but read the clock, or it finds no connection and
  -- at least `retrySeconds` gone since the last attempt, and notes the time of this one. So two attempts
  -- to connect are never closer than `retrySeconds`.
  pub attempts_spaced :
      (w : World E W)
      → let now = (lib.clock.steady_now w.env).0 in
        let w' = (ensure_connection lib w).1 in
        (w' ≡ record w { env = (lib.clock.steady_now w.env).1 })
        ⊎ ((w.gateway.modbus ≡ none)
            × (seconds w.gateway.config.retry_seconds ≤ now - w.gateway.last_attempt)
            × (w'.gateway.last_attempt ≡ now))
  unfolding ensure_connection reconnect
  attempts_spaced w = ground arith

  -- Within `retrySeconds` of the last attempt a gateway without a connection reads the clock, reports
  -- no connection, and does nothing else: no libmodbus call, no health update, no device write.
  pub ensure_connection_throttled :
      (w : World E W)
      → w.gateway.modbus ≡ none
      → (lib.clock.steady_now w.env).0 - w.gateway.last_attempt
        < seconds w.gateway.config.retry_seconds
      → ensure_connection lib w ≡ (false, record w { env = (lib.clock.steady_now w.env).1 })
  unfolding ensure_connection reconnect
  ensure_connection_throttled w e h = ground arith

  sample-gateway : (n : ℕ) (w : World E W) → (sample lib n w).1.gateway ≡ w.gateway
  unfolding sample
  sample-gateway n w = ground arith

  pub write_connected-gateway :
      (address value : ℕ) (w : World E W)
      → (write_connected lib address value w).1.gateway ≡ w.gateway
  unfolding write_connected
  write_connected-gateway address value w = ground arith

  read_realtime-gateway :
      (w : World E W) (ctx : ℕ)
      → w.gateway.modbus ≡ some ctx
      → (read_realtime lib w).1.gateway ≡ w.gateway
  unfolding read_realtime
  read_realtime-gateway w ctx e =
      rw (ensure_connection-some w ctx e, read_realtime) (sample-gateway _ _)

  write_register-gateway :
      (address value : ℕ) (w : World E W) (ctx : ℕ)
      → w.gateway.modbus ≡ some ctx
      → (write_register lib address value w).1.gateway ≡ w.gateway
  unfolding write_register
  write_register-gateway address value w ctx e =
      rw (ensure_connection-some w ctx e, write_register) (write_connected-gateway address value _)

-- The gateway's two public operations, and a run of them.
pub data Request : Type 0 where
  read : Request
  write : ℕ → ℕ → Request

module _ {E W J : Type 0} (lib : Platform E W J) where
  pub serve : Request → World E W → World E W
  serve read w = (read_realtime lib w).1
  serve (write address value) w = (write_register lib address value w).1

  pub serve_all : List Request → World E W → World E W
  serve_all [] w = w
  serve_all (r ∷ rs) w = serve_all rs (serve r w)

  serve-gateway :
      (r : Request) (w : World E W) (ctx : ℕ)
      → w.gateway.modbus ≡ some ctx
      → (serve r w).gateway ≡ w.gateway
  unfolding serve
  serve-gateway read w ctx e = read_realtime-gateway lib w ctx e
  serve-gateway (write address value) w ctx e = write_register-gateway lib address value w ctx e

  -- Once the gateway has a connection, no run of reads and writes, failing or not, ever replaces it,
  -- resets it or notes another attempt: `modbus_` and `lastAttempt_` stay what they are.
  pub connection_kept :
      (rs : List Request) (w : World E W) (ctx : ℕ)
      → w.gateway.modbus ≡ some ctx
      → (serve_all rs w).gateway ≡ w.gateway
  unfolding serve_all
  connection_kept [] w ctx e = refl
  connection_kept (r ∷ rs) w ctx e =
      let one = serve-gateway r w ctx e in connection_kept rs (serve r w) ctx (rw one e) ∙ one

  sample_dead :
      (n : ℕ) (w : World E W) (ctx : ℕ)
      → w.gateway.modbus ≡ some ctx
      → (lib.modbus.read_registers ctx 0 n w.env).0 ≡ none
      → (sample lib n w).0 ≡ none
  unfolding sample
  sample_dead n w ctx e dead = ground arith

  -- Where the gateway has a connection and libmodbus fails every read of it, a read yields no
  -- reading, after any run of reads and writes.
  pub broken_connection_kept :
      (rs : List Request) (w : World E W) (ctx : ℕ)
      → w.gateway.modbus ≡ some ctx
      → ((n : ℕ) (e : E) → (lib.modbus.read_registers ctx 0 n e).0 ≡ none)
      → (read_realtime lib (serve_all rs w)).0 ≡ none
  unfolding read_realtime
  broken_connection_kept rs w ctx e dead =
      let kept = ap (λ (g : Gateway). g.modbus) (connection_kept rs w ctx e) ∙ e in
      rw (ensure_connection-some lib (serve_all rs w) ctx kept, read_realtime)
        (sample_dead _ _ ctx kept (dead _ _))
