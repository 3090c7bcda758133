-- ===== src/Cache/Client.antt =====
-- infrastructure/cache/redis_client.hpp: `RedisClient`.
use Prim.Native.String.{◌++◌ as ◌<>◌}
use aqua_regulator_server.Base.{
  ℕ, ◌-◌, String, Bool, true, false, Option, none, some, List, [], Bytes, ltb, seconds,
  if◌then◌else◌,
}
use aqua_regulator_server.Base.Int.{ℤ}
use aqua_regulator_server.Config.{RedisConfig}
use aqua_regulator_server.Monitor.{update}
use aqua_regulator_server.Platform.{Platform}
use aqua_regulator_server.World.{
  World, Action, Throwing, pure, call, gets, lift, try, modify, bind, bind_throwing, ◌>>=◌, ◌>>◌,
}

module _ {E W J : Type 0} (lib : Platform E W J) where
  open lib use {clock, redis}

  unfoldable pub handle_failure : String → Action E W (Unit {0})
  unfolding update
  handle_failure reason = update lib "redis_client" false reason

  -- `redis_ = make_unique(…)` and `redis_.reset()`
  unfoldable pub set_connected : Bool → Action E W (Unit {0})
  set_connected b =
      modify (λ w. record w { redis_client = record (w.redis_client) { connected = b } })

  unfoldable pub set_last_attempt : ℕ → Action E W (Unit {0})
  set_last_attempt now =
      modify (λ w. record w { redis_client = record (w.redis_client) { last_attempt = now } })

  -- The first `try` of `ensureConnection`: an existing connection is pinged, and dropped if it fails.
  unfoldable pub still_alive : Bool → Action E W Bool
  unfolding set_connected
  still_alive true =
      try (bind_throwing (call redis.ping) λ _. lift (pure true))
        λ _. bind (set_connected false) λ _. pure false
  still_alive false = pure false

  -- The second: a new connection, and a ping.
  unfoldable pub open_connection : RedisConfig → Throwing E W Bool
  unfolding set_connected update
  open_connection c =
      bind_throwing
        (call (redis.create c.host c.port c.password c.database c.timeout_ms c.pool_size))
        λ _. bind_throwing (lift (set_connected true)) λ _.
          bind_throwing (call redis.ping)
            λ _. lift (do update lib "redis_client" true "Redis connected"; pure true)

  unfoldable pub connection_error : String → Action E W Bool
  unfolding set_connected handle_failure
  connection_error what = do
    set_connected false
    handle_failure ("Connection error: " <> what)
    pure false

  unfoldable pub retry : ℕ → Action E W Bool
  unfolding set_last_attempt open_connection connection_error
  retry now = do
    last ← gets (λ w. w.redis_client.last_attempt)
    config ← gets (λ w. w.redis_client.config)
    if ltb (now - last) (seconds 5)
        then pure false
        else (do set_last_attempt now; try (open_connection config) connection_error)

  unfoldable pub ensure_connection : Action E W Bool
  ensure_connection = do
    now ← call clock.steady_now
    connected ← gets (λ w. w.redis_client.connected)
    alive ← still_alive connected
    if alive then pure true else retry now

  unfoldable pub initialize : Action E W Bool
  initialize = do
    enabled ← gets (λ w. w.redis_client.config.enabled)
    if enabled then ensure_connection else pure false

  -- The frame that the commands below share: connect, run, and on a throw report and fall back.
  unfoldable pub guarded : {A : Type 0} → String → A → Throwing E W A → Action E W A
  unfolding handle_failure
  guarded prefix fallback body = do
    connected ← ensure_connection
    if connected
        then try body (λ what. bind (handle_failure (prefix <> what)) λ _. pure fallback)
        else pure fallback

  unfoldable pub set : String → Bytes → ℕ → Action E W Bool
  set key value ttl = guarded "SET failed: " false (
      bind_throwing (call (if ltb 0 ttl then redis.setex key ttl value else redis.set key value))
        λ _. lift (do update lib "redis_client" true "SET operation successful"; pure true))

  unfoldable pub get : String → Action E W (Option Bytes)
  get key = guarded "GET failed: " none (
      bind_throwing (call (redis.get key)) λ val. elim val [
        | none ↦ lift (pure none)
        | some v ↦
            lift (do update lib "redis_client" true "GET operation successful"; pure (some v))
      ])

  unfoldable pub lpush : String → Bytes → Action E W Bool
  lpush key value = guarded "LPUSH failed: " false (
      bind_throwing (call (redis.lpush key value))
        λ _. lift (do update lib "redis_client" true "LPUSH operation successful"; pure true))

  unfoldable pub ltrim : String → ℤ → ℤ → Action E W Bool
  ltrim key start stop =
      guarded "LTRIM failed: " false
        (bind_throwing (call (redis.ltrim key start stop)) λ _. lift (pure true))

  unfoldable pub lrange : String → ℤ → ℤ → Action E W (List Bytes)
  lrange key start stop = guarded "LRANGE failed: " [] (
      bind_throwing (call (redis.lrange key start stop)) λ result.
        lift (do update lib "redis_client" true "LRANGE operation successful"; pure result))

  unfoldable pub expire : String → ℕ → Action E W Bool
  expire key ttl =
      guarded "EXPIRE failed: " false
        (bind_throwing (call (redis.expire key ttl)) λ _. lift (pure true))

  unfoldable pub publish : String → Bytes → Action E W Bool
  publish channel message = guarded "PUBLISH failed: " false (
      bind_throwing (call (redis.publish channel message))
        λ _. lift (do update lib "redis_client" true "PUBLISH operation successful"; pure true))

  unfoldable pub is_connected : World E W → Bool
  is_connected w = w.redis_client.connected

  unfoldable pub disconnect : Action E W (Unit {0})
  disconnect = set_connected false
