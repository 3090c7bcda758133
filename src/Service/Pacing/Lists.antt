-- ===== src/Service/Pacing/Lists.antt =====
-- infrastructure/cache/redis_client.hpp and redis_telemetry_cache.hpp: the time that their steps take.
use Prim.Native.String.{◌++◌ as ◌<>◌}
use aqua_regulator_server.Config.{RedisConfig}
use aqua_regulator_server.Base.{Bool, ltb, ◌-◌, true, false, ℕ, String, refl, seconds, Bytes, arith}
use aqua_regulator_server.Base.Int.{ℤ, pos}
use aqua_regulator_server.Cache.Client
use aqua_regulator_server.Cache.Redis
use aqua_regulator_server.Platform.{Platform}
use aqua_regulator_server.Domain.{TelemetryChannel, reading_to_json, TelemetryReading}
use aqua_regulator_server.World.{Throwing}
use aqua_regulator_server.Service.Pacing.{IsForward, Forward, Later-IsPreorder, call-Forward}
use aqua_regulator_server.World.Keeps.{
  pure-Keeps, gets-Keeps, bind-Keeps, if-Keeps, bind_throwing-Keeps, try-Keeps, lift-Keeps,
}
use aqua_regulator_server.Service.Pacing.Device.{tick-Forward, update-Forward}

module _ {E W J : Type 0} (lib : Platform E W J) (time : E → ℕ) (f : IsForward lib time) where
  set_connected-Forward : (b : Bool) → Forward time (Client.set_connected lib b)
  unfolding Client.set_connected
  set_connected-Forward b = record { later = λ w. (omega arith, refl) }

  redis_failure-Forward : (what : String) → Forward time (Client.handle_failure lib what)
  unfolding Client.handle_failure
  redis_failure-Forward what = (update-Forward lib time f) "redis_client" false what

  still_alive-Forward : (b : Bool) → Forward time (Client.still_alive lib b)
  unfolding Client.still_alive
  still_alive-Forward true =
      (try-Keeps (Later-IsPreorder time))
        ((bind_throwing-Keeps (Later-IsPreorder time)) (call-Forward lib.redis.ping f.redis_ping)
          λ _. lift-Keeps ((pure-Keeps (Later-IsPreorder time)) true))
        λ _.
          (bind-Keeps (Later-IsPreorder time)) (set_connected-Forward false)
            λ _. (pure-Keeps (Later-IsPreorder time)) false
  still_alive-Forward false = (pure-Keeps (Later-IsPreorder time)) false

  open_redis-Forward : (c : RedisConfig) → Forward time (Client.open_connection lib c)
  unfolding Client.open_connection
  open_redis-Forward c =
      (bind_throwing-Keeps (Later-IsPreorder time))
        (call-Forward
          (lib.redis.create c.host c.port c.password c.database c.timeout_ms c.pool_size)
          (f.redis_create c.host c.port c.password c.database c.timeout_ms c.pool_size))
        λ _.
          (bind_throwing-Keeps (Later-IsPreorder time)) (lift-Keeps (set_connected-Forward true))
            λ _.
              (bind_throwing-Keeps (Later-IsPreorder time))
                (call-Forward lib.redis.ping f.redis_ping)
                λ _. lift-Keeps (
                  (bind-Keeps (Later-IsPreorder time))
                    ((update-Forward lib time f) "redis_client" true "Redis connected")
                    λ _. (pure-Keeps (Later-IsPreorder time)) true)

  redis_error-Forward : (what : String) → Forward time (Client.connection_error lib what)
  unfolding Client.connection_error
  redis_error-Forward what = (bind-Keeps (Later-IsPreorder time)) (set_connected-Forward false) λ _.
      (bind-Keeps (Later-IsPreorder time)) (redis_failure-Forward ("Connection error: " <> what))
        λ _. (pure-Keeps (Later-IsPreorder time)) false

  redis_attempt-Forward : (now : ℕ) → Forward time (Client.set_last_attempt lib now)
  unfolding Client.set_last_attempt
  redis_attempt-Forward now = record { later = λ w. (omega arith, refl) }

  retry-Forward : (now : ℕ) → Forward time (Client.retry lib now)
  unfolding Client.retry
  retry-Forward now =
      (bind-Keeps (Later-IsPreorder time))
        ((gets-Keeps (Later-IsPreorder time)) (λ w. w.redis_client.last_attempt))
        λ last.
          (bind-Keeps (Later-IsPreorder time))
            ((gets-Keeps (Later-IsPreorder time)) (λ w. w.redis_client.config))
            λ config.
              if-Keeps (ltb (now - last) (seconds 5)) ((pure-Keeps (Later-IsPreorder time)) false) (
                (bind-Keeps (Later-IsPreorder time)) (redis_attempt-Forward now) λ _.
                  (try-Keeps (Later-IsPreorder time)) (open_redis-Forward config)
                    redis_error-Forward)

  redis_connection-Forward : Forward time (Client.ensure_connection lib)
  unfolding Client.ensure_connection
  redis_connection-Forward = (bind-Keeps (Later-IsPreorder time)) (tick-Forward lib time f) λ now.
      (bind-Keeps (Later-IsPreorder time))
        ((gets-Keeps (Later-IsPreorder time)) (λ w. w.redis_client.connected))
        λ connected.
          (bind-Keeps (Later-IsPreorder time)) (still_alive-Forward connected)
            λ alive. if-Keeps alive ((pure-Keeps (Later-IsPreorder time)) true) (retry-Forward now)

  guarded-Forward :
      {A : Type 0} (prefix : String) (fallback : A) {body : Throwing E W A}
      → Forward time body
      → Forward time (Client.guarded lib prefix fallback body)
  unfolding Client.guarded
  guarded-Forward prefix fallback h =
      (bind-Keeps (Later-IsPreorder time)) redis_connection-Forward λ connected.
        if-Keeps connected
          ((try-Keeps (Later-IsPreorder time)) h λ what.
            (bind-Keeps (Later-IsPreorder time)) (redis_failure-Forward (prefix <> what))
              λ _. (pure-Keeps (Later-IsPreorder time)) fallback)
          ((pure-Keeps (Later-IsPreorder time)) fallback)

  lpush-Forward : (key : String) (value : Bytes) → Forward time (Client.lpush lib key value)
  unfolding Client.lpush
  lpush-Forward key value = guarded-Forward "LPUSH failed: " false (
      (bind_throwing-Keeps (Later-IsPreorder time))
        (call-Forward (lib.redis.lpush key value) (f.lpush key value))
        λ _. lift-Keeps (
          (bind-Keeps (Later-IsPreorder time))
            ((update-Forward lib time f) "redis_client" true "LPUSH operation successful")
            λ _. (pure-Keeps (Later-IsPreorder time)) true))

  ltrim-Forward : (key : String) (a b : ℤ) → Forward time (Client.ltrim lib key a b)
  unfolding Client.ltrim
  ltrim-Forward key a b = guarded-Forward "LTRIM failed: " false (
      (bind_throwing-Keeps (Later-IsPreorder time))
        (call-Forward (lib.redis.ltrim key a b) (f.ltrim key a b))
        λ _. lift-Keeps ((pure-Keeps (Later-IsPreorder time)) true))

  expire-Forward : (key : String) (n : ℕ) → Forward time (Client.expire lib key n)
  unfolding Client.expire
  expire-Forward key n = guarded-Forward "EXPIRE failed: " false (
      (bind_throwing-Keeps (Later-IsPreorder time))
        (call-Forward (lib.redis.expire key n) (f.expire key n))
        λ _. lift-Keeps ((pure-Keeps (Later-IsPreorder time)) true))

  pub store-Forward :
      (n : ℕ) (c : TelemetryChannel) (r : TelemetryReading W) → Forward time (Redis.store lib n c r)
  unfolding Redis.store
  store-Forward n c r =
      (bind-Keeps (Later-IsPreorder time))
        (lpush-Forward (Redis.build_key c) (lib.json.dump (reading_to_json lib.json r)))
        λ pushed.
          if-Keeps pushed
            ((bind-Keeps (Later-IsPreorder time))
              (ltrim-Forward (Redis.build_key c) (pos 0) (Redis.last_index n))
              λ trimmed.
                (bind-Keeps (Later-IsPreorder time)) (expire-Forward (Redis.build_key c) 3600)
                  λ kept. (pure-Keeps (Later-IsPreorder time)) tt)
            ((pure-Keeps (Later-IsPreorder time)) tt)
