-- ===== src/Cache/Attempts.antt =====
-- infrastructure/cache/redis_client.hpp, `ensureConnection`: when the client connects.
use aqua_regulator_server.Base.{◌-◌, ◌≤◌, ◌≡◌, ◌⊎◌, seconds, arith}
use aqua_regulator_server.Cache.Client.{
  ensure_connection, retry, still_alive, open_connection, connection_error, handle_failure,
  set_connected, set_last_attempt, is_connected,
}
use aqua_regulator_server.Monitor.{update}
use aqua_regulator_server.Platform.{Platform}
use aqua_regulator_server.World.{World}

module _ {E W J : Type 0} (lib : Platform E W J) where
  -- The Redis client's `ensureConnection` returns true exactly when the client has a connection
  -- afterwards.
  ensure_connection-is_connected :
      (w : World E W) → (ensure_connection lib w).0 ≡ is_connected lib (ensure_connection lib w).1
  unfolding ensure_connection retry still_alive open_connection connection_error handle_failure
      set_connected set_last_attempt is_connected update
  ensure_connection-is_connected w = ground arith

  -- The Redis client's attempts to connect are spaced: a call either leaves `lastAttempt_` alone, or it
  -- comes at least five seconds behind the last attempt and notes the time of this one.
  redis_attempts_spaced :
      (w : World E W)
      → let w' = (ensure_connection lib w).1 in
        (w'.redis_client.last_attempt ≡ w.redis_client.last_attempt)
        ⊎ ((w'.redis_client.last_attempt ≡ (lib.clock.steady_now w.env).0)
            × (seconds 5 ≤ w'.redis_client.last_attempt - w.redis_client.last_attempt))
  unfolding ensure_connection retry still_alive open_connection connection_error handle_failure
      set_connected set_last_attempt update
  redis_attempts_spaced w = ground arith
