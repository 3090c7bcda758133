-- ===== src/Service/Quiet.antt =====
-- services/data_manager_redis.hpp: building a snapshot sends nothing, whichever cache it reads.
use Prim.Native.String.{◌++◌ as ◌<>◌}
use aqua_regulator_server.Base.Decimal.{to_string}
use aqua_regulator_server.Base.{
  ℕ, ◌+◌, ◌%◌, ◌^◌, ◌≡◌, ◌∙◌, String, true, false, some, [], ◌∷◌, ◌++◌, arith,
}
use aqua_regulator_server.Base.Int.{ℤ, pos, negsuc}
use aqua_regulator_server.Cache.Client.{
  lrange, guarded, ensure_connection, retry, still_alive, open_connection, connection_error,
  handle_failure, set_connected, set_last_attempt,
}
use aqua_regulator_server.Cache.Memory
use aqua_regulator_server.Cache.Redis
use aqua_regulator_server.Domain.{
  TelemetryChannel, realtime, historical_environment, historical_soil, TelemetryFrame,
}
use aqua_regulator_server.Monitor.{update}
use aqua_regulator_server.Platform.{Platform}
use aqua_regulator_server.Publisher.{on_accept}
use aqua_regulator_server.Publisher.Delivery.{deliveries, listed, on_accept_to_all}
use aqua_regulator_server.Router.{has_subscribers}
use aqua_regulator_server.Service.{
  snapshot_from_cache, build_snapshot, build_frame, next_correlation_id, snapshot_provider,
}
use aqua_regulator_server.World.{World}

-- Two worlds with the same calls made and the same connections.
pub record Same {E W : Type 0} (v w : World E W) : Type 0 where
  pub calls : v.calls ≡ w.calls
  pub listener : v.listener ≡ w.listener

module _ {E W J : Type 0} (lib : Platform E W J) where
  ensure_connection-Same : (w : World E W) → Same (ensure_connection lib w).1 w
  unfolding ensure_connection retry still_alive open_connection connection_error handle_failure
      set_connected set_last_attempt update
  ensure_connection-Same w = record { calls = ground arith; listener = ground arith }

  lrange-Same : (key : String) (a b : ℤ) (w : World E W) → Same (lrange lib key a b w).1 w
  unfolding lrange guarded handle_failure update
  lrange-Same key a b w =
      let e = ensure_connection-Same w in
      record { calls = ground (arith, e.calls); listener = ground (arith, e.listener) }

  snapshot_from_cache-Same :
      (c : TelemetryChannel) (w : World E W) → Same (snapshot_from_cache lib c w).1 w
  unfolding snapshot_from_cache Redis.snapshot
  snapshot_from_cache-Same c w =
      let e = lrange-Same (Redis.build_key c) (pos 0) (negsuc 0) w in
      record { calls = ground (arith, e.calls); listener = ground (arith, e.listener) }

  build_snapshot-Same : (c : TelemetryChannel) (w : World E W) → Same (build_snapshot lib c w).1 w
  unfolding build_snapshot build_frame next_correlation_id
  build_snapshot-Same c w = record {
    calls = (snapshot_from_cache-Same c w).calls;
    listener = (snapshot_from_cache-Same c w).listener;
  }

  pub snapshot_provider-Same : (w : World E W) → Same (snapshot_provider lib w).1 w
  unfolding snapshot_provider
  snapshot_provider-Same w =
      let a = build_snapshot-Same realtime w in
      let v = (build_snapshot lib realtime w).1 in
      let b = build_snapshot-Same historical_environment v in
      let u = (build_snapshot lib historical_environment v).1 in
      let c = build_snapshot-Same historical_soil u in
      record {
        calls = c.calls ∙ b.calls ∙ a.calls;
        listener = c.listener ∙ b.listener ∙ a.listener;
      }

  -- With a subscriber at all times, a new connection sets off the three frames of the service's
  -- snapshot, from whichever cache it uses, and each of them goes to every listed connection, the old
  -- ones and the new one, in order, and nothing else is sent.
  pub on_accept-snapshot_provider :
      (subscribed : (v : World E W) → has_subscribers lib v ≡ true) (id : ℕ) (w : World E W)
      → (on_accept lib (some (snapshot_provider lib)) id w).1.calls
        ≡ w.calls
          ++ deliveries lib
              (w.listener.conn_ids ++ id ∷ [])
              (snapshot_provider lib (listed lib id w)).0
  on_accept-snapshot_provider subscribed id w =
      on_accept_to_all lib subscribed (snapshot_provider lib) id w
        (λ v. (snapshot_provider-Same v).calls) (λ v. (snapshot_provider-Same v).listener)

  -- The three frames of the snapshot with the memory cache: one to a channel, with all that the cache
  -- holds of it, and with consecutive correlation numbers.
  pub snapshot_provider_memory :
      (w : World E W)
      → w.service.use_redis ≡ false
      → let frame : TelemetryChannel → ℕ → TelemetryFrame W = λ c n. record {
        channel = c;
        readings = Memory.snapshot w.service.memory_cache c;
        snapshot = true;
        correlation_id = "frame-" <> to_string n;
      } in
        let n = (w.service.correlation + 1) % 2 ^ 64 in
        let m = (n + 1) % 2 ^ 64 in
        (snapshot_provider lib w).0
        ≡ frame realtime n
          ∷ frame historical_environment m
          ∷ frame historical_soil ((m + 1) % 2 ^ 64)
          ∷ []
  unfolding snapshot_provider build_snapshot build_frame next_correlation_id snapshot_from_cache
  snapshot_provider_memory w memory = ground arith
