-- ===== src/Service/Realtime.antt =====
-- services/data_manager_redis.hpp, `processRealtime`.
use Prim.Native.String.{◌++◌ as ◌<>◌}
use aqua_regulator_server.Base.{
  ◌+◌, ◌%◌, ◌^◌, ◌≡◌, true, false, none, some, [], ◌∷◌, ◌++◌, if◌then◌else◌, arith,
}
use aqua_regulator_server.Base.Decimal.{to_string}
use aqua_regulator_server.Cache.Memory
use aqua_regulator_server.Domain.{realtime, TelemetryReading, TelemetryFrame}
use aqua_regulator_server.Monitor.{lookup, update}
use aqua_regulator_server.Monitor.Table.{update-healthy}
use aqua_regulator_server.Platform.{Platform}
use aqua_regulator_server.Publisher.{publish}
use aqua_regulator_server.Publisher.Delivery.{to_all, frame_packet, broadcast_lem}
use aqua_regulator_server.Router.{has_subscribers}
use aqua_regulator_server.Sensors.{
  read_realtime, ensure_connection, reconnect, sample, open_connection, connection_error,
  set_last_attempt,
}
use aqua_regulator_server.Sensors.Health.{Shows}
use aqua_regulator_server.Service.{
  store_to_cache, set_memory_cache, process_realtime, publish_realtime, next_correlation_id,
}
use aqua_regulator_server.World.{World}

module _ {E W J : Type 0} (lib : Platform E W J) where
  pub read_realtime_kept :
      (w : World E W)
      → let w' = (read_realtime lib w).1 in
        (w'.service ≡ w.service) × (w'.calls ≡ w.calls) × (w'.listener ≡ w.listener)
  unfolding read_realtime ensure_connection reconnect sample open_connection connection_error
      set_last_attempt update
  read_realtime_kept w = ground arith

  -- When the device yields no reading, a round stores nothing, sends nothing and uses no correlation
  -- number, and the service is reported unhealthy.
  process_realtime-none :
      (w : World E W)
      → (read_realtime lib w).0 ≡ none
      → let w' = (process_realtime lib w).1 in
        (w'.service ≡ w.service)
        × (w'.calls ≡ w.calls)
        × Shows false (lookup "telemetry_service" w'.states)
  unfolding process_realtime update
  process_realtime-none w h =
      let v = (read_realtime lib w).1 in
      let shown = update-healthy lib "telemetry_service" false "Realtime read failed" v in
      ground (arith, read_realtime_kept w, shown)

  -- The frame of one reading under the next correlation number.
  abbrev pub increment : TelemetryReading W → World E W → TelemetryFrame W
  increment reading w = record {
    channel = realtime;
    readings = reading ∷ [];
    snapshot = false;
    correlation_id = "frame-" <> to_string ((w.service.correlation + 1) % 2 ^ 64);
  }

  publish_realtime_calls :
      (reading : TelemetryReading W) (w : World E W)
      → ((publish_realtime lib reading w).1.calls ≡ (
          if has_subscribers lib w
          then w.calls ++ to_all w.listener.conn_ids (frame_packet lib (increment reading w))
          else w.calls))
        × ((publish_realtime lib reading w).1.service.memory_cache ≡ w.service.memory_cache)
  unfolding publish_realtime next_correlation_id publish update has_subscribers
  publish_realtime_calls reading w =
      let v = record w {
        service = record (w.service) { correlation = (w.service.correlation + 1) % 2 ^ 64 };
      } in
      ground (arith, broadcast_lem lib (frame_packet lib (increment reading w)) v)

  -- When the device yields a reading and the memory cache is in use, a round stores it in the realtime
  -- channel, sends one frame with this reading alone and the next correlation number to every listed
  -- connection if there is a subscriber, and nothing otherwise, and reports the service healthy.
  pub process_realtime-some :
      (reading : TelemetryReading W) (w w1 : World E W)
      → w.service.use_redis ≡ false
      → read_realtime lib w ≡ (some reading, w1)
      → let w' = (process_realtime lib w).1 in
        (w'.service.memory_cache ≡ Memory.store w.service.memory_cache realtime reading)
        × (w'.calls ≡ (
            if has_subscribers lib w1
            then w.calls ++ to_all w.listener.conn_ids (frame_packet lib (increment reading w))
            else w.calls))
        × Shows true (lookup "telemetry_service" w'.states)
  unfolding process_realtime store_to_cache set_memory_cache update has_subscribers
  process_realtime-some reading w w1 memory h =
      let v = record w1 {
        service = record (w1.service) {
          memory_cache = Memory.store w1.service.memory_cache realtime reading;
        };
      } in
      let u = (publish_realtime lib reading v).1 in
      ground (
        arith,
        read_realtime_kept w,
        publish_realtime_calls reading v,
        update-healthy lib "telemetry_service" true "Realtime frame published" u,
      )
