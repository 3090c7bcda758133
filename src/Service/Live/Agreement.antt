-- ===== src/Service/Live/Agreement.antt =====
-- services/data_manager_redis.hpp and transport/tcp_data_sender.hpp: a thread that no other one interrupts
-- does what the functions of Service and Publisher do.
use aqua_regulator_server.Base.{
  ℕ, ◌≡◌, ◌∙◌, refl, sym, ap, true, false, some, List, [], ◌∷◌, ◌++◌, map, map-append, append-nil,
  append_assoc, arith,
}
use aqua_regulator_server.Cache.Memory
use aqua_regulator_server.Domain.{
  realtime, historical_environment, historical_soil, TelemetryReading, TelemetryFrame,
}
use aqua_regulator_server.Network
use aqua_regulator_server.Platform.{Platform}
use aqua_regulator_server.Publisher.{publish, on_accept, on_close}
use aqua_regulator_server.Publisher.Delivery.{
  to_all, frame_packet, deliveries, listed, broadcast_lem,
}
use aqua_regulator_server.Router.{has_subscribers}
use aqua_regulator_server.Sensors.{read_realtime}
use aqua_regulator_server.Service.{
  process_realtime, snapshot_provider, store_to_cache, set_memory_cache, publish_realtime,
  next_correlation_id, build_snapshot, build_frame, snapshot_from_cache,
}
use aqua_regulator_server.Service.Realtime.{increment, process_realtime-some, read_realtime_kept}
use aqua_regulator_server.Service.Quiet.{
  snapshot_provider-Same, snapshot_provider_memory, on_accept-snapshot_provider,
}
use aqua_regulator_server.Monitor.{update}
use aqua_regulator_server.Service.Live.{
  Shared, idle, listing, unlisting, number, realtime_round, others,
}
use aqua_regulator_server.Service.Live.Alone.{
  number_after, Alone, to_each, snapshot_frame, alone_realtime, alone_close, alone_accept,
}
use aqua_regulator_server.World.{World, Listener, Service, Call, send, for_each}

-- What the threads share of a world.
abbrev pub shared_of : {E W : Type 0} → World E W → Shared W
shared_of w = record {
  cache = w.service.memory_cache;
  conn_ids = w.listener.conn_ids;
  correlation = w.service.correlation;
  sent = [];
}

module _ {E W J : Type 0} (lib : Platform E W J) where
  -- The calls of `Send` that stand for what was sent.
  abbrev pub packets : List (ℕ × TelemetryFrame W) → List Call
  packets xs = map (λ x. send x.0 (frame_packet lib x.1)) xs

  -- The world behind a handler, begun in `w`, is what the threads share in `t`, and the calls.
  abbrev pub Shows : World E W → Shared W → World E W → Type 0
  Shows w t v =
      (t.cache ≡ v.service.memory_cache)
      × (t.conn_ids ≡ v.listener.conn_ids)
      × (t.correlation ≡ v.service.correlation)
      × (v.calls ≡ w.calls ++ packets t.sent)

  packets-to_each :
      (ids : List ℕ) (f : TelemetryFrame W)
      → packets (to_each ids f) ≡ to_all ids (frame_packet lib f)
  packets-to_each [] f = refl
  packets-to_each (id ∷ ids) f =
      ap (λ cs. send id (frame_packet lib f) ∷ cs) (packets-to_each ids f)

  publish-Same :
      (f : TelemetryFrame W) (w : World E W)
      → ((publish lib f w).1.listener ≡ w.listener) × ((publish lib f w).1.service ≡ w.service)
  unfolding publish update
  publish-Same f w = ground (arith, broadcast_lem lib (frame_packet lib f) w)

  publish_all-Same :
      (fs : List (TelemetryFrame W)) (w : World E W)
      → ((for_each (publish lib) fs w).1.listener ≡ w.listener)
        × ((for_each (publish lib) fs w).1.service ≡ w.service)
  publish_all-Same [] w = (refl, refl)
  publish_all-Same (f ∷ fs) w =
      let one = publish-Same f w in
      let rest = publish_all-Same fs (publish lib f w).1 in (rest.0 ∙ one.0, rest.1 ∙ one.1)

  publish_realtime_counts :
      (r : TelemetryReading W) (w : World E W)
      → has_subscribers lib w ≡ true
      → ((publish_realtime lib r w).1.listener ≡ w.listener)
        × ((publish_realtime lib r w).1.service.correlation ≡ number_after w.service.correlation)
  unfolding publish_realtime next_correlation_id
  publish_realtime_counts r w subscribed =
      let v = record w {
        service = record (w.service) { correlation = number_after w.service.correlation };
      } in
      ground (arith, publish-Same (increment lib r w) v)

  process_realtime_counts :
      (r : TelemetryReading W) (w w1 : World E W)
      → w.service.use_redis ≡ false
      → read_realtime lib w ≡ (some r, w1)
      → has_subscribers lib w1 ≡ true
      → ((process_realtime lib w).1.listener ≡ w.listener)
        × ((process_realtime lib w).1.service.correlation ≡ number_after w.service.correlation)
  unfolding process_realtime store_to_cache set_memory_cache has_subscribers update
  process_realtime_counts r w w1 memory h subscribed =
      let v = record w1 {
        service = record (w1.service) {
          memory_cache = Memory.store w1.service.memory_cache realtime r;
        };
      } in
      ground (arith, read_realtime_kept lib w, publish_realtime_counts r v)

  realtime_alone :
      (r : TelemetryReading W) (w w1 : World E W)
      → w.service.use_redis ≡ false
      → read_realtime lib w ≡ (some r, w1)
      → has_subscribers lib w1 ≡ true
      → (t : Shared W) × Alone idle t (realtime_round r) (shared_of w)
        × Shows w t (process_realtime lib w).1
  unfolding number
  realtime_alone r w w1 memory h subscribed =
      let some_ = process_realtime-some lib r w w1 memory h in
      let counts = process_realtime_counts r w w1 memory h subscribed in
      (
        _,
        alone_realtime r (shared_of w),
        (
          sym some_.0,
          ap (λ (l : Listener). l.conn_ids) (sym counts.0),
          sym counts.1,
          ground (arith, some_, packets-to_each w.listener.conn_ids (increment lib r w)),
        ),
      )

  snapshot_provider_counts :
      (w : World E W)
      → w.service.use_redis ≡ false
      → ((snapshot_provider lib w).1.service.memory_cache ≡ w.service.memory_cache)
        × ((snapshot_provider lib w).1.service.correlation
            ≡ number_after (number_after (number_after w.service.correlation)))
  unfolding snapshot_provider build_snapshot build_frame next_correlation_id snapshot_from_cache
  snapshot_provider_counts w memory = ground arith

  packets-append :
      (xs ys : List (ℕ × TelemetryFrame W)) → packets (xs ++ ys) ≡ packets xs ++ packets ys
  packets-append xs ys = map-append (λ x. send x.0 (frame_packet lib x.1)) xs ys

  packets-three :
      (ids : List ℕ) (a b c : TelemetryFrame W)
      → packets ((to_each ids a ++ to_each ids b) ++ to_each ids c)
        ≡ deliveries lib ids (a ∷ b ∷ c ∷ [])
  packets-three ids a b c = simp (packets-append, packets-to_each, append_assoc, append-nil)

  accept_alone :
      (subscribed : (v : World E W) → has_subscribers lib v ≡ true) (id : ℕ) (w : World E W)
      → w.service.use_redis ≡ false
      → (t : Shared W) × Alone idle t (listing id) (shared_of w)
        × Shows w t (on_accept lib (some (snapshot_provider lib)) id w).1
  unfolding number on_accept Network.on_accept update others
  accept_alone subscribed id w memory =
      let v = listed lib id w in
      let ids = w.listener.conn_ids ++ id ∷ [] in
      let a = number_after w.service.correlation in
      let b = number_after a in
      let made = snapshot_provider lib v in
      let quiet = snapshot_provider-Same lib v in
      let counts = snapshot_provider_counts v memory in
      let same = publish_all-Same made.0 made.1 in
      let calls = on_accept-snapshot_provider lib subscribed id w in
      let frames = snapshot_provider_memory lib v memory in
      (
        _,
        alone_accept id (shared_of w),
        (
          sym (ap (λ (x : Service W). x.memory_cache) same.1 ∙ counts.0),
          sym (ap (λ (l : Listener). l.conn_ids) (same.0 ∙ quiet.listener)),
          sym (ap (λ (x : Service W). x.correlation) same.1 ∙ counts.1),
          calls
              ∙ ap (λ (fs : List (TelemetryFrame W)). w.calls ++ deliveries lib ids fs) frames
              ∙ ap (λ (cs : List Call). w.calls ++ cs)
                  (sym (
                    packets-three ids (snapshot_frame realtime a (shared_of w))
                      (snapshot_frame historical_environment b (shared_of w))
                      (snapshot_frame historical_soil (number_after b) (shared_of w)))),
        ),
      )

  close_alone :
      (id : ℕ) (w : World E W)
      → (t : Shared W) × Alone idle t (unlisting id) (shared_of w) × Shows w t (on_close lib id w).1
  unfolding on_close Network.on_close update
  close_alone id w = (_, alone_close id (shared_of w), (refl, refl, refl, sym (append-nil w.calls)))

  -- With the memory cache and a subscriber at all times: the steps of a thread that no other one
  -- interrupts, from what a world holds, come to an end where the threads share what the world holds
  -- behind the function, and the packets sent are the calls that it makes: for `processRealtime` with a
  -- reading, for `OnAccept` with the service's snapshot, and for `OnClose`.
  pub alone_lem :
      (subscribed : (v : World E W) → has_subscribers lib v ≡ true) (id : ℕ)
      (r : TelemetryReading W) (w w1 : World E W)
      → w.service.use_redis ≡ false
      → read_realtime lib w ≡ (some r, w1)
      → ((t : Shared W) × Alone idle t (realtime_round r) (shared_of w)
          × Shows w t (process_realtime lib w).1)
        × ((t : Shared W) × Alone idle t (listing id) (shared_of w)
            × Shows w t (on_accept lib (some (snapshot_provider lib)) id w).1)
        × ((t : Shared W) × Alone idle t (unlisting id) (shared_of w)
            × Shows w t (on_close lib id w).1)
  alone_lem subscribed id r w w1 memory h = (
    realtime_alone r w w1 memory h (subscribed w1),
    accept_alone subscribed id w memory,
    close_alone id w,
  )
