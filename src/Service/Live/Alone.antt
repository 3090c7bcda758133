-- ===== src/Service/Live/Alone.antt =====
-- services/data_manager_redis.hpp and transport/tcp_data_sender.hpp: the steps of a thread that no other one
-- interrupts.
use aqua_regulator_server.Base.{
  ℕ, ◌+◌, ◌%◌, ◌^◌, ◌≡◌, refl, sym, true, false, List, [], ◌∷◌, ◌++◌, map, append-nil, append_assoc,
  subst,
}
use aqua_regulator_server.Cache.Memory
use aqua_regulator_server.Domain.{
  TelemetryChannel, realtime, historical_environment, historical_soil, TelemetryReading,
  TelemetryFrame,
}
use aqua_regulator_server.Network
use aqua_regulator_server.Service.Live.{
  Shared, Batch, At, idle, publishing, sending, listing, unlisting, number, next_number, proceed,
  advance, realtime_round, others,
}

abbrev pub number_after : ℕ → ℕ
number_after n = (n + 1) % 2 ^ 64

module _ {W : Type 0} where
  -- A thread that makes its steps with no other between them, with a subscriber at all times.
  pub data Alone (q : At W) (t : Shared W) : At W → Shared W → Type 0 where
    done : {p : At W} {s : Shared W} → p ≡ q → s ≡ t → Alone q t p s
    more :
        {p : At W} {s : Shared W}
        → Alone q t (advance true p s).0 (advance true p s).1
        → Alone q t p s

  abbrev pub to_each : List ℕ → TelemetryFrame W → List (ℕ × TelemetryFrame W)
  to_each ids f = map (λ id. (id, f)) ids

  abbrev pub sent_more : Shared W → List (ℕ × TelemetryFrame W) → Shared W
  sent_more s xs = record s { sent = s.sent ++ xs }

  module _ (q : At W) (t : Shared W) where
    alone_sends :
        (ids : List ℕ) (f : TelemetryFrame W) (fs : List (TelemetryFrame W)) (bs : List (Batch W))
        (s : Shared W)
        → Alone q t (proceed fs bs) (sent_more s (to_each ids f))
        → Alone q t (sending ids f fs bs) s
    unfolding advance
    alone_sends [] f fs bs s h =
        more
          (subst (λ xs. Alone q t (proceed fs bs) (record s { sent = xs })) (append-nil s.sent) h)
    alone_sends (id ∷ ids) f fs bs s h = more (
        alone_sends ids f fs bs (sent_more s ((id, f) ∷ [])) (
          subst (λ xs. Alone q t (proceed fs bs) (record s { sent = xs }))
            (sym (append_assoc s.sent ((id, f) ∷ []) (to_each ids f))) h))

    alone_publish :
        (f : TelemetryFrame W) (fs : List (TelemetryFrame W)) (bs : List (Batch W)) (s : Shared W)
        → Alone q t (proceed fs bs) (sent_more s (to_each s.conn_ids f))
        → Alone q t (publishing f fs bs) s
    unfolding advance
    alone_publish f fs bs s h = more (more (alone_sends s.conn_ids f fs bs s h))

  pub alone_realtime :
      (r : TelemetryReading W) (s : Shared W)
      → let f =
          number
            (next_number s)
            (record { channel = realtime; readings = r ∷ []; snapshot = false }) in
        Alone idle
          (record {
            cache = Memory.store s.cache realtime r;
            conn_ids = s.conn_ids;
            correlation = next_number s;
            sent = s.sent ++ to_each s.conn_ids f;
          })
          (realtime_round r)
          s
  unfolding advance realtime_round proceed
  alone_realtime r s = more (more (more (alone_publish idle _ _ [] [] _ (more (done refl refl)))))

  pub alone_close :
      (id : ℕ) (s : Shared W)
      → Alone idle (record s { conn_ids = Network.remove id s.conn_ids }) (unlisting id) s
  unfolding advance
  alone_close id s = more (done refl refl)

  -- The three frames of a snapshot, from a state.
  abbrev pub snapshot_frame : TelemetryChannel → ℕ → Shared W → TelemetryFrame W
  snapshot_frame c n s =
      number n (record { channel = c; readings = Memory.snapshot s.cache c; snapshot = true })

  pub alone_accept :
      (id : ℕ) (s : Shared W)
      → let ids = s.conn_ids ++ id ∷ [] in
        let a = number_after s.correlation in
        let b = number_after a in
        let c = number_after b in
        Alone idle
          (record {
            cache = s.cache;
            conn_ids = ids;
            correlation = c;
            sent =
                ((others id s.sent ++ to_each ids (snapshot_frame realtime a s))
                  ++ to_each ids (snapshot_frame historical_environment b s))
                ++ to_each ids (snapshot_frame historical_soil c s);
          })
          (listing id)
          s
  unfolding advance proceed
  alone_accept id s = more (
      more (
        more (
          more (
            more (
              more (
                more (
                  more (
                    alone_publish idle _ _ _ [] _ (
                      alone_publish idle _ _ _ [] _
                        (alone_publish idle _ _ [] [] _ (more (done refl refl))))))))))))
