-- ===== src/Service/Live/Delivery.antt =====
-- services/data_manager_redis.hpp and transport/tcp_data_sender.hpp: a client misses no reading, however
-- its `OnAccept` and the rounds of the telemetry thread interleave.
use aqua_regulator_server.Base.{
  ℕ, suc, ◌≡◌, refl, Bool, true, false, List, [], ◌∷◌, ◌++◌, ◌==◌, ◌⊎◌, inl, inr, subst, arith,
  Bool-cases, ==_iff,
}
use aqua_regulator_server.Base.Members.{In}
use aqua_regulator_server.Domain.{
  TelemetryChannel, historical_environment, historical_soil, TelemetryReading,
}
use aqua_regulator_server.Service.Live.{
  Shared, Batch, At, idle, listing, unlisting, advance, tagged, batch_of, realtime_round,
  historical_round, System, put, Step, sampled, loaded, accept, close, move, Reach, here, next,
  started,
}
use aqua_regulator_server.Service.Live.Owed.{
  InBatches, Got, Owes, AllBatched, Batched, advance_keeps, advance-Batched, put_all,
}
use aqua_regulator_server.World.{TelemetryCache}

module _ {W : Type 0} where
  InBatches-append :
      (c : TelemetryChannel) (r : TelemetryReading W) (ds bs : List (Batch W))
      → InBatches c r ds ⊎ InBatches c r bs
      → InBatches c r (ds ++ bs)
  InBatches-append c r [] bs h = elim h [ inl a ↦ absurd a | inr b ↦ b ]
  InBatches-append c r (x ∷ ds) bs h = elim h [
    | inl a ↦ elim a [ inl e ↦ inl e | inr m ↦ inr (InBatches-append c r ds bs (inl m)) ]
    | inr b ↦ inr (InBatches-append c r ds bs (inr b))
  ]

  InBatches-batch_of :
      (c : TelemetryChannel) (r : TelemetryReading W) (rs : List (TelemetryReading W))
      → In r rs
      → InBatches c r (batch_of c rs)
  InBatches-batch_of c r [] h = elim h [ ]
  InBatches-batch_of c r (x ∷ rs) h = inl (refl, h)

  AllBatched-append :
      (xs ys : List (TelemetryChannel × TelemetryReading W)) (bs : List (Batch W))
      → AllBatched xs bs
      → AllBatched ys bs
      → AllBatched (xs ++ ys) bs
  AllBatched-append [] ys bs h k = k
  AllBatched-append ((c, r) ∷ xs) ys bs h k = (h.0, AllBatched-append xs ys bs h.1 k)

  AllBatched-tagged :
      (c : TelemetryChannel) (rs : List (TelemetryReading W)) (bs : List (Batch W))
      → ((r : TelemetryReading W) → In r rs → InBatches c r bs)
      → AllBatched (tagged c rs) bs
  AllBatched-tagged c [] bs h = tt
  AllBatched-tagged c (r ∷ rs) bs h =
      (h r (inl refl), AllBatched-tagged c rs bs (λ x m. h x (inr m)))

  historical_round-Batched :
      (env soil : List (TelemetryReading W)) → Batched (historical_round env soil)
  unfolding historical_round
  historical_round-Batched env soil =
      let a = batch_of historical_environment env in
      let b = batch_of historical_soil soil in
      AllBatched-append (tagged historical_environment env) (tagged historical_soil soil) (a ++ b)
        (AllBatched-tagged historical_environment env (a ++ b) (λ r m.
          InBatches-append historical_environment r a b
            (inl (InBatches-batch_of historical_environment r env m))))
        (AllBatched-tagged historical_soil soil (a ++ b) (λ r m.
          InBatches-append historical_soil r a b
            (inr (InBatches-batch_of historical_soil r soil m))))

  realtime_round-Batched : (r : TelemetryReading W) → Batched (realtime_round r)
  unfolding realtime_round
  realtime_round-Batched r = (inl (refl, inl refl), tt)

  record Inv (s : System W) : Type 0 where
    batched : (i : ℕ) → Batched (s.at i)
    served :
        (id : ℕ) (c : TelemetryChannel) (r : TelemetryReading W)
        → In id s.shared.conn_ids
        → In r (s.shared.cache.buffer c)
        → Got id c r s.shared.sent ⊎ ((i : ℕ) × Owes id c r (s.at i))

  put_self : (P : At W → Type 0) (at : ℕ → At W) (i : ℕ) (p : At W) → P p → P (put at i p i)
  put_self P at i p h = rw (let e : (i == i) ≡ true = ground arith in e) h

  -- Of the other threads, and of this one if it is the same.
  put_cases :
      (P : At W → Type 0) (X : Type 0) (at : ℕ → At W) (i j : ℕ) (q : At W)
      → P (at j)
      → (P (at i) → P q ⊎ X)
      → X ⊎ ((k : ℕ) × P (put at i q k))
  put_cases P X at i j q o f = elim (Bool-cases (j == i)) [
    | inl e ↦ elim (f (subst (λ k. P (at k)) ((==_iff j i).0 e) o)) [
      | inl p ↦ inr (i, put_self P at i q p)
      | inr x ↦ inl x
    ]
    | inr e ↦ inr (j, rw e o)
  ]

  begin-Inv :
      (s : System W) (i : ℕ) (q : At W)
      → s.at i ≡ idle
      → Batched q
      → Inv s
      → Inv (record s { at = put s.at i q })
  begin-Inv s i q free h v = record {
    batched = put_all Batched s.at i q v.batched h;
    served = λ id c r l m. elim (v.served id c r l m) [
      | inl g ↦ inl g
      | inr (j, o) ↦
          put_cases (Owes id c r) (Got id c r s.shared.sent) s.at i j q o
            (λ p. absurd (subst (Owes id c r) free p))
    ];
  }

  started-Inv : (cache : TelemetryCache W) → Inv (started cache)
  started-Inv cache = record { batched = λ i. tt; served = λ id c r l m. absurd l }

module _ {W : Type 0} (answers : ℕ → Shared W → Bool) where
  module _ (counted : (n : ℕ) (s : Shared W) → answers n s ≡ false → s.conn_ids ≡ []) where
    move-Inv :
        (s : System W) (i n : ℕ)
        → Inv s
        → let next = advance (answers n s.shared) (s.at i) s.shared in
          Inv (record { shared = next.1; at = put s.at i next.0 })
    move-Inv s i n v =
        let b = answers n s.shared in
        let next = advance b (s.at i) s.shared in
        record {
          batched =
              put_all Batched s.at i next.0 v.batched
                (advance-Batched b (s.at i) s.shared (v.batched i));
          served = λ id c r l m.
              elim (advance_keeps b (s.at i) s.shared (counted n s.shared) (v.batched i) id c r l
                m) [
                  | inl o ↦ inr (i, put_self (Owes id c r) s.at i next.0 o)
                  | inr ((l0, m0), still, f) ↦ elim (v.served id c r l0 m0) [
                    | inl g ↦ inl (still g)
                    | inr (j, o) ↦
                        put_cases (Owes id c r) (Got id c r next.1.sent) s.at i j next.0 o f
                  ]
                ];
        }

    Step-Inv : {s t : System W} → Step answers s t → Inv s → Inv t
    Step-Inv {s} (sampled r free to) v =
        rw to (begin-Inv s 0 (realtime_round r) free (realtime_round-Batched r) v)
    Step-Inv {s} (loaded env soil free to) v =
        rw to (begin-Inv s 0 (historical_round env soil) free (historical_round-Batched env soil) v)
    Step-Inv {s} (accept i id free to) v = rw to (begin-Inv s (suc i) (listing id) free tt v)
    Step-Inv {s} (close i id free to) v = rw to (begin-Inv s (suc i) (unlisting id) free tt v)
    Step-Inv {s} (move i n p u e to) v = rw to (
        subst (λ (z : At W × Shared W). Inv (record { shared = z.1; at = put s.at i z.0 })) e
          (move-Inv s i n v))

    Reach-Inv : {s t : System W} → Reach answers s t → Inv s → Inv t
    Reach-Inv here v = v
    Reach-Inv (next r st) v = Step-Inv st (Reach-Inv r v)

    -- However the rounds of the telemetry thread and the callbacks interleave, with the memory cache: when
    -- no thread is in the middle of one, every listed connection was sent every reading that the cache
    -- holds, in a frame of the reading's channel, if `hasSubscribers` answers false only while no
    -- connection is listed. So a reading that arrives while a client connects is not missed: it is in
    -- the snapshot or in a frame behind it.
    pub none_missed :
        (cache : TelemetryCache W) {s : System W}
        → Reach answers (started cache) s
        → ((i : ℕ) → s.at i ≡ idle)
        → (id : ℕ) (c : TelemetryChannel) (r : TelemetryReading W) → In id s.shared.conn_ids
        → In r (s.shared.cache.buffer c)
        → Got id c r s.shared.sent
    none_missed cache run quiet id c r l m =
        elim ((Reach-Inv run (started-Inv cache)).served id c r l m) [
          | inl g ↦ g
          | inr (i, o) ↦ absurd (subst (Owes id c r) (quiet i) o)
        ]
