-- ===== src/Service/Live/Owed.antt =====
-- services/data_manager_redis.hpp and transport/tcp_data_sender.hpp: what a thread has still to send,
-- and that each of its steps keeps every reading on its way to the connections.
use aqua_regulator_server.Base.{
  ℕ, ◌==◌, ◌≡◌, refl, sym, Bool, true, false, List, [], ◌∷◌, ◌++◌, ◌⊎◌, inl, inr, subst, length,
  ltb, arith, Bool-cases,
}
use aqua_regulator_server.Base.Members.{In, In-kept, In-snoc}
use aqua_regulator_server.Cache.Memory
use aqua_regulator_server.Domain.{
  TelemetryChannel, realtime, historical_environment, historical_soil, same_channel,
  same_channel-eq, TelemetryReading, TelemetryFrame,
}
use aqua_regulator_server.Network
use aqua_regulator_server.Service.Live.{
  Shared, Batch, At, idle, storing, numbering, publishing, copying, sending, listing, reading,
  stamping, unlisting, number, proceed, advance, put,
}
use aqua_regulator_server.World.{TelemetryCache}

In-remove : (id j : ℕ) (ids : List ℕ) → In id (Network.remove j ids) → In id ids
unfolding Network.remove
In-remove id j [] h = elim h [ ]
In-remove id j (x ∷ ids) h = ground (arith, In-remove id j ids)

In-channels :
    (c : TelemetryChannel) → In c (realtime ∷ historical_environment ∷ historical_soil ∷ [])
In-channels realtime = inl refl
In-channels historical_environment = inr (inl refl)
In-channels historical_soil = inr (inr (inl refl))

module _ {W : Type 0} where
  -- What a frame carries, and frames and batches.
  abbrev pub Carries : TelemetryChannel → TelemetryReading W → TelemetryFrame W → Type 0
  Carries c r f = (c ≡ f.channel) × In r f.readings

  abbrev pub InFrames : TelemetryChannel → TelemetryReading W → List (TelemetryFrame W) → Type 0
  InFrames c r [] = ⊥
  InFrames c r (f ∷ fs) = Carries c r f ⊎ InFrames c r fs

  abbrev pub InBatches : TelemetryChannel → TelemetryReading W → List (Batch W) → Type 0
  InBatches c r [] = ⊥
  InBatches c r (b ∷ bs) = ((c ≡ b.channel) × In r b.readings) ⊎ InBatches c r bs

  -- A frame with the reading was sent to the connection.
  abbrev pub Got : ℕ → TelemetryChannel → TelemetryReading W → List (ℕ × TelemetryFrame W) → Type 0
  Got id c r [] = ⊥
  Got id c r ((j, f) ∷ rest) = ((id ≡ j) × Carries c r f) ⊎ Got id c r rest

  -- What a thread has still to send: a frame with the reading, the connection among its receivers.
  abbrev pub Owes : ℕ → TelemetryChannel → TelemetryReading W → At W → Type 0
  Owes id c r idle = ⊥
  Owes id c r (storing items bs) = InBatches c r bs
  Owes id c r (numbering bs) = InBatches c r bs
  Owes id c r (publishing f fs bs) = Carries c r f ⊎ InFrames c r fs ⊎ InBatches c r bs
  Owes id c r (copying f fs bs) = Carries c r f ⊎ InFrames c r fs ⊎ InBatches c r bs
  Owes id c r (sending ids f fs bs) =
      (In id ids × Carries c r f) ⊎ InFrames c r fs ⊎ InBatches c r bs
  Owes id c r (listing j) = ⊥
  Owes id c r (reading cs fs) = In c cs ⊎ InFrames c r fs
  Owes id c r (stamping d rs cs fs) = ((c ≡ d) × In r rs) ⊎ In c cs ⊎ InFrames c r fs
  Owes id c r (unlisting j) = ⊥

  -- What a round stores, it publishes.
  abbrev pub AllBatched : List (TelemetryChannel × TelemetryReading W) → List (Batch W) → Type 0
  AllBatched [] bs = Unit {0}
  AllBatched ((c, r) ∷ items) bs = InBatches c r bs × AllBatched items bs

  abbrev pub Batched : At W → Type 0
  Batched (storing items bs) = AllBatched items bs
  Batched idle = Unit {0}
  Batched (numbering bs) = Unit {0}
  Batched (publishing f fs bs) = Unit {0}
  Batched (copying f fs bs) = Unit {0}
  Batched (sending ids f fs bs) = Unit {0}
  Batched (listing j) = Unit {0}
  Batched (reading cs fs) = Unit {0}
  Batched (stamping d rs cs fs) = Unit {0}
  Batched (unlisting j) = Unit {0}

  InFrames-append :
      (c : TelemetryChannel) (r : TelemetryReading W) (fs gs : List (TelemetryFrame W))
      → InFrames c r fs ⊎ InFrames c r gs
      → InFrames c r (fs ++ gs)
  InFrames-append c r [] gs h = elim h [ inl a ↦ absurd a | inr b ↦ b ]
  InFrames-append c r (f ∷ fs) gs h = elim h [
    | inl a ↦ elim a [ inl e ↦ inl e | inr m ↦ inr (InFrames-append c r fs gs (inl m)) ]
    | inr b ↦ inr (InFrames-append c r fs gs (inr b))
  ]

  Got-append :
      (id : ℕ) (c : TelemetryChannel) (r : TelemetryReading W) (xs ys : List (ℕ × TelemetryFrame W))
      → Got id c r xs ⊎ Got id c r ys
      → Got id c r (xs ++ ys)
  Got-append id c r [] ys h = elim h [ inl a ↦ absurd a | inr b ↦ b ]
  Got-append id c r ((j, f) ∷ xs) ys h = elim h [
    | inl a ↦ elim a [ inl e ↦ inl e | inr m ↦ inr (Got-append id c r xs ys (inl m)) ]
    | inr b ↦ inr (Got-append id c r xs ys (inr b))
  ]

  In-push :
      (cache : TelemetryCache W) (c : TelemetryChannel) (x r : TelemetryReading W)
      → In x (Memory.push cache c r)
      → In x (cache.buffer c) ⊎ (x ≡ r)
  unfolding Memory.push
  In-push cache c x r h =
      let all = cache.buffer c ++ r ∷ [] in
      In-snoc x r (cache.buffer c) (In-kept (ltb cache.capacity (length all)) x all h)

  -- A store adds its reading to its channel, and nothing else.
  In-store :
      (cache : TelemetryCache W) (c d : TelemetryChannel) (x r : TelemetryReading W)
      → In x ((Memory.store cache d r).buffer c)
      → In x (cache.buffer c) ⊎ (c ≡ d) × (x ≡ r)
  unfolding Memory.store
  In-store cache c d x r h = elim (Bool-cases (same_channel c d)) [
    | inl e ↦
        let same = same_channel-eq c d e in
        elim (In-push cache d x r (rw e at h)) [
          | inl m ↦ inl (subst (λ k. In x (cache.buffer k)) (sym same) m)
          | inr p ↦ inr (same, p)
        ]
    | inr e ↦ inl (rw e at h)
  ]

  -- What was true of a connection and a reading before a step, so that it is sent the reading in the end.
  abbrev pub Before :
      ℕ → TelemetryChannel → TelemetryReading W → At W → Shared W → At W → Shared W → Type 0
  Before id c r p s q t =
      (In id s.conn_ids × In r (s.cache.buffer c))
      × (Got id c r s.sent → Got id c r t.sent)
      × (Owes id c r p → Owes id c r q ⊎ Got id c r t.sent)

  pub advance_keeps :
      (b : Bool) (p : At W) (s : Shared W)
      → (b ≡ false → s.conn_ids ≡ [])
      → Batched p
      → (id : ℕ) (c : TelemetryChannel) (r : TelemetryReading W) → In id (advance b p s).1.conn_ids
      → In r ((advance b p s).1.cache.buffer c)
      → Owes id c r (advance b p s).0 ⊎ Before id c r p s (advance b p s).0 (advance b p s).1
  unfolding advance proceed number Memory.snapshot
  advance_keeps b idle s none_if bt id c r l m = inr ((l, m), (λ g. g), λ o. absurd o)
  advance_keeps b (storing ((d, x) ∷ items) bs) s none_if bt id c r l m =
      elim (In-store s.cache c d r x m) [
        | inl old ↦ inr ((l, old), (λ g. g), λ o. inl o)
        | inr (same, e) ↦ inl (rw (same, e) bt.0)
      ]
  advance_keeps true (storing [] bs) s none_if bt id c r l m = inr ((l, m), (λ g. g), λ o. inl o)
  advance_keeps false (storing [] bs) s none_if bt id c r l m =
      absurd (subst (In id) (none_if refl) l)
  advance_keeps b (numbering []) s none_if bt id c r l m = inr ((l, m), (λ g. g), λ o. absurd o)
  advance_keeps b (numbering (x ∷ bs)) s none_if bt id c r l m =
      inr ((l, m), (λ g. g), λ o. inl (elim o [ inl h ↦ inl h | inr k ↦ inr (inr k) ]))
  advance_keeps true (publishing f fs bs) s none_if bt id c r l m =
      inr ((l, m), (λ g. g), λ o. inl o)
  advance_keeps false (publishing f fs bs) s none_if bt id c r l m =
      absurd (subst (In id) (none_if refl) l)
  advance_keeps b (copying f fs bs) s none_if bt id c r l m =
      inr ((l, m), (λ g. g), λ o. inl (elim o [ inl h ↦ inl (l, h) | inr k ↦ inr k ]))
  advance_keeps b (sending (j ∷ ids) f fs bs) s none_if bt id c r l m = inr (
    (l, m),
    (λ g. Got-append id c r s.sent ((j, f) ∷ []) (inl g)),
    λ o. elim o [
      | inl (i, h) ↦ elim i [
        | inl e ↦ inr (Got-append id c r s.sent ((j, f) ∷ []) (inr (inl (e, h))))
        | inr k ↦ inl (inl (k, h))
      ]
      | inr k ↦ inl (inr k)
    ],
  )
  advance_keeps b (sending [] f (g ∷ fs) bs) s none_if bt id c r l m = inr (
    (l, m),
    (λ g. g),
    λ o. inl (elim o [
      | inl (n, h) ↦ absurd n
      | inr k ↦ elim k [
        | inl a ↦ elim a [ inl e ↦ inl e | inr b ↦ inr (inl b) ]
        | inr b ↦ inr (inr b)
      ]
    ]),
  )
  advance_keeps b (sending [] f [] bs) s none_if bt id c r l m = inr (
    (l, m),
    (λ g. g),
    λ o. inl (elim o [ inl (n, h) ↦ absurd n | inr k ↦ elim k [ inl n ↦ absurd n | inr b ↦ b ] ]),
  )
  advance_keeps b (listing j) s none_if bt id c r l m = inl (inl (In-channels c))
  advance_keeps b (reading (d ∷ cs) fs) s none_if bt id c r l m = inr (
    (l, m),
    (λ g. g),
    λ o. inl (elim o [
      | inl a ↦ elim a [
        | inl e ↦ inl (e, subst (λ k. In r (s.cache.buffer k)) e m)
        | inr k ↦ inr (inl k)
      ]
      | inr b ↦ inr (inr b)
    ]),
  )
  advance_keeps b (reading [] (f ∷ fs)) s none_if bt id c r l m = inr (
    (l, m),
    (λ g. g),
    λ o. inl (elim o [ inl n ↦ absurd n | inr k ↦ elim k [ inl e ↦ inl e | inr b ↦ inr (inl b) ] ]),
  )
  advance_keeps b (reading [] []) s none_if bt id c r l m =
      inr ((l, m), (λ g. g), λ o. elim o [ inl n ↦ absurd n | inr n ↦ absurd n ])
  advance_keeps b (stamping d rs cs fs) s none_if bt id c r l m = inr (
    (l, m),
    (λ g. g),
    λ o. inl (elim o [
      | inl h ↦ inr (InFrames-append c r fs _ (inr (inl h)))
      | inr k ↦ elim k [ inl h ↦ inl h | inr h ↦ inr (InFrames-append c r fs _ (inl h)) ]
    ]),
  )
  advance_keeps b (unlisting j) s none_if bt id c r l m =
      inr ((In-remove id j s.conn_ids l, m), (λ g. g), λ o. absurd o)

  pub advance-Batched : (b : Bool) (p : At W) (s : Shared W) → Batched p → Batched (advance b p s).0
  unfolding advance proceed
  advance-Batched b idle s h = tt
  advance-Batched b (storing ((d, x) ∷ items) bs) s h = h.1
  advance-Batched true (storing [] bs) s h = tt
  advance-Batched false (storing [] bs) s h = tt
  advance-Batched b (numbering []) s h = tt
  advance-Batched b (numbering (x ∷ bs)) s h = tt
  advance-Batched true (publishing f fs bs) s h = tt
  advance-Batched false (publishing f (g ∷ fs) bs) s h = tt
  advance-Batched false (publishing f [] bs) s h = tt
  advance-Batched b (copying f fs bs) s h = tt
  advance-Batched b (sending (j ∷ ids) f fs bs) s h = tt
  advance-Batched b (sending [] f (g ∷ fs) bs) s h = tt
  advance-Batched b (sending [] f [] bs) s h = tt
  advance-Batched b (listing j) s h = tt
  advance-Batched b (reading (d ∷ cs) fs) s h = tt
  advance-Batched b (reading [] (f ∷ fs)) s h = tt
  advance-Batched b (reading [] []) s h = tt
  advance-Batched b (stamping d rs cs fs) s h = tt
  advance-Batched b (unlisting j) s h = tt

  -- A property of every thread, where one has gone on.
  pub put_all :
      (P : At W → Type 0) (at : ℕ → At W) (i : ℕ) (p : At W)
      → ((j : ℕ) → P (at j))
      → P p
      → (j : ℕ) → P (put at i p j)
  put_all P at i p all one j = elim (Bool-cases (j == i)) [
    | inl e ↦ rw e one
    | inr e ↦ rw e (all j)
  ]
