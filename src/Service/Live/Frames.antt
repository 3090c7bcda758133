-- ===== src/Service/Live/Frames.antt =====
-- services/data_manager_redis.hpp and transport/tcp_data_sender.hpp: properties of all frames that a
-- thread holds, and of all that are sent.
use aqua_regulator_server.Base.{
  ℕ, sym, ap, List, [], ◌∷◌, ◌++◌, ◌==◌, inl, inr, subst, All, Bool-cases,
}
use aqua_regulator_server.Base.Members.{In}
use aqua_regulator_server.Domain.{TelemetryReading, TelemetryFrame}
use aqua_regulator_server.Service.Live.{
  Batch, At, idle, storing, numbering, publishing, copying, sending, listing, reading, stamping,
  unlisting, proceed, realtime_round, historical_round, others,
}

module _ {W : Type 0} where
  -- All frames that a thread holds.
  abbrev pub Frames : (TelemetryFrame W → Type 0) → At W → Type 0
  Frames P idle = Unit {0}
  Frames P (storing items bs) = Unit {0}
  Frames P (numbering bs) = Unit {0}
  Frames P (publishing f fs bs) = P f × All P fs
  Frames P (copying f fs bs) = P f × All P fs
  Frames P (sending ids f fs bs) = P f × All P fs
  Frames P (listing j) = Unit {0}
  Frames P (reading cs fs) = All P fs
  Frames P (stamping d rs cs fs) = All P fs
  Frames P (unlisting j) = Unit {0}

  abbrev pub Sent : (TelemetryFrame W → Type 0) → List (ℕ × TelemetryFrame W) → Type 0
  Sent P xs = All (λ x. P x.1) xs

  module _ (P Q : TelemetryFrame W → Type 0) (weaken : (f : TelemetryFrame W) → P f → Q f) where
    All-weaken : (fs : List (TelemetryFrame W)) → All P fs → All Q fs
    All-weaken [] h = tt
    All-weaken (f ∷ fs) h = (weaken f h.0, All-weaken fs h.1)

    pub All-snoc :
        (fs : List (TelemetryFrame W)) (f : TelemetryFrame W)
        → All P fs
        → Q f
        → All Q (fs ++ f ∷ [])
    All-snoc [] f h k = (k, tt)
    All-snoc (g ∷ fs) f h k = (weaken g h.0, All-snoc fs f h.1 k)

    pub Sent-weaken : (xs : List (ℕ × TelemetryFrame W)) → Sent P xs → Sent Q xs
    Sent-weaken [] h = tt
    Sent-weaken (x ∷ xs) h = (weaken x.1 h.0, Sent-weaken xs h.1)

    pub Frames-weaken : (p : At W) → Frames P p → Frames Q p
    Frames-weaken idle h = tt
    Frames-weaken (storing items bs) h = tt
    Frames-weaken (numbering bs) h = tt
    Frames-weaken (publishing f fs bs) h = (weaken f h.0, All-weaken fs h.1)
    Frames-weaken (copying f fs bs) h = (weaken f h.0, All-weaken fs h.1)
    Frames-weaken (sending ids f fs bs) h = (weaken f h.0, All-weaken fs h.1)
    Frames-weaken (listing j) h = tt
    Frames-weaken (reading cs fs) h = All-weaken fs h
    Frames-weaken (stamping d rs cs fs) h = All-weaken fs h
    Frames-weaken (unlisting j) h = tt

  pub Sent-snoc :
      (P : TelemetryFrame W → Type 0) (xs : List (ℕ × TelemetryFrame W)) (j : ℕ)
      (f : TelemetryFrame W)
      → Sent P xs
      → P f
      → Sent P (xs ++ (j, f) ∷ [])
  Sent-snoc P [] j f h k = (k, tt)
  Sent-snoc P (x ∷ xs) j f h k = (h.0, Sent-snoc P xs j f h.1 k)

  pub Sent-others :
      (P : TelemetryFrame W → Type 0) (xs : List (ℕ × TelemetryFrame W)) (id : ℕ)
      → Sent P xs
      → Sent P (others id xs)
  unfolding others
  Sent-others P [] id h = tt
  Sent-others P ((j, f) ∷ xs) id h = elim (Bool-cases (j == id)) [
    | inl e ↦ rw (e, others) (Sent-others P xs id h.1)
    | inr e ↦ rw (e, others) (h.0, Sent-others P xs id h.1)
  ]

  pub Sent-In :
      (P : TelemetryFrame W → Type 0) (xs : List (ℕ × TelemetryFrame W)) (j : ℕ)
      (f : TelemetryFrame W)
      → Sent P xs
      → In (j, f) xs
      → P f
  Sent-In P [] j f h m = absurd m
  Sent-In P (x ∷ xs) j f h m = elim m [
    | inl e ↦ subst P (ap (λ (y : ℕ × TelemetryFrame W). y.1) (sym e)) h.0
    | inr n ↦ Sent-In P xs j f h.1 n
  ]

  pub proceed-Frames :
      (P : TelemetryFrame W → Type 0) (fs : List (TelemetryFrame W)) (bs : List (Batch W))
      → All P fs
      → Frames P (proceed fs bs)
  unfolding proceed
  proceed-Frames P [] bs h = tt
  proceed-Frames P (f ∷ fs) bs h = h

  pub realtime_round-Frames :
      (P : TelemetryFrame W → Type 0) (r : TelemetryReading W) → Frames P (realtime_round r)
  unfolding realtime_round
  realtime_round-Frames P r = tt

  pub historical_round-Frames :
      (P : TelemetryFrame W → Type 0) (env soil : List (TelemetryReading W))
      → Frames P (historical_round env soil)
  unfolding historical_round
  historical_round-Frames P env soil = tt
