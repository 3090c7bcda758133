-- ===== src/Cache/Contract.antt =====
-- infrastructure/cache: what the telemetry service asks of a cache, whichever of the two it uses: a bounded
-- window of the newest readings of each channel, and the order in which it hands them out.
use aqua_regulator_server.Base.{
  ℕ, ◌≤◌, ◌≡◌, ap, sym, ◌∙◌, List, [], ◌∷◌, ◌++◌, append_assoc, append-nil, subst, length, All,
  if◌then◌else◌, Bool-cases, inl, inr,
}
use aqua_regulator_server.Base.Slices.{last, last-last-append, last_all, length-last-le}
use aqua_regulator_server.Domain.{TelemetryChannel, same_channel, TelemetryReading}

-- The readings of each channel, the oldest first.
abbrev pub Window : Type 0 → Type 0
Window W = TelemetryChannel → List (TelemetryReading W)

abbrev pub add : {W : Type 0} → ℕ → TelemetryChannel → TelemetryReading W → Window W → Window W
add n c r m d = if same_channel d c then last n (m d ++ r ∷ []) else m d

-- A cache of `n` readings to a channel: its states, how they stand for a window, and that its two
-- operations do what they do to the window. `Fits` are the readings that it can hold, and `arrange` is
-- the order in which it hands out a channel, whose readings come the oldest first.
pub record Cache (W : Type 0) (n : ℕ) : Type 1 where
  pub State : Type 0
  pub Holds : State → Window W → Type 0
  pub Fits : TelemetryReading W → Type 0
  pub store : TelemetryChannel → TelemetryReading W → State → State
  pub snapshot : TelemetryChannel → State → List (TelemetryReading W)
  pub store_holds :
      (c : TelemetryChannel) (r : TelemetryReading W) (s : State) (m : Window W)
      → Holds s m
      → Holds (store c r s) (add n c r m)
  pub arrange : List (TelemetryReading W) → List (TelemetryReading W)
  pub snapshot_holds :
      (c : TelemetryChannel) (s : State) (m : Window W)
      → Holds s m
      → All Fits (m c)
      → snapshot c s ≡ arrange (m c)
  pub bounded : (s : State) (m : Window W) (c : TelemetryChannel) → Holds s m → length (m c) ≤ n

abbrev pub Stores : Type 0 → Type 0
Stores W = List (TelemetryChannel × TelemetryReading W)

-- The readings that were stored into a channel.
abbrev pub of_channel : {W : Type 0} → TelemetryChannel → Stores W → List (TelemetryReading W)
of_channel c [] = []
of_channel c ((d, r) ∷ rest) =
    let others = of_channel c rest in if same_channel c d then r ∷ others else others

module _ {W : Type 0} {n : ℕ} (cache : Cache W n) where
  open cache use {
    State, Holds, Fits, store, snapshot, arrange, store_holds, snapshot_holds, bounded,
  }

  abbrev pub store_each : Stores W → State → State
  store_each [] s = s
  store_each ((c, r) ∷ rest) s = store_each rest (store c r s)

  abbrev add_each : Stores W → Window W → Window W
  add_each [] m = m
  add_each ((c, r) ∷ rest) m = add_each rest (add n c r m)

  store_each-holds :
      (xs : Stores W) (s : State) (m : Window W)
      → Holds s m
      → Holds (store_each xs s) (add_each xs m)
  store_each-holds [] s m h = h
  store_each-holds ((c, r) ∷ rest) s m h =
      store_each-holds rest (store c r s) (add n c r m) (store_holds c r s m h)

  -- What a channel holds behind any stores.
  add_each-last :
      (c : TelemetryChannel) (xs : Stores W) (m : Window W)
      → length (m c) ≤ n
      → add_each xs m c ≡ last n (m c ++ of_channel c xs)
  add_each-last c [] m h = sym (ap (last n) (append-nil (m c)) ∙ last_all n (m c) h)
  add_each-last c ((d, r) ∷ rest) m h =
      let behind = of_channel c rest in
      let added = m c ++ r ∷ [] in
      let ih = add_each-last c rest (add n d r m) in
      elim (Bool-cases (same_channel c d)) [
        | inl e ↦ rw e (
            ih (rw e (length-last-le n added))
            ∙ rw e (
                last-last-append n added behind ∙ ap (last n) (append_assoc (m c) (r ∷ []) behind)))
        | inr e ↦ rw e (ih (rw e h) ∙ rw e)
      ]

  -- Behind any stores into any channels, a channel is handed out as the newest of the readings that it
  -- held and that were stored into it, in the order of the cache.
  pub stores_lem :
      (xs : Stores W) (s : State) (m : Window W) (c : TelemetryChannel)
      → Holds s m
      → All Fits (last n (m c ++ of_channel c xs))
      → snapshot c (store_each xs s) ≡ arrange (last n (m c ++ of_channel c xs))
  stores_lem xs s m c h fits =
      let e = add_each-last c xs m (bounded s m c h) in
      snapshot_holds c (store_each xs s) (add_each xs m) (store_each-holds xs s m h)
        (subst (All Fits) (sym e) fits)
      ∙ ap arrange e
