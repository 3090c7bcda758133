-- ===== src/Cache/Window.antt =====
-- infrastructure/cache/telemetry_cache.hpp: each channel holds the newest readings, up to the capacity.
use aqua_regulator_server.Base.{
  ℕ, ◌-◌, ◌≤◌, ◌≡◌, refl, ap, sym, ◌∙◌, true, false, List, [], ◌∷◌, ◌++◌, append_assoc, append-nil,
  length, length-append, drop, if◌then◌else◌, ltb, ltb→lt, arith, Bool-cases, inl, inr,
}
use aqua_regulator_server.Base.Slices.{last, last_all, length-last-le, last-last-append}
use aqua_regulator_server.Cache.Memory.{push, store, snapshot}
use aqua_regulator_server.Domain.{
  TelemetryChannel, realtime, historical_environment, historical_soil, same_channel,
  TelemetryReading,
}
use aqua_regulator_server.World.{TelemetryCache}

-- No channel holds more than the capacity.
pub record IsBounded {W : Type 0} (cache : TelemetryCache W) : Type 0 where
  pub bound : (c : TelemetryChannel) → length (cache.buffer c) ≤ cache.capacity

same_channel_refl : (c : TelemetryChannel) → same_channel c c ≡ true
same_channel_refl realtime = refl
same_channel_refl historical_environment = refl
same_channel_refl historical_soil = refl

module _ {W : Type 0} where
  push-eq-last :
      (cache : TelemetryCache W) (c : TelemetryChannel) (r : TelemetryReading W)
      → length (cache.buffer c) ≤ cache.capacity
      → push cache c r ≡ last cache.capacity (cache.buffer c ++ r ∷ [])
  unfolding push last
  push-eq-last cache c r h =
      let full = length-append (cache.buffer c) (r ∷ []) in
      elim (Bool-cases (ltb cache.capacity (length (cache.buffer c ++ r ∷ [])))) [
        | inl e ↦
            let one : 1 ≡ length (cache.buffer c ++ r ∷ []) - cache.capacity =
              omega (arith, full, ltb→lt _ _ e) in
            rw (e, push) (ap (λ (n : ℕ). drop n (cache.buffer c ++ r ∷ [])) one)
        | inr e ↦
            rw (e, push)
              (sym (last_all cache.capacity (cache.buffer c ++ r ∷ []) (ground (arith, full))))
      ]

  -- Storing into a channel that holds at most the capacity keeps the newest readings of it, as many as
  -- the capacity allows, in the order they came, and leaves the other channels alone.
  pub snapshot-store :
      (cache : TelemetryCache W) (c : TelemetryChannel) (r : TelemetryReading W)
      (d : TelemetryChannel)
      → length (cache.buffer c) ≤ cache.capacity
      → snapshot (store cache c r) d ≡ (
          if same_channel d c
          then last cache.capacity (snapshot cache c ++ r ∷ [])
          else snapshot cache d)
  unfolding snapshot store
  snapshot-store cache c r d h = ground (arith, push-eq-last cache c r h)

  -- Storing a reading in a cache within its capacity keeps every channel within it, the channel
  -- stored into and the others.
  pub store-IsBounded :
      (cache : TelemetryCache W) (c : TelemetryChannel) (r : TelemetryReading W)
      → IsBounded cache
      → IsBounded (store cache c r)
  unfolding store
  store-IsBounded cache c r h = record {
    bound = λ d. ground (
      arith,
      push-eq-last cache c r (h.bound c),
      length-last-le cache.capacity (cache.buffer c ++ r ∷ []),
      h.bound d,
    );
  }

  stored :
      (cache : TelemetryCache W) (c : TelemetryChannel) (r : TelemetryReading W)
      → IsBounded cache
      → snapshot (store cache c r) c ≡ last cache.capacity (cache.buffer c ++ r ∷ [])
  unfolding snapshot store
  stored cache c r h = rw same_channel_refl (push-eq-last cache c r (h.bound c))

  -- Any number of readings stored one after the other into one channel.
  unfoldable pub store_all :
      TelemetryCache W → TelemetryChannel → List (TelemetryReading W) → TelemetryCache W
  store_all cache c [] = cache
  store_all cache c (r ∷ rs) = store_all (store cache c r) c rs

  pub store_all-IsBounded :
      (cache : TelemetryCache W) (c : TelemetryChannel) (rs : List (TelemetryReading W))
      → IsBounded cache
      → IsBounded (store_all cache c rs)
  unfolding store_all
  store_all-IsBounded cache c [] h = h
  store_all-IsBounded cache c (r ∷ rs) h =
      store_all-IsBounded (store cache c r) c rs (store-IsBounded cache c r h)

  pub store_all-capacity :
      (cache : TelemetryCache W) (c : TelemetryChannel) (rs : List (TelemetryReading W))
      → (store_all cache c rs).capacity ≡ cache.capacity
  unfolding store_all store
  store_all-capacity cache c [] = refl
  store_all-capacity cache c (r ∷ rs) = store_all-capacity (store cache c r) c rs

  pub snapshot-store_all_other :
      (cache : TelemetryCache W) (c d : TelemetryChannel) (rs : List (TelemetryReading W))
      → same_channel d c ≡ false
      → snapshot (store_all cache c rs) d ≡ snapshot cache d
  unfolding store_all store snapshot
  snapshot-store_all_other cache c d [] h = refl
  snapshot-store_all_other cache c d (r ∷ rs) h =
      snapshot-store_all_other (store cache c r) c d rs h ∙ ground arith

  -- After any readings are stored one after the other into a channel of a cache within its
  -- capacity, the channel holds the newest of what it held before and of them, up to the capacity,
  -- the oldest first.
  pub snapshot-store_all :
      (cache : TelemetryCache W) (c : TelemetryChannel) (rs : List (TelemetryReading W))
      → IsBounded cache
      → snapshot (store_all cache c rs) c ≡ last cache.capacity (snapshot cache c ++ rs)
  unfolding snapshot store_all store
  snapshot-store_all cache c [] h = sym (
      ap (last cache.capacity) (append-nil (cache.buffer c))
      ∙ last_all cache.capacity (cache.buffer c) (h.bound c))
  snapshot-store_all cache c (r ∷ rs) h =
      snapshot-store_all (store cache c r) c rs (store-IsBounded cache c r h)
      ∙ ap (λ (b : List (TelemetryReading W)). last cache.capacity (b ++ rs)) (stored cache c r h)
      ∙ last-last-append cache.capacity (cache.buffer c ++ r ∷ []) rs
      ∙ ap (last cache.capacity) (append_assoc (cache.buffer c) (r ∷ []) rs)
