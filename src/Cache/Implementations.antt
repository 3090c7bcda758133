-- ===== src/Cache/Implementations.antt =====
-- infrastructure/cache/telemetry_cache.hpp and redis_telemetry_cache.hpp: both caches keep the contract, and
-- differ in the order in which they hand out a channel.
use aqua_regulator_server.Base.{
  ℕ, suc, ◌≤◌, ◌≡◌, refl, ap, sym, ◌∙◌, String, List, [], ◌∷◌, ◌++◌, reverse, Bytes, ok, subst,
  length, All, Bool-cases, inl, inr,
}
use aqua_regulator_server.Base.Slices.{last}
use aqua_regulator_server.Cache.Available.{IsUp}
use aqua_regulator_server.Cache.Contract.{
  Window, add, Cache, Stores, of_channel, store_each, stores_lem,
}
use aqua_regulator_server.Cache.Memory
use aqua_regulator_server.Cache.Redis
use aqua_regulator_server.Cache.Refinement.{encode, Agrees, store-Agrees, snapshot_reversed, Parses}
use aqua_regulator_server.Cache.Window.{IsBounded, snapshot-store, store-IsBounded}
use aqua_regulator_server.Domain.Codec.{IsJson}
use aqua_regulator_server.Domain.{
  TelemetryChannel, same_channel, same_channel-eq, TelemetryReading, reading_to_json,
}
use aqua_regulator_server.Platform.{Platform}
use aqua_regulator_server.World.{World, TelemetryCache}

module _ {W : Type 0} where
  -- The memory cache holds a window as it stands.
  pub record MemoryHolds (n : ℕ) (cache : TelemetryCache W) (m : Window W) : Type 0 where
    pub bounded : IsBounded cache
    pub capacity : cache.capacity ≡ n
    pub same : (c : TelemetryChannel) → cache.buffer c ≡ m c

  stored_same :
      (n : ℕ) (c : TelemetryChannel) (r : TelemetryReading W) (cache : TelemetryCache W)
      (m : Window W) (d : TelemetryChannel)
      → MemoryHolds n cache m
      → (Memory.store cache c r).buffer d ≡ add n c r m d
  unfolding Memory.snapshot
  stored_same n c r cache m d h =
      snapshot-store cache c r d (h.bounded.bound c) ∙ elim (Bool-cases (same_channel d c)) [
        | inl e ↦ rw e (
            ap (λ (k : ℕ). last k (cache.buffer c ++ r ∷ [])) h.capacity
            ∙ ap (λ b. last n (b ++ r ∷ []))
                (ap (λ x. cache.buffer x) (sym (same_channel-eq d c e)) ∙ h.same d))
        | inr e ↦ rw e (h.same d)
      ]

  pub memory_store :
      (n : ℕ) (c : TelemetryChannel) (r : TelemetryReading W) (cache : TelemetryCache W)
      (m : Window W)
      → MemoryHolds n cache m
      → MemoryHolds n (Memory.store cache c r) (add n c r m)
  unfolding Memory.store
  memory_store n c r cache m h = record {
    bounded = store-IsBounded cache c r h.bounded;
    capacity = h.capacity;
    same = λ d. stored_same n c r cache m d h;
  }

  pub memory_bounded :
      (n : ℕ) (cache : TelemetryCache W) (m : Window W) (c : TelemetryChannel)
      → MemoryHolds n cache m
      → length (m c) ≤ n
  memory_bounded n cache m c h =
      subst (λ xs. length xs ≤ n) (h.same c)
        (subst (λ k. length (cache.buffer c) ≤ k) h.capacity (h.bounded.bound c))

  pub memory_snapshot :
      (c : TelemetryChannel) (n : ℕ) (cache : TelemetryCache W) (m : Window W)
      → MemoryHolds n cache m
      → Memory.snapshot cache c ≡ m c
  unfolding Memory.snapshot
  memory_snapshot c n cache m h = h.same c

  window-Fits : (rs : List (TelemetryReading W)) → All (λ r. Unit {0}) rs
  window-Fits [] = tt
  window-Fits (r ∷ rs) = (tt, window-Fits rs)

  abbrev pub memory_cache : (n : ℕ) → Cache W n
  memory_cache n = record {
    State = TelemetryCache W;
    Holds = MemoryHolds n;
    Fits = λ r. Unit {0};
    store = λ c r cache. Memory.store cache c r;
    snapshot = λ c cache. Memory.snapshot cache c;
    store_holds = memory_store n;
    arrange = λ rs. rs;
    snapshot_holds = λ c cache m h fits. memory_snapshot c n cache m h;
    bounded = memory_bounded n;
  }

module _ {E W J : Type 0} (lib : Platform E W J) {view : E → String → List Bytes}
    (up : IsUp lib view) (law : IsJson lib.json) where
  -- The Redis cache holds a window as the encoded readings, the newest first.
  pub record RedisHolds (n : ℕ) (w : World E W) (m : Window W) : Type 0 where
    pub held : TelemetryCache W
    pub agrees : Agrees lib view w held
    pub memory : MemoryHolds n held m

  pub redis_store :
      (n : ℕ) (c : TelemetryChannel) (r : TelemetryReading W) (w : World E W) (m : Window W)
      → RedisHolds (suc n) w m
      → RedisHolds (suc n) (Redis.store lib (suc n) c r w).1 (add (suc n) c r m)
  redis_store n c r w m h = record {
    held = Memory.store h.held c r;
    agrees =
        subst (λ k. Agrees lib view (Redis.store lib k c r w).1 (Memory.store h.held c r))
          h.memory.capacity
          (store-Agrees lib up n h.held c r w h.memory.capacity h.memory.bounded h.agrees);
    memory = memory_store (suc n) c r h.held m h.memory;
  }

  pub redis_snapshot :
      (c : TelemetryChannel) (n : ℕ) (w : World E W) (m : Window W)
      → RedisHolds n w m
      → Parses lib up (m c)
      → (Redis.snapshot lib c w).0 ≡ reverse (m c)
  redis_snapshot c n w m h parses =
      let same = memory_snapshot c n h.held m h.memory in
      snapshot_reversed lib up law h.held c w (subst (Parses lib up) (sym same) parses) h.agrees
      ∙ ap reverse same

  abbrev pub redis_cache : (n : ℕ) → Cache W (suc n)
  redis_cache n = record {
    State = World E W;
    Holds = RedisHolds (suc n);
    Fits = λ r. lib.json.parse (encode lib view r) ≡ ok (reading_to_json lib.json r);
    store = λ c r w. (Redis.store lib (suc n) c r w).1;
    snapshot = λ c w. (Redis.snapshot lib c w).0;
    store_holds = redis_store n;
    arrange = reverse;
    snapshot_holds = λ c w m h fits. redis_snapshot c (suc n) w m h fits;
    bounded = λ w m c h. memory_bounded (suc n) h.held m c h.memory;
  }

  -- While Redis answers and no key in it expires: if Redis holds under the key of each channel the
  -- encoded readings of a memory cache within its capacity, the newest first, and the capacity is above
  -- 0, then after any stores into any channels of both caches the memory cache hands a channel out as
  -- the newest of the readings it held and of those stored into it, up to the capacity, the oldest
  -- first, and Redis hands out the same readings, the newest first, if `parse` reads back what `dump`
  -- wrote for those readings and `value` finds the fields of an object.
  pub both_caches :
      (n : ℕ) (cache : TelemetryCache W) (w : World E W) (xs : Stores W) (c : TelemetryChannel)
      → cache.capacity ≡ suc n
      → IsBounded cache
      → Agrees lib view w cache
      → Parses lib up (last (suc n) (Memory.snapshot cache c ++ of_channel c xs))
      → ((Redis.snapshot lib c (store_each (redis_cache n) xs w)).0
          ≡ reverse (last (suc n) (Memory.snapshot cache c ++ of_channel c xs)))
        × (Memory.snapshot (store_each (memory_cache (suc n)) xs cache) c
            ≡ last (suc n) (Memory.snapshot cache c ++ of_channel c xs))
  unfolding Memory.snapshot
  both_caches n cache w xs c size bounded agrees parses =
      let m = cache.buffer in
      let h : MemoryHolds (suc n) cache m = record {
        bounded = bounded;
        capacity = size;
        same = λ d. refl;
      } in
      (
        stores_lem (redis_cache n) xs w m c (record { held = cache; agrees = agrees; memory = h })
            parses,
        stores_lem (memory_cache (suc n)) xs cache m c h (window-Fits _),
      )
