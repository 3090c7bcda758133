-- ===== src/Cache/Refinement.antt =====
-- infrastructure/cache/redis_telemetry_cache.hpp against telemetry_cache.hpp: while Redis answers, the
-- two caches hold the same readings, and Redis hands them out in the opposite order.
use mathlib.Core.List.{reverse-append}
use text.Mathlib.TextPositions.{eq_refl}
use aqua_regulator_server.Base.{
  ℕ, suc, ◌≡◌, refl, ap, ap₂, sym, ◌∙◌, true, String, List, [], ◌∷◌, ◌++◌, map, reverse, Bytes, ok,
  take, All, str_eq, if◌then◌else◌, arith,
}
use aqua_regulator_server.Base.Int.{pos}
use aqua_regulator_server.Base.Slices.{last, take-reverse, map-take, All-reverse}
use aqua_regulator_server.Cache.Available.{
  IsUp, pinged, pinged_view, after, reported, view-reported, lpush_up, ltrim_up, expire_up,
  lrange_up,
}
use aqua_regulator_server.Cache.Memory
use aqua_regulator_server.Cache.Redis
use aqua_regulator_server.Cache.Redis.{build_key, last_index, decode, decode_all}
use aqua_regulator_server.Cache.Window.{IsBounded, snapshot-store}
use aqua_regulator_server.Domain.Codec.{IsJson, reading_from_json-reading_to_json}
use aqua_regulator_server.Domain.{
  TelemetryChannel, realtime, historical_environment, historical_soil, same_channel,
  TelemetryReading, reading_to_json,
}
use aqua_regulator_server.Monitor.{update}
use aqua_regulator_server.Platform.{Platform}
use aqua_regulator_server.World.{World, TelemetryCache}

same_key : (c d : TelemetryChannel) → str_eq (build_key c) (build_key d) ≡ same_channel d c
unfolding build_key
same_key realtime realtime = refl
same_key realtime historical_environment = refl
same_key realtime historical_soil = refl
same_key historical_environment realtime = refl
same_key historical_environment historical_environment = refl
same_key historical_environment historical_soil = refl
same_key historical_soil realtime = refl
same_key historical_soil historical_environment = refl
same_key historical_soil historical_soil = refl

module _ {E W J : Type 0} (lib : Platform E W J) {view : E → String → List Bytes}
    (up : IsUp lib view) where
  open up use {lpush_view, ltrim_view, expire_view}

  -- The world behind `store`.
  abbrev pushed : String → Bytes → World E W → World E W
  pushed k v w = reported lib up (lib.redis.lpush k v) "LPUSH operation successful" w

  abbrev stored : ℕ → String → Bytes → World E W → World E W
  stored n k v w =
      after lib up (lib.redis.expire k 3600)
        (after lib up (lib.redis.ltrim k (pos 0) (last_index n)) (pushed k v w))

  store_up :
      (n : ℕ) (c : TelemetryChannel) (r : TelemetryReading W) (w : World E W)
      → w.redis_client.connected ≡ true
      → Redis.store lib n c r w
        ≡ (tt, stored n (build_key c) (lib.json.dump (reading_to_json lib.json r)) w)
  unfolding Redis.store update
  store_up n c r w on =
      let k = build_key c in
      let v = lib.json.dump (reading_to_json lib.json r) in
      rw (lpush_up lib up k v w on, Redis.store)
        (rw (ltrim_up lib up k (pos 0) (last_index n) (pushed k v w) on) (
          rw (
            expire_up lib up k 3600
              (after lib up (lib.redis.ltrim k (pos 0) (last_index n)) (pushed k v w)) on)))

  at_key : (j : String) {f g : String → List Bytes} → f ≡ g → f j ≡ g j
  at_key j e = ap (λ (h : String → List Bytes). h j) e

  pushed_view :
      (k : String) (v : Bytes) (w : World E W) (j : String)
      → view (pinged lib up (pushed k v w)).env j
        ≡ (if str_eq k j then v ∷ view w.env k else view w.env j)
  pushed_view k v w j =
      let e = (pinged lib up w).env in
      let before = pinged_view lib up w in
      at_key j (
        pinged_view lib up (pushed k v w)
        ∙ view-reported lib up (lib.redis.lpush k v) "LPUSH operation successful" w)
      ∙ lpush_view k v e j
      ∙ ap₂ (λ (a b : List Bytes). if str_eq k j then v ∷ a else b) (at_key k before)
          (at_key j before)

  -- The list under each key behind `store`.
  stored_view :
      (n : ℕ) (k : String) (v : Bytes) (w : World E W) (j : String)
      → view (stored (suc n) k v w).env j
        ≡ (if str_eq k j then take (suc n) (v ∷ view w.env k) else view w.env j)
  unfolding last_index
  stored_view n k v w j =
      let w1 = pushed k v w in
      let w2 = after lib up (lib.redis.ltrim k (pos 0) (pos n)) w1 in
      let trimmed_at_j =
        at_key j (expire_view k 3600 (pinged lib up w2).env ∙ pinged_view lib up w2)
        ∙ ltrim_view k (pos n) (pinged lib up w1).env j in
      ground (arith, trimmed_at_j, pushed_view k v w j, pushed_view k v w k, eq_refl k)

-- The two caches agree: Redis holds, under the key of each channel, the encoded readings of the memory
-- cache, the newest first.
module _ {E W J : Type 0} (lib : Platform E W J) (view : E → String → List Bytes) where
  unfoldable pub encode : TelemetryReading W → Bytes
  encode r = lib.json.dump (reading_to_json lib.json r)

  pub record Agrees (w : World E W) (cache : TelemetryCache W) : Type 0 where
    pub connected : w.redis_client.connected ≡ true
    pub lists :
        (c : TelemetryChannel) → view w.env (build_key c) ≡ map encode (reverse (cache.buffer c))

module _ {E W J : Type 0} (lib : Platform E W J) {view : E → String → List Bytes}
    (up : IsUp lib view) where
  -- A bounded list pushed at the front, against a bounded buffer pushed at the back.
  window_reverse :
      (n : ℕ) (buffer : List (TelemetryReading W)) (r : TelemetryReading W)
      → take (suc n) (encode lib view r ∷ map (encode lib view) (reverse buffer))
        ≡ map (encode lib view) (reverse (last (suc n) (buffer ++ r ∷ [])))
  window_reverse n buffer r =
      map-take (encode lib view) (suc n) (r ∷ reverse buffer)
      ∙ ap (λ b. map (encode lib view) (take (suc n) b)) (sym (reverse-append buffer (r ∷ [])))
      ∙ ap (map (encode lib view)) (take-reverse (suc n) (buffer ++ r ∷ []))

  stored_buffer :
      (n : ℕ) (cache : TelemetryCache W) (c : TelemetryChannel) (r : TelemetryReading W)
      (d : TelemetryChannel)
      → cache.capacity ≡ suc n
      → IsBounded cache
      → (Memory.store cache c r).buffer d
        ≡ (if same_channel d c then last (suc n) (cache.buffer c ++ r ∷ []) else cache.buffer d)
  unfolding Memory.snapshot
  stored_buffer n cache c r d cap bounded =
      snapshot-store cache c r d (bounded.bound c)
      ∙ ap
          (λ (m : ℕ).
            if same_channel d c then last m (cache.buffer c ++ r ∷ []) else cache.buffer d)
          cap

  store_lists :
      (n : ℕ) (cache : TelemetryCache W) (c : TelemetryChannel) (r : TelemetryReading W)
      (w : World E W) (d : TelemetryChannel)
      → cache.capacity ≡ suc n
      → IsBounded cache
      → Agrees lib view w cache
      → view (stored lib up cache.capacity (build_key c) (encode lib view r) w).env (build_key d)
        ≡ map (encode lib view) (reverse ((Memory.store cache c r).buffer d))
  unfolding encode
  store_lists n cache c r w d cap bounded agrees =
      let k = build_key c in
      let v = encode lib view r in
      ap (λ (m : ℕ). view (stored lib up m k v w).env (build_key d)) cap
      ∙ stored_view lib up n k v w (build_key d)
      ∙ ground (
        arith,
        same_key c d,
        agrees.lists c,
        agrees.lists d,
        window_reverse n (cache.buffer c) r,
        stored_buffer n cache c r d cap bounded,
      )

  -- While Redis answers: if Redis holds under the key of each channel the encoded readings of the
  -- memory cache, the newest first, then it does so again after a reading is stored in both, for a
  -- memory cache within its capacity and a capacity above 0.
  pub store-Agrees :
      (n : ℕ) (cache : TelemetryCache W) (c : TelemetryChannel) (r : TelemetryReading W)
      (w : World E W)
      → cache.capacity ≡ suc n
      → IsBounded cache
      → Agrees lib view w cache
      → Agrees lib view (Redis.store lib cache.capacity c r w).1 (Memory.store cache c r)
  unfolding encode update
  store-Agrees n cache c r w cap bounded agrees =
      rw (store_up lib up cache.capacity c r w agrees.connected) (record {
        connected = agrees.connected;
        lists = λ d. store_lists n cache c r w d cap bounded agrees;
      })

  -- What `dump` writes for these readings, `parse` reads back.
  abbrev pub Parses : List (TelemetryReading W) → Type 0
  Parses = All (λ r. lib.json.parse (encode lib view r) ≡ ok (reading_to_json lib.json r))

  decode-encode :
      (law : IsJson lib.json) (rs : List (TelemetryReading W))
      → Parses rs
      → decode_all lib (map (encode lib view) rs) ≡ rs
  unfolding decode_all decode
  decode-encode law [] parses = refl
  decode-encode law (r ∷ rs) parses = ground (
    arith,
    parses.0,
    reading_from_json-reading_to_json lib.json law lib.real r,
    decode-encode law rs parses.1,
  )

  -- While Redis answers and the two caches agree, the snapshot of a channel from Redis is that from
  -- memory in the opposite order, if `parse` reads back what `dump` wrote for the readings of the
  -- channel and `value` finds the fields of an object.
  pub snapshot_reversed :
      (law : IsJson lib.json) (cache : TelemetryCache W) (c : TelemetryChannel) (w : World E W)
      → Parses (Memory.snapshot cache c)
      → Agrees lib view w cache
      → (Redis.snapshot lib c w).0 ≡ reverse (Memory.snapshot cache c)
  unfolding Redis.snapshot Memory.snapshot
  snapshot_reversed law cache c w parses agrees =
      ap (λ (p : List Bytes × World E W). decode_all lib p.0)
        (lrange_up lib up (build_key c) w agrees.connected)
      ∙ ap (decode_all lib) (at_key lib up (build_key c) (pinged_view lib up w) ∙ agrees.lists c)
      ∙ decode-encode law (reverse (cache.buffer c)) (All-reverse _ (cache.buffer c) parses)
