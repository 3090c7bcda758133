-- ===== src/Cache/Available.antt =====
-- infrastructure/cache/redis_client.hpp while the server answers: the documented effect of the commands
-- on the lists that Redis holds, and what the client's operations then do.
use aqua_regulator_server.Base.{
  ℕ, suc, ◌≡◌, ◌∙◌, true, String, List, ◌∷◌, Bytes, ok, take, str_eq, if◌then◌else◌, arith,
}
use aqua_regulator_server.Base.Int.{ℤ, pos, negsuc}
use aqua_regulator_server.Cache.Client.{
  ensure_connection, still_alive, guarded, lpush, ltrim, lrange, expire,
}
use aqua_regulator_server.Monitor.{update}
use aqua_regulator_server.Platform.{Platform}
use aqua_regulator_server.World.{World, Throwing}

-- LTRIM key 0 stop, where -1 is the last element.
abbrev pub trimmed : ℤ → List Bytes → List Bytes
trimmed (pos stop) xs = take (suc stop) xs
trimmed (negsuc n) xs = xs

-- A server that answers every command; `view` is the list that it holds under a key. No list expires
-- between the calls.
pub record IsUp {E W J : Type 0} (lib : Platform E W J) (view : E → String → List Bytes)
    : Type 0 where
  pub ping_ok : (e : E) → (lib.redis.ping e).0 ≡ ok tt
  pub lpush_ok : (k : String) (v : Bytes) (e : E) → (lib.redis.lpush k v e).0 ≡ ok tt
  pub ltrim_ok : (k : String) (a b : ℤ) (e : E) → (lib.redis.ltrim k a b e).0 ≡ ok tt
  pub expire_ok : (k : String) (n : ℕ) (e : E) → (lib.redis.expire k n e).0 ≡ ok tt
  pub lrange_ok : (k : String) (e : E) → (lib.redis.lrange k (pos 0) (negsuc 0) e).0 ≡ ok (view e k)
  pub ping_view : (e : E) → view (lib.redis.ping e).1 ≡ view e
  pub lpush_view :
      (k : String) (v : Bytes) (e : E) (j : String)
      → view (lib.redis.lpush k v e).1 j ≡ (if str_eq k j then v ∷ view e k else view e j)
  pub ltrim_view :
      (k : String) (stop : ℤ) (e : E) (j : String)
      → view (lib.redis.ltrim k (pos 0) stop e).1 j
        ≡ (if str_eq k j then trimmed stop (view e k) else view e j)
  pub expire_view : (k : String) (n : ℕ) (e : E) → view (lib.redis.expire k n e).1 ≡ view e
  pub lrange_view : (k : String) (e : E) → view (lib.redis.lrange k (pos 0) (negsuc 0) e).1 ≡ view e
  pub steady_view : (e : E) → view (lib.clock.steady_now e).1 ≡ view e
  pub system_view : (e : E) → view (lib.clock.system_now e).1 ≡ view e

module _ {E W J : Type 0} (lib : Platform E W J) {view : E → String → List Bytes}
    (up : IsUp lib view) where
  open up use {
    ping_ok, lpush_ok, ltrim_ok, expire_ok, lrange_ok, ping_view, lpush_view, ltrim_view,
    expire_view, lrange_view, steady_view, system_view,
  }

  -- The world behind `ensureConnection`: the clock read, and the ping.
  abbrev pub pinged : World E W → World E W
  pinged w = record w { env = (lib.redis.ping (lib.clock.steady_now w.env).1).1 }

  ensure_up :
      (w : World E W) → w.redis_client.connected ≡ true → ensure_connection lib w ≡ (true, pinged w)
  unfolding ensure_connection still_alive
  ensure_up w c = ground (arith, ping_ok (lib.clock.steady_now w.env).1)

  pub pinged_view : (w : World E W) → view (pinged w).env ≡ view w.env
  pinged_view w = ping_view (lib.clock.steady_now w.env).1 ∙ steady_view w.env

  -- An operation whose command does not throw is its body, behind the ping.
  guarded_up :
      {A : Type 0} (prefix : String) (fallback a : A) (body : Throwing E W A) (w w' : World E W)
      → w.redis_client.connected ≡ true
      → body (pinged w) ≡ (ok a, w')
      → guarded lib prefix fallback body w ≡ (a, w')
  unfolding guarded
  guarded_up prefix fallback a body w w' c e = ground (arith, ensure_up w c)

  -- The world behind a command `f` of Redis, and behind one that is reported to the health monitor.
  abbrev pub after : {A : Type 0} → (E → A × E) → World E W → World E W
  after f w = record (pinged w) { env = (f (pinged w).env).1 }

  abbrev pub reported : {A : Type 0} → (E → A × E) → String → World E W → World E W
  reported f detail w = (update lib "redis_client" true detail (after f w)).1

  pub view-reported :
      {A : Type 0} (f : E → A × E) (detail : String) (w : World E W)
      → view (reported f detail w).env ≡ view (f (pinged w).env).1
  unfolding update
  view-reported f detail w = system_view (f (pinged w).env).1

  pub lpush_up :
      (k : String) (v : Bytes) (w : World E W)
      → w.redis_client.connected ≡ true
      → lpush lib k v w ≡ (true, reported (lib.redis.lpush k v) "LPUSH operation successful" w)
  unfolding lpush
  lpush_up k v w c = guarded_up _ _ _ _ _ _ c (ground (arith, lpush_ok k v (pinged w).env))

  pub ltrim_up :
      (k : String) (a b : ℤ) (w : World E W)
      → w.redis_client.connected ≡ true
      → ltrim lib k a b w ≡ (true, after (lib.redis.ltrim k a b) w)
  unfolding ltrim
  ltrim_up k a b w c = guarded_up _ _ _ _ _ _ c (ground (arith, ltrim_ok k a b (pinged w).env))

  pub expire_up :
      (k : String) (n : ℕ) (w : World E W)
      → w.redis_client.connected ≡ true
      → expire lib k n w ≡ (true, after (lib.redis.expire k n) w)
  unfolding expire
  expire_up k n w c = guarded_up _ _ _ _ _ _ c (ground (arith, expire_ok k n (pinged w).env))

  pub lrange_up :
      (k : String) (w : World E W)
      → w.redis_client.connected ≡ true
      → lrange lib k (pos 0) (negsuc 0) w ≡ (
        view (pinged w).env k,
        reported (lib.redis.lrange k (pos 0) (negsuc 0)) "LRANGE operation successful" w,
      )
  unfolding lrange
  lrange_up k w c = guarded_up _ _ _ _ _ _ c (ground (arith, lrange_ok k (pinged w).env))
