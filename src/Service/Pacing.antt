-- ===== src/Service/Pacing.antt =====
-- services/data_manager_redis.hpp, `runLoop`: the time that its steps take.
pub mod Device
pub mod Tables
pub mod Lists
pub mod Rounds
pub mod Loads
use aqua_regulator_server.Base.{ℕ, String, ◌+◌, ◌≤◌, ◌≡◌, ◌∙◌, refl, Bytes, arith}
use aqua_regulator_server.Base.Int.{ℤ}
use aqua_regulator_server.Platform.{Platform}
use aqua_regulator_server.World.Keeps.{Keeps, IsPreorder, call-Keeps}
use aqua_regulator_server.World.{World, Action, call}

-- The time does not run backwards while a library is called, the steady clock reads it, and a sleep lasts
-- at least as long as asked.
pub record IsForward {E W J : Type 0} (lib : Platform E W J) (time : E → ℕ) : Type 0 where
  pub reads : (e : E) → time e ≤ (lib.clock.steady_now e).0
  pub read : (e : E) → (lib.clock.steady_now e).0 ≤ time (lib.clock.steady_now e).1
  pub system : (e : E) → time e ≤ time (lib.clock.system_now e).1
  pub sleeps : (n : ℕ) (e : E) → time e + n ≤ time (lib.clock.sleep_for n e)
  pub new_tcp : (ip : String) (port : ℕ) (e : E) → time e ≤ time (lib.modbus.new_tcp ip port e).1
  pub connect : (c : ℕ) (e : E) → time e ≤ time (lib.modbus.connect c e).1
  pub close : (c : ℕ) (e : E) → time e ≤ time (lib.modbus.close c e)
  pub read_registers : (c a n : ℕ) (e : E) → time e ≤ time (lib.modbus.read_registers c a n e).1
  pub init : (e : E) → time e ≤ time (lib.mysql.init e).1
  pub real_connect :
      (h : ℕ) (host user password schema : String) (port : ℕ) (e : E)
      → time e ≤ time (lib.mysql.real_connect h host user password schema port e).1
  pub ping : (h : ℕ) (e : E) → time e ≤ time (lib.mysql.ping h e).1
  pub query : (h : ℕ) (q : String) (e : E) → time e ≤ time (lib.mysql.query h q e).1
  pub store_result : (h : ℕ) (e : E) → time e ≤ time (lib.mysql.store_result h e).1
  pub close_mysql : (h : ℕ) (e : E) → time e ≤ time (lib.mysql.close h e)
  pub redis_ping : (e : E) → time e ≤ time (lib.redis.ping e).1
  pub redis_create :
      (host : String) (port : ℕ) (password : String) (d t p : ℕ) (e : E)
      → time e ≤ time (lib.redis.create host port password d t p e).1
  pub lpush : (k : String) (v : Bytes) (e : E) → time e ≤ time (lib.redis.lpush k v e).1
  pub ltrim : (k : String) (a b : ℤ) (e : E) → time e ≤ time (lib.redis.ltrim k a b e).1
  pub expire : (k : String) (n : ℕ) (e : E) → time e ≤ time (lib.redis.expire k n e).1
  pub free : (c : ℕ) (e : E) → time e ≤ time (lib.modbus.free c e)

-- No time is lost, and the intervals of the service stay.
abbrev pub Later : {E W : Type 0} → (E → ℕ) → World E W → World E W → Type 0
Later time w v = (time w.env ≤ time v.env) × (v.service.pipeline ≡ w.service.pipeline)

abbrev pub Forward : {E W A : Type 0} → (E → ℕ) → Action E W A → Type 0
Forward time m = Keeps (Later time) m

pub Later-IsPreorder : {E W : Type 0} (time : E → ℕ) → IsPreorder (Later {W = W} time)
Later-IsPreorder time = record {
  reflexive = λ w. (omega arith, refl);
  transitive = λ w v u h k. (omega (arith, h.0, k.0), k.1 ∙ h.1);
}

pub call-Forward :
    {E W A : Type 0} {time : E → ℕ} (g : E → A × E)
    → ((e : E) → time e ≤ time (g e).1)
    → Forward {W = W} time (call g)
call-Forward g h = call-Keeps g (λ w. (h w.env, refl))
