-- ===== src/Monitor/Table.antt =====
-- monitoring/health_monitor.cxx: the table of states as a map, and what `update` changes.
use text.Mathlib.TextPositions.{eq_refl}
use aqua_regulator_server.Base.{
  String, Bool, ◌≡◌, refl, some, List, [], ◌∷◌, str_eq, eq_iff, if◌then◌else◌, arith,
}
use aqua_regulator_server.Monitor.{insert, lookup, update}
use aqua_regulator_server.Platform.{Platform}
use aqua_regulator_server.World.{World, HealthState}

pub lookup-insert :
    (k j : String) (v : HealthState) (m : List (String × HealthState))
    → lookup j (insert k v m) ≡ (if str_eq k j then some v else lookup j m)
unfolding lookup insert
lookup-insert k j v [] = refl
lookup-insert k j v ((i, u) ∷ m) =
    ground (arith, eq_iff k j, eq_iff i k, eq_iff i j, lookup-insert k j v m)

module _ {E W J : Type 0} (lib : Platform E W J) where
  -- An update sets the entry of its component to the given state with the time read from the system
  -- clock, and leaves the entry of every other component.
  pub lookup-update :
      (component : String) (healthy : Bool) (detail : String) (w : World E W) (j : String)
      → lookup j (update lib component healthy detail w).1.states ≡ (
          if str_eq component j
          then some (record {
            healthy = healthy;
            detail = detail;
            updated_at = (lib.clock.system_now w.env).0;
          })
          else lookup j w.states)
  unfolding update
  lookup-update component healthy detail w j = lookup-insert component j _ w.states

  pub update-healthy :
      (component : String) (healthy : Bool) (detail : String) (w : World E W)
      → lookup component (update lib component healthy detail w).1.states
        ≡ some (record {
          healthy = healthy;
          detail = detail;
          updated_at = (lib.clock.system_now w.env).0;
        })
  update-healthy component healthy detail w = simp (lookup-update, eq_refl)

  pub gateway-update :
      (component : String) (healthy : Bool) (detail : String) (w : World E W)
      → (update lib component healthy detail w).1.gateway ≡ w.gateway
  unfolding update
  gateway-update component healthy detail w = refl

pub lookup-insert_self :
    (k : String) (v : HealthState) (m : List (String × HealthState))
    → lookup k (insert k v m) ≡ some v
lookup-insert_self k v m = simp (lookup-insert, eq_refl)
