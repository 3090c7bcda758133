-- ===== src/Monitor.antt =====
-- monitoring/health_monitor.{hpp,cxx}: the table of component states, and what is written of it.
pub mod Table
pub mod Document
pub mod Worker
use aqua_regulator_server.Base.{
  String, Bool, Option, none, some, List, [], ◌∷◌, str_eq, if◌then◌else◌, ok, err,
}
use aqua_regulator_server.Platform.{Platform}
use aqua_regulator_server.World.{HealthState, Action, call, modify, ◌>>=◌}

-- `states_[component] = state`
unfoldable pub insert :
    String → HealthState → List (String × HealthState) → List (String × HealthState)
insert k v [] = (k, v) ∷ []
insert k v ((j, u) ∷ m) = if str_eq j k then (k, v) ∷ m else (j, u) ∷ insert k v m

unfoldable pub lookup : String → List (String × HealthState) → Option HealthState
lookup k [] = none
lookup k ((j, u) ∷ m) = if str_eq j k then some u else lookup k m

module _ {E W J : Type 0} (lib : Platform E W J) where
  unfoldable pub update : String → Bool → String → Action E W (Unit {0})
  update component healthy detail = do
    now ← call lib.clock.system_now
    let state : HealthState = record { healthy = healthy; detail = detail; updated_at = now }
    modify (λ w. record w { states = insert component state w.states })

  -- The document of the states. A fresh `nlohmann::json` to which nothing is assigned stays null.
  unfoldable pub state_to_json : HealthState → J
  state_to_json state = lib.json.object (
      ("healthy", lib.json.boolean state.healthy)
      ∷ ("detail", lib.json.text state.detail)
      ∷ ("updatedAt", lib.json.natural (lib.clock.to_time_t state.updated_at))
      ∷ [])

  unfoldable pub state_fields : List (String × HealthState) → List (String × J)
  state_fields [] = []
  state_fields ((component, state) ∷ states) =
      (component, state_to_json state) ∷ state_fields states

  unfoldable pub states_to_json : List (String × HealthState) → J
  states_to_json [] = lib.json.null
  states_to_json (entry ∷ states) = lib.json.object (state_fields (entry ∷ states))

  -- `flushToDisk`, with `filePath_`; the `catch` block only logs.
  unfoldable pub flush_to_disk : String → Action E W (Unit {0})
  flush_to_disk file_path w =
      let document = states_to_json w.states in
      let (made, e) = lib.files.create_directories (lib.files.parent_path file_path) w.env in
      elim made [
        | ok u ↦ (
          tt,
          record w { env = lib.files.write_file file_path (lib.json.dump_indented 4 document) e },
        )
        | err what ↦ (tt, record w { env = e })
      ]
