-- ===== src/Monitor/Document.antt =====
-- monitoring/health_monitor.cxx, `flushToDisk`: what the file says of a component.
use aqua_regulator_server.Base.{
  ◌≡◌, refl, String, Bool, false, none, some, List, [], ◌∷◌, ok, str_eq, arith,
}
use aqua_regulator_server.Domain.Codec.{field}
use aqua_regulator_server.Monitor.{
  lookup, insert, update, state_to_json, state_fields, states_to_json, flush_to_disk,
}
use aqua_regulator_server.Monitor.Table.{lookup-insert, lookup-insert_self}
use aqua_regulator_server.Platform.{Platform}
use aqua_regulator_server.World.{HealthState, World}

module _ {E W J : Type 0} (lib : Platform E W J) where
  -- A component's member of the document is its entry of the table.
  pub field-state_fields :
      (k : String) (states : List (String × HealthState))
      → field k (state_fields lib states)
        ≡ elim (lookup k states) [ none ↦ none | some state ↦ some (state_to_json lib state) ]
  unfolding field state_fields lookup
  field-state_fields k [] = refl
  field-state_fields k ((j, u) ∷ states) = ground (arith, field-state_fields k states)

  insert-fields :
      (k : String) (v : HealthState) (states : List (String × HealthState))
      → states_to_json lib (insert k v states)
        ≡ lib.json.object (state_fields lib (insert k v states))
  unfolding insert states_to_json
  insert-fields k v [] = refl
  insert-fields k v ((j, u) ∷ states) = ground arith

  -- If the directory can be created, the file that is written behind an update holds an object in
  -- which the component has the given state and the time of the update, and every other component has
  -- what the table had for it before.
  pub flush_to_disk-update :
      (component : String) (healthy : Bool) (detail file_path : String) (w : World E W) (e : E)
      → lib.files.create_directories
          (lib.files.parent_path file_path)
          (lib.clock.system_now w.env).1
        ≡ (ok tt, e)
      → let w' = (update lib component healthy detail w).1 in
        let fields = state_fields lib w'.states in
        (flush_to_disk lib file_path w' ≡ (
          tt,
          record w' {
            env =
                lib.files.write_file file_path
                  (lib.json.dump_indented 4 (lib.json.object fields))
                  e;
          },
        ))
        × (field component fields
            ≡ some (
                state_to_json lib (record {
                  healthy = healthy;
                  detail = detail;
                  updated_at = (lib.clock.system_now w.env).0;
                })))
        × ((j : String)
            → str_eq component j ≡ false
            → field j fields ≡ field j (state_fields lib w.states))
  unfolding flush_to_disk update
  flush_to_disk-update component healthy detail file_path w e made =
      let v : HealthState = record {
        healthy = healthy;
        detail = detail;
        updated_at = (lib.clock.system_now w.env).0;
      } in
      (
        ground (arith, insert-fields component v w.states),
        rw
            (
              field-state_fields component (insert component v w.states),
              lookup-insert_self component v w.states,
            )
            refl,
        λ j other. rw (
          field-state_fields j (insert component v w.states),
          field-state_fields j w.states,
          lookup-insert component j v w.states,
          other,
        ),
      )
