-- ===== src/Config/Reload.antt =====
-- core/configuration.cxx: when the manager reloads, and what a file that does not load leaves.
use aqua_regulator_server.Base.{
  ◌≡◌, String, Bool, false, List, [], ◌∷◌, ◌++◌, Bytes, ok, err, arith,
}
use aqua_regulator_server.Config.{Configuration, build_default_config}
use aqua_regulator_server.Config.Manager.{
  Loader, run, load_sections, from_json, load_from_disk, set_config, set_time, reload_if_changed,
}
use aqua_regulator_server.Platform.{Platform}
use aqua_regulator_server.World.{World}

run_stops :
    (fs gs : List Loader) (g : Loader) (c c' c'' : Configuration) (what : String)
    → run fs c ≡ (ok tt, c')
    → g c' ≡ (err what, c'')
    → run (fs ++ g ∷ gs) c ≡ (err what, c'')
unfolding run
run_stops [] gs g c c' c'' what h stop = ground arith
run_stops (f ∷ fs) gs g c c' c'' what h stop = ground (arith, run_stops fs gs g (f c).1 c' c'' what)

module _ {E W J : Type 0} (lib : Platform E W J) where
  -- Where a section of the file throws, the configuration is what the sections before it and its own
  -- fields before the exception have filled.
  pub from_json_stops :
      (text : Bytes) (j : J) (fs gs : List Loader) (g : Loader) (c c' : Configuration)
      (what : String)
      → lib.json.parse text ≡ ok j
      → load_sections lib j ≡ fs ++ g ∷ gs
      → run fs build_default_config ≡ (ok tt, c)
      → g c ≡ (err what, c')
      → from_json lib text ≡ c'
  unfolding from_json
  from_json_stops text j fs gs g c c' what parsed sections h stop =
      ground (arith, run_stops fs gs g build_default_config c c' what h stop)

  -- After a call of `reloadIfChanged` that returns, if the time of the file is still what that call
  -- first read, the next call returns false and leaves the members of the manager.
  reload_settles :
      (w w' : World E W) (changed : Bool)
      → reload_if_changed lib w ≡ (ok changed, w')
      → (lib.files.last_write_time w'.manager.path w'.env).0
        ≡ (lib.files.last_write_time w.manager.path w.env).0
      → ((reload_if_changed lib w').0 ≡ ok false)
        × ((reload_if_changed lib w').1.manager ≡ w'.manager)
  unfolding reload_if_changed load_from_disk set_config set_time
  reload_settles w w' changed h same = ground arith
