-- ===== src/Service/Pacing/Tables.antt =====
-- infrastructure/database: the time that its steps take.
use aqua_regulator_server.Config.{DatabaseConfig}
use aqua_regulator_server.Base.{
  reverse, true, false, Option, none, [], Option-cases, inl, inr, Result, ℕ, String, ◌≤◌, refl, ok,
  arith,
}
use aqua_regulator_server.Platform.{Platform, Row}
use aqua_regulator_server.Database
use aqua_regulator_server.Domain.{TelemetryReading}
use aqua_regulator_server.Service.Pacing.{IsForward, Forward, Later-IsPreorder, call-Forward}
use aqua_regulator_server.World.Keeps.{
  pure-Keeps, attempt-Keeps, gets-Keeps, modify-Keeps, bind-Keeps, if-Keeps, option-Keeps,
}

module _ {E W J : Type 0} (lib : Platform E W J) (time : E → ℕ) (f : IsForward lib time) where
  set_handle-Forward : (h : Option ℕ) → Forward time (Database.set_handle lib h)
  unfolding Database.set_handle
  set_handle-Forward h = record { later = λ w. (omega arith, refl) }

  initialize_client-Forward : Forward time (Database.initialize_client lib)
  unfolding Database.initialize_client
  initialize_client-Forward =
      (bind-Keeps (Later-IsPreorder time)) (call-Forward lib.mysql.init f.init) λ handle.
        (bind-Keeps (Later-IsPreorder time)) (set_handle-Forward handle) λ _.
          option-Keeps handle ((pure-Keeps (Later-IsPreorder time)) false)
            (λ h. (pure-Keeps (Later-IsPreorder time)) true)

  with_handle-Forward :
      {A : Type 0} (absent : A) (g : ℕ → E → A × E)
      → ((h : ℕ) (e : E) → time e ≤ time (g h e).1)
      → Forward time (Database.with_handle lib absent g)
  unfolding Database.with_handle
  with_handle-Forward absent g h = record {
    later = λ w. elim (Option-cases w.repository.handle) [
      | inl e ↦ rw (Database.with_handle, e) (omega arith, refl)
      | inr (c, e) ↦ rw (Database.with_handle, e) (h c w.env, refl)
    ];
  }

  have_handle-Forward : Forward time (Database.have_handle lib)
  unfolding Database.have_handle
  have_handle-Forward = record {
    later = λ w. elim (Option-cases w.repository.handle) [
      | inl e ↦ rw (Database.have_handle, e) (initialize_client-Forward.later w)
      | inr (c, e) ↦ rw (Database.have_handle, e) (omega arith, refl)
    ];
  }

  connect_database-Forward : (cfg : DatabaseConfig) → Forward time (Database.connect lib cfg)
  unfolding Database.connect
  connect_database-Forward cfg =
      (bind-Keeps (Later-IsPreorder time))
        (modify-Keeps (λ w. record w { repository = record (w.repository) { config = cfg } })
          (λ w. (omega arith, refl)))
        λ _. (bind-Keeps (Later-IsPreorder time)) have_handle-Forward λ ready.
          if-Keeps ready
            (with_handle-Forward false
              (λ h. lib.mysql.real_connect h cfg.host cfg.user cfg.password cfg.schema cfg.port)
              (λ h. f.real_connect h cfg.host cfg.user cfg.password cfg.schema cfg.port))
            ((pure-Keeps (Later-IsPreorder time)) false)

  disconnect-Forward : Forward time (Database.disconnect lib)
  unfolding Database.disconnect Database.set_handle
  disconnect-Forward = record {
    later = λ w. elim (Option-cases w.repository.handle) [
      | inl e ↦ rw (Database.disconnect, e) (omega arith, refl)
      | inr (c, e) ↦ rw (Database.disconnect, e) (f.close_mysql c w.env, refl)
    ];
  }

  reopen-Forward : Forward time (Database.reopen lib)
  unfolding Database.reopen
  reopen-Forward = (bind-Keeps (Later-IsPreorder time)) disconnect-Forward λ _.
      (bind-Keeps (Later-IsPreorder time)) initialize_client-Forward λ ready.
        (bind-Keeps (Later-IsPreorder time))
          ((gets-Keeps (Later-IsPreorder time)) (λ w. w.repository.config))
          λ cfg.
            (bind-Keeps (Later-IsPreorder time)) (connect_database-Forward cfg)
              λ connected. (pure-Keeps (Later-IsPreorder time)) tt

  ping-Forward : Forward time (Database.ping lib)
  unfolding Database.ping
  ping-Forward = with_handle-Forward false lib.mysql.ping f.ping

  refresh-Forward : Forward time (Database.refresh_connection lib)
  unfolding Database.refresh_connection
  refresh-Forward =
      (bind-Keeps (Later-IsPreorder time))
        ((gets-Keeps (Later-IsPreorder time)) (Database.is_connected lib))
        λ open_handle.
          (bind-Keeps (Later-IsPreorder time))
            (if-Keeps open_handle ping-Forward ((pure-Keeps (Later-IsPreorder time)) false))
            λ alive. if-Keeps alive ((pure-Keeps (Later-IsPreorder time)) tt) reopen-Forward

  execute-Forward : (query : String) → Forward time (Database.execute lib query)
  unfolding Database.execute
  execute-Forward query = (bind-Keeps (Later-IsPreorder time)) have_handle-Forward λ ready.
      if-Keeps ready
        (with_handle-Forward false (λ h. lib.mysql.query h query) (λ h. f.query h query))
        ((pure-Keeps (Later-IsPreorder time)) false)

  store_result-Forward : Forward time (Database.store_result lib)
  unfolding Database.store_result
  store_result-Forward = with_handle-Forward none lib.mysql.store_result f.store_result

  pub load-Forward :
      (build : Row → Result (TelemetryReading W)) (query : String)
      → Forward time (Database.load lib build query)
  unfolding Database.load
  load-Forward build query = (bind-Keeps (Later-IsPreorder time)) refresh-Forward λ _.
      (bind-Keeps (Later-IsPreorder time)) (execute-Forward query) λ executed.
        if-Keeps executed
          ((bind-Keeps (Later-IsPreorder time)) store_result-Forward λ res.
            option-Keeps res ((pure-Keeps (Later-IsPreorder time)) (ok [])) (λ rows.
              (attempt-Keeps (Later-IsPreorder time))
                (Database.map_ok reverse (Database.build_all lib build rows))))
          ((pure-Keeps (Later-IsPreorder time)) (ok []))
