-- ===== src/Tests/Shutdown.antt =====
-- The health monitor and its worker at a concrete run.
use aqua_regulator_server.Base.{ℕ, ◌≤◌, ◌≡◌, ◌⊎◌, inl, refl, true, false, List, [], ◌∷◌, ◌++◌}
use aqua_regulator_server.Monitor.Worker.{
  looping, flushing, writing, sleeping, last_flushing, last_writing, finished, starting, joining,
  returned, Monitoring, worker, owner, component, claim, spawn, enter, leave, copy, store, wake,
  last_copy, last_store, clear, join, update, UntilReturned, begin, then, Reach, here, next,
  constructed,
}
use aqua_regulator_server.Monitor.Worker.Shutdown.{
  stop_flushes, stop_ends, own_steps, Until-Reach, Moves,
}

abbrev begun : Monitoring ℕ
begun = record constructed { running = true; worker_at = looping }

abbrev to_begun : Reach (constructed {U = ℕ}) begun
to_begun =
    next {u = begun} owner
      (next {u = record constructed { running = true; owner_at = starting }} owner here
        (claim (inl refl) refl refl))
      (spawn refl refl)

-- An update while the worker writes a copy without it, and then `stop`.
abbrev stopping_now : Monitoring ℕ
stopping_now = record begun {
  running = false;
  worker_at = writing [];
  owner_at = joining;
  updates = 1 ∷ [];
  at_stop = 1 ∷ [];
}

abbrev to_stopping : Reach (constructed {U = ℕ}) stopping_now
to_stopping =
    next {u = stopping_now} owner
      (next {u = record begun { worker_at = writing []; updates = 1 ∷ [] }} component
        (next {u = record begun { worker_at = writing [] }} worker
          (next {u = record begun { worker_at = flushing }} worker to_begun (enter refl refl refl))
          (copy refl refl))
        (update 1 refl))
      (clear refl refl refl)

-- One more update, which the last copy contains.
abbrev stored_now : Monitoring ℕ
stored_now = record stopping_now { worker_at = sleeping; updates = 1 ∷ 2 ∷ [] }

abbrev to_stored : UntilReturned stopping_now stored_now
to_stored =
    then {u = stored_now} worker
      (then {u = record stopping_now { updates = 1 ∷ 2 ∷ [] }} component begin refl (update 2 refl))
      refl (store [] refl refl)

abbrev copied_now : Monitoring ℕ
copied_now = record stored_now { worker_at = last_writing (1 ∷ 2 ∷ []) }

abbrev to_copied : UntilReturned stopping_now copied_now
to_copied =
    then {u = copied_now} worker
      (then {u = record stored_now { worker_at = last_flushing }} worker
        (then {u = record stored_now { worker_at = looping }} worker to_stored refl
          (wake refl refl))
        refl (leave refl refl refl))
      refl (last_copy refl refl)

abbrev ended_now : Monitoring ℕ
ended_now = record copied_now { worker_at = finished; owner_at = returned; written = 1 ∷ 2 ∷ [] }

abbrev to_ended : UntilReturned stopping_now ended_now
to_ended =
    then {u = ended_now} owner
      (then {u = record copied_now { worker_at = finished; written = 1 ∷ 2 ∷ [] }} worker to_copied
        refl (last_store (1 ∷ 2 ∷ []) refl refl))
      refl (join refl refl refl)

stop_flushes_example :
    (ended_now.failed ≡ true)
    ⊎ ((since rest : List ℕ) × ((ended_now.written ≡ ended_now.at_stop ++ since)
          × (ended_now.updates ≡ ended_now.written ++ rest)))
stop_flushes_example = stop_flushes (Until-Reach to_stopping to_ended) refl

stop_ends_example : (own_steps to_ended ≤ 7) × ((ended_now.owner_at ≡ returned) ⊎ Moves ended_now)
stop_ends_example = stop_ends to_stopping refl to_ended
