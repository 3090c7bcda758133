-- ===== src/Tests/Restarts.antt =====
-- The worker of the telemetry service, stopped and started again.
use aqua_regulator_server.Base.{◌≤◌, ◌≡◌, ◌⊎◌, inl, refl, true, false}
use aqua_regulator_server.Service.Worker.{
  absent, looping, in_round, sleeping, finished, outside, starting, joining, Threads, worker, owner,
  Step, claim, spawn, clear, join, enter, leave, sleep, wake, Reach, here, next, constructed,
}
use aqua_regulator_server.Service.Worker.Restart.{
  Alone, stay, step, steps, restart_safe, stop_waits,
}

abbrev claimed : Threads
claimed = record constructed { running = true; owner_at = starting }

abbrev at_work : Threads
at_work = record constructed { running = true; worker_at = in_round; rounds = 1 }

-- `stop` in the first round.
abbrev stopping : Threads
stopping = record at_work { running = false; owner_at = joining }

abbrev to_stopping : Reach constructed stopping
to_stopping =
    next {u = stopping} owner
      (next {u = at_work} worker
        (next {u = record claimed { owner_at = outside; worker_at = looping }} owner
          (next {u = claimed} owner here (claim refl refl refl)) (spawn refl refl))
        (enter refl refl refl))
      (clear refl refl refl)

abbrev returned : Threads
returned = record stopping { worker_at = finished }

abbrev to_returned : Alone stopping returned
to_returned =
    step {u = returned}
      (step {u = record stopping { worker_at = looping }}
        (step {u = record stopping { worker_at = sleeping }} stay (sleep refl refl))
        (wake refl refl))
      (leave refl refl refl)

stop_waits_example :
    (returned.rounds ≡ stopping.rounds)
    × (steps to_returned ≤ 3)
    × ((returned.worker_at ≡ finished) ⊎ ((u : Threads) × Step returned u worker))
stop_waits_example = stop_waits to_stopping refl to_returned

-- The second `start`.
abbrev again : Threads
again = record returned { running = true; owner_at = starting; worker_at = absent }

abbrev to_again : Reach constructed again
to_again =
    next {u = again} owner
      (next {u = record returned { owner_at = outside; worker_at = absent }} owner
        (next {u = returned} worker
          (next {u = record stopping { worker_at = looping }} worker
            (next {u = record stopping { worker_at = sleeping }} worker to_stopping
              (sleep refl refl))
            (wake refl refl))
          (leave refl refl refl))
        (join refl refl refl))
      (claim refl refl refl)

restart_safe_example : again.worker_at ≡ absent
restart_safe_example = restart_safe to_again (inl refl)
