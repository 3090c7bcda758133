-- ===== src/Tests/Locks.antt =====
-- The mutexes at a concrete run.
use aqua_regulator_server.Base.{◌+◌, ◌≡◌, refl, List, [], ◌∷◌, ◌⊎◌}
use aqua_regulator_server.Locks.{
  redis_client, logger, health_monitor, lock, unlock, log, Operation, flush_to_disk, use_redis,
  reports, actions, program, Thread, locks, Step, turn, here, next,
}
use aqua_regulator_server.Locks.Progress.{Finished, never_deadlocked}

-- A thread pushes to Redis and logs, another writes the health file.
abbrev programs : List (List Operation)
programs = (use_redis (log ∷ []) ∷ []) ∷ (flush_to_disk ∷ []) ∷ []

abbrev writer : Thread
writer = record { held = []; todo = lock health_monitor ∷ unlock health_monitor ∷ [] }

abbrev pusher : Thread
pusher = record {
  held = redis_client ∷ [];
  todo = lock logger ∷ unlock logger ∷ unlock redis_client ∷ [];
}

-- The first of them has locked the Redis client.
never_deadlocked_example :
    (Finished (pusher ∷ writer ∷ []) ⊎ ((t : List Thread) × Step (pusher ∷ writer ∷ []) t))
    × (1 + 5 ≡ 6)
unfolding program actions reports
never_deadlocked_example =
    never_deadlocked programs (pusher ∷ writer ∷ [])
      (next here (turn [] (writer ∷ []) _ pusher refl (locks redis_client _ refl refl refl) refl))
