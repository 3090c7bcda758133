-- ===== src/Tests/Threads.antt =====
-- The relay of the video server at a concrete run.
use aqua_regulator_server.Base.{ℕ, ◌<◌, ◌≡◌, refl, [], ◌∷◌, ◌++◌}
use aqua_regulator_server.Video.Relay.{relay_fifo, relay_wakes, IsHung, stop_may_hang}
use aqua_regulator_server.Video.Threads.{
  testing, committed, asleep, Threads, relay_thread, callback, enter, commit, sleep, push, Reach,
  here, next, started,
}

-- The thread enters its wait and finds nothing.
abbrev testing_now : Threads ℕ
testing_now = record started { relay_at = testing }

abbrev committed_now : Threads ℕ
committed_now = record started { relay_at = committed }

abbrev asleep_now : Threads ℕ
asleep_now = record started { relay_at = asleep }

abbrev to_committed : Reach (started {P = ℕ}) committed_now
to_committed =
    next {u = committed_now} relay_thread
      (next {u = testing_now} relay_thread here (enter refl refl refl)) (commit refl refl refl refl)

abbrev to_asleep : Reach (started {P = ℕ}) asleep_now
to_asleep = next {u = asleep_now} relay_thread to_committed (sleep refl refl)

-- A packet arrives while the thread is blocked.
abbrev pushed_now : Threads ℕ
pushed_now = record asleep_now { queue = 5 ∷ []; pushed = 5 ∷ []; pending = 1 }

abbrev to_pushed : Reach (started {P = ℕ}) pushed_now
to_pushed = next {u = pushed_now} callback to_asleep (push 5 refl refl)

relay_fifo_example : pushed_now.relayed ++ pushed_now.queue ≡ pushed_now.pushed
relay_fifo_example = relay_fifo pushed_now to_pushed

relay_wakes_example : 0 < pushed_now.pending
relay_wakes_example = relay_wakes pushed_now to_pushed refl (λ e. cc)

stop_may_hang_example : (t : Threads ℕ) × Reach committed_now t × IsHung t
stop_may_hang_example = stop_may_hang committed_now refl refl refl refl
