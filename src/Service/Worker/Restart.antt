-- ===== src/Service/Worker/Restart.antt =====
-- services/data_manager_redis.hpp: `start` and `stop` in every order.
use aqua_regulator_server.Base.{ℕ, ◌+◌, ◌≤◌, ◌≡◌, ◌≢◌, refl, true, false, ◌⊎◌, inl, inr, arith}
use aqua_regulator_server.Service.Worker.{
  WorkerAt, absent, looping, in_round, sleeping, finished, outside, starting, joining, Threads,
  Actor, worker, Step, start_again, claim, spawn, stop_again, clear, join, enter, leave, sleep,
  wake, Reach, here, next, constructed,
}

pub record Inv (s : Threads) : Type 0 where
  pub idle : s.owner_at ≡ outside → s.running ≡ false → s.worker_at ≡ absent
  pub claimed : s.owner_at ≡ starting → (s.running ≡ true) × (s.worker_at ≡ absent)
  pub stopping : s.owner_at ≡ joining → (s.running ≡ false) × (s.worker_at ≢ absent)
  pub going :
      s.owner_at ≡ outside → s.running ≡ true → (s.worker_at ≢ absent) × (s.worker_at ≢ finished)

constructed-Inv : Inv constructed
constructed-Inv = record {
  idle = λ o r. refl;
  claimed = λ o. cc;
  stopping = λ o. cc;
  going = λ o r. cc;
}

Step-Inv : {s t : Threads} {a : Actor} → Step s t a → Inv s → Inv t
Step-Inv (start_again o r to) v = ground (arith, v.idle, v.claimed, v.stopping, v.going)
Step-Inv (claim o r to) v = ground (arith, v.idle, v.claimed, v.stopping, v.going)
Step-Inv (spawn o to) v = ground (arith, v.idle, v.claimed, v.stopping, v.going)
Step-Inv (stop_again o r to) v = ground (arith, v.idle, v.claimed, v.stopping, v.going)
Step-Inv (clear o r to) v = ground (arith, v.idle, v.claimed, v.stopping, v.going)
Step-Inv (join o w to) v = ground (arith, v.idle, v.claimed, v.stopping, v.going)
Step-Inv (enter w r to) v = ground (arith, v.idle, v.claimed, v.stopping, v.going)
Step-Inv (leave w r to) v = ground (arith, v.idle, v.claimed, v.stopping, v.going)
Step-Inv (sleep w to) v = ground (arith, v.idle, v.claimed, v.stopping, v.going)
Step-Inv (wake w to) v = ground (arith, v.idle, v.claimed, v.stopping, v.going)

Reach-Inv : {s t : Threads} → Reach s t → Inv s → Inv t
Reach-Inv here v = v
Reach-Inv (next a r st) v = Step-Inv st (Reach-Inv r v)

-- Whatever calls of `start` and `stop` were made, in any order and however the worker ran between them:
-- when `start` makes its thread, the object holds none that is not joined, so that the assignment does
-- not end the process; and whenever `stop` has returned and `start` was not called since, no thread is
-- left.
pub restart_safe :
    {s : Threads}
    → Reach constructed s
    → (s.owner_at ≡ starting) ⊎ ((s.owner_at ≡ outside) × (s.running ≡ false))
    → s.worker_at ≡ absent
restart_safe r (inl o) = ((Reach-Inv r constructed-Inv).claimed o).1
restart_safe r (inr (o, off)) = (Reach-Inv r constructed-Inv).idle o off

-- The worker alone makes steps, while the owner waits.
pub data Alone (s : Threads) : Threads → Type 0 where
  stay : Alone s s
  step : {t u : Threads} → Alone s t → Step t u worker → Alone s u

abbrev pub steps : {s t : Threads} → Alone s t → ℕ
steps stay = 0
steps (step r st) = 1 + steps r

-- How many steps the worker still makes once `running_` is false.
abbrev left : WorkerAt → ℕ
left absent = 0
left in_round = 3
left sleeping = 2
left looping = 1
left finished = 0

abbrev Waiting : Threads → Type 0
Waiting s = (s.running ≡ false) × (s.owner_at ≡ joining) × (s.worker_at ≢ absent)

Step-Waiting :
    {s t : Threads}
    → Step s t worker
    → Waiting s
    → Waiting t × (t.rounds ≡ s.rounds) × (1 + left t.worker_at ≤ left s.worker_at)
Step-Waiting (enter w r to) v = ground arith
Step-Waiting (leave w r to) v = ground arith
Step-Waiting (sleep w to) v = ground arith
Step-Waiting (wake w to) v = ground arith

Alone-Waiting :
    {s t : Threads} (r : Alone s t)
    → Waiting s
    → Waiting t × (t.rounds ≡ s.rounds) × (steps r + left t.worker_at ≤ left s.worker_at)
Alone-Waiting stay v = (v, refl, ground arith)
Alone-Waiting (step r st) v =
    let (w, same, le) = Alone-Waiting r v in
    let (x, also, lt) = Step-Waiting st w in (x, ground arith, ground arith)

left-le : (w : WorkerAt) → left w ≤ 3
left-le absent = ground arith
left-le looping = ground arith
left-le in_round = ground arith
left-le sleeping = ground arith
left-le finished = ground arith

at-moves :
    (s : Threads) (w : WorkerAt)
    → s.worker_at ≡ w
    → Waiting s
    → (s.worker_at ≡ finished) ⊎ ((t : Threads) × Step s t worker)
at-moves s absent e v = absurd (v.2 e)
at-moves s looping e v = inr (_, leave e v.0 refl)
at-moves s in_round e v = inr (_, sleep e refl)
at-moves s sleeping e v = inr (_, wake e refl)
at-moves s finished e v = inl e

-- Once `stop` was called, no further round begins, and the worker returns behind at most three steps of
-- its own: it ends its round, sleeps out and leaves the loop. Until it has returned, for which `stop`
-- waits, it has a step.
pub stop_waits :
    {s t : Threads}
    → Reach constructed s
    → s.owner_at ≡ joining
    → (r : Alone s t)
    → (t.rounds ≡ s.rounds)
      × (steps r ≤ 3)
      × ((t.worker_at ≡ finished) ⊎ ((u : Threads) × Step t u worker))
stop_waits {s = s} {t = t} before o r =
    let inv = Reach-Inv before constructed-Inv in
    let (off, here_yet) = inv.stopping o in
    let (w, same, le) = Alone-Waiting r (off, o, here_yet) in
    (same, ground (arith, left-le s.worker_at), at-moves t t.worker_at refl w)
