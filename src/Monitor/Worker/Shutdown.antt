-- ===== src/Monitor/Worker/Shutdown.antt =====
-- monitoring/health_monitor.cxx: what the file shows when `stop` returns, and that it returns.
use aqua_regulator_server.Base.{
  ℕ, ◌≤◌, ◌≡◌, ◌≢◌, ◌⊎◌, inl, inr, refl, ap, Bool, true, false, List, [], ◌∷◌, ◌++◌, ◌+◌, take,
  length, subst, arith,
}
use aqua_regulator_server.Monitor.Worker.{
  WorkerAt, absent, looping, flushing, writing, sleeping, last_flushing, last_writing, finished,
  OwnerAt, outside, starting, joining, returned, Monitoring, Actor, worker, owner, component, Step,
  started, stopped, claim, spawn, enter, leave, copy, store, fail, wake, last_copy, last_store,
  last_fail, clear, join, update, UntilReturned, begin, then, Reach, here, next, constructed,
}

-- `us` begins with `early`.
abbrev pub Begins : {U : Type 0} → List U → List U → Type 0
Begins early us = take (length early) us ≡ early

Begins-append : {U : Type 0} (early us vs : List U) → Begins early us → Begins early (us ++ vs)
Begins-append [] us vs h = refl
Begins-append (x ∷ early) [] vs h = cc
Begins-append (x ∷ early) (y ∷ us) vs h = ground (arith, Begins-append early us vs)

Begins-self : {U : Type 0} (us : List U) → Begins us us
Begins-self [] = refl
Begins-self (x ∷ us) = ap (λ vs. x ∷ vs) (Begins-self us)

Begins-more :
    {U : Type 0} (early us : List U) → Begins early us → (more : List U) × (us ≡ early ++ more)
Begins-more [] us h = (us, refl)
Begins-more (x ∷ early) [] h = cc
Begins-more (x ∷ early) (y ∷ us) h =
    let (more, e) = Begins-more early us (ground arith) in (more, ground arith)

abbrev past_loop : {T : Type 0} → WorkerAt T → Bool
past_loop absent = false
past_loop looping = false
past_loop flushing = false
past_loop (writing us) = false
past_loop sleeping = false
past_loop last_flushing = true
past_loop (last_writing us) = true
past_loop finished = true

-- What holds of the last copy, and of the file behind it, unless a writing failed.
abbrev Last : {U : Type 0} → Monitoring U → WorkerAt (List U) → Type 0
Last s (last_writing us) = Begins s.at_stop us × Begins us s.updates
Last s finished = (s.failed ≡ true) ⊎ Begins s.at_stop s.written × Begins s.written s.updates
Last s absent = Unit {0}
Last s looping = Unit {0}
Last s flushing = Unit {0}
Last s (writing us) = Unit {0}
Last s sleeping = Unit {0}
Last s last_flushing = Unit {0}

Last-update :
    {U : Type 0} (s : Monitoring U) (w : WorkerAt (List U)) (u : U)
    → Last s w
    → Last (record s { updates = s.updates ++ (u ∷ []) }) w
Last-update s (last_writing us) u (h, k) = (h, Begins-append us s.updates (u ∷ []) k)
Last-update s finished u h = elim h [
  | inl f ↦ inl f
  | inr (k, m) ↦ inr (k, Begins-append s.written s.updates (u ∷ []) m)
]
Last-update s absent u h = tt
Last-update s looping u h = tt
Last-update s flushing u h = tt
Last-update s (writing us) u h = tt
Last-update s sleeping u h = tt
Last-update s last_flushing u h = tt

-- The worker leaves its loop only once `stop` has begun; then the updates up to the call of `stop` are
-- among those made.
pub record Inv {U : Type 0} (s : Monitoring U) : Type 0 where
  pub stopping :
      past_loop s.worker_at ≡ true
      → (s.owner_at ≡ joining) ⊎ (s.owner_at ≡ returned) ⊎ (s.owner_at ≡ starting)
  pub claimed : s.owner_at ≡ starting → s.running ≡ true
  pub unclaimed : s.owner_at ≡ starting → (s.worker_at ≡ absent) ⊎ (s.worker_at ≡ finished)
  pub begun :
      s.running ≡ false
      → (s.owner_at ≡ outside) × (s.worker_at ≡ absent)
        ⊎ (s.owner_at ≡ joining)
        ⊎ (s.owner_at ≡ returned)
  pub lost :
      s.worker_at ≡ absent → (s.running ≡ false) × (s.owner_at ≡ outside) ⊎ (s.owner_at ≡ starting)
  pub ended : s.owner_at ≡ returned → s.worker_at ≡ finished
  pub quiet : s.owner_at ≡ joining → s.running ≡ false
  pub rested : s.owner_at ≡ returned → s.running ≡ false
  pub kept : Begins s.at_stop s.updates
  pub last : Last s s.worker_at

constructed-Inv : {U : Type 0} → Inv (constructed {U = U})
constructed-Inv = record {
  stopping = λ e. cc;
  claimed = λ e. cc;
  unclaimed = λ e. cc;
  begun = λ e. inl (refl, refl);
  lost = λ e. inl (refl, refl);
  ended = λ e. cc;
  quiet = λ e. cc;
  rested = λ e. cc;
  kept = refl;
  last = tt;
}

Step-Inv : {U : Type 0} {s t : Monitoring U} {a : Actor} → Step s t a → Inv s → Inv t
Step-Inv (started o r to) v = rw to v
Step-Inv (stopped o r to) v = rw to v
Step-Inv (claim o r to) v = ground (
  arith, v.stopping, v.claimed, v.unclaimed, v.begun, v.lost, v.ended, v.quiet, v.rested, v.kept,
  v.last,
)
Step-Inv (spawn o to) v = ground (
  arith, v.stopping, v.claimed, v.unclaimed, v.begun, v.lost, v.ended, v.quiet, v.rested, v.kept,
  v.last,
)
Step-Inv (enter w r to) v = ground (
  arith, v.stopping, v.claimed, v.unclaimed, v.begun, v.lost, v.ended, v.quiet, v.rested, v.kept,
  v.last,
)
Step-Inv (leave w r to) v = ground (
  arith, v.stopping, v.claimed, v.unclaimed, v.begun, v.lost, v.ended, v.quiet, v.rested, v.kept,
  v.last,
)
Step-Inv (copy w to) v = ground (
  arith, v.stopping, v.claimed, v.unclaimed, v.begun, v.lost, v.ended, v.quiet, v.rested, v.kept,
  v.last,
)
Step-Inv (store us w to) v = ground (
  arith, v.stopping, v.claimed, v.unclaimed, v.begun, v.lost, v.ended, v.quiet, v.rested, v.kept,
  v.last,
)
Step-Inv (fail us w to) v = ground (
  arith, v.stopping, v.claimed, v.unclaimed, v.begun, v.lost, v.ended, v.quiet, v.rested, v.kept,
  v.last,
)
Step-Inv (wake w to) v = ground (
  arith, v.stopping, v.claimed, v.unclaimed, v.begun, v.lost, v.ended, v.quiet, v.rested, v.kept,
  v.last,
)
Step-Inv {s = s} (last_copy w to) v = ground (
  arith,
  Begins-self s.updates,
  v.stopping,
  v.claimed,
  v.unclaimed,
  v.begun,
  v.lost,
  v.ended,
  v.quiet,
  v.rested,
  v.kept,
  v.last,
)
Step-Inv (last_store us w to) v = ground (
  arith, v.stopping, v.claimed, v.unclaimed, v.begun, v.lost, v.ended, v.quiet, v.rested, v.kept,
  v.last,
)
Step-Inv (last_fail us w to) v = ground (
  arith, v.stopping, v.claimed, v.unclaimed, v.begun, v.lost, v.ended, v.quiet, v.rested, v.kept,
  v.last,
)
Step-Inv {s = s} (clear o r to) v = ground (
  arith,
  v.stopping,
  v.claimed,
  v.unclaimed,
  v.begun,
  v.lost,
  v.ended,
  v.quiet,
  v.rested,
  v.kept,
  v.last,
  Begins-self s.updates,
)
Step-Inv (join o w to) v = ground (
  arith, v.stopping, v.claimed, v.unclaimed, v.begun, v.lost, v.ended, v.quiet, v.rested, v.kept,
  v.last,
)
Step-Inv {s = s} (update u to) v = ground (
  arith,
  v.stopping,
  v.claimed,
  v.unclaimed,
  v.begun,
  v.lost,
  v.ended,
  v.quiet,
  v.rested,
  v.kept,
  v.last,
  Begins-append s.at_stop s.updates (u ∷ []) v.kept,
  Last-update s s.worker_at u v.last,
)

Reach-Inv : {U : Type 0} {s t : Monitoring U} → Reach s t → Inv s → Inv t
Reach-Inv here v = v
Reach-Inv (next a r st) v = Step-Inv st (Reach-Inv r v)

-- When a `stop` that found the monitor running has returned, whatever the components, the worker and the
-- owner did before and in which order, with any number of calls of `start` and `stop`: the last writing of
-- the file failed, or the file shows the updates made up to some moment behind the call of this `stop`:
-- all that were made before it, in their order, and a first part of those made since.
pub stop_flushes :
    {U : Type 0} {s : Monitoring U}
    → Reach constructed s
    → s.owner_at ≡ returned
    → (s.failed ≡ true)
      ⊎ ((since rest : List U) × ((s.written ≡ s.at_stop ++ since)
            × (s.updates ≡ s.written ++ rest)))
stop_flushes {s = s} r o =
    let v = Reach-Inv r constructed-Inv in
    elim (subst (Last s) (v.ended o) v.last) [
      | inl f ↦ inl f
      | inr (h, k) ↦
          let (since, e) = Begins-more s.at_stop s.written h in
          let (rest, d) = Begins-more s.written s.updates k in inr (since, rest, (e, d))
    ]

-- How many steps the worker still makes once `running_` is false, and the owner in `stop`.
abbrev worker_left : {T : Type 0} → WorkerAt T → ℕ
worker_left absent = 0
worker_left flushing = 6
worker_left (writing us) = 5
worker_left sleeping = 4
worker_left looping = 3
worker_left last_flushing = 2
worker_left (last_writing us) = 1
worker_left finished = 0

abbrev owner_left : OwnerAt → ℕ
owner_left outside = 1
owner_left starting = 1
owner_left joining = 1
owner_left returned = 0

-- The steps of the worker and of the owner in a run.
abbrev own : Actor → ℕ
own worker = 1
own owner = 1
own component = 0

abbrev pub own_steps : {U : Type 0} {s t : Monitoring U} → UntilReturned s t → ℕ
own_steps begin = 0
own_steps (then a r o st) = own a + own_steps r

abbrev Stopping : {U : Type 0} → Monitoring U → Type 0
Stopping s = (s.running ≡ false) × ((s.owner_at ≡ joining) ⊎ (s.owner_at ≡ returned))

Step-left :
    {U : Type 0} {s t : Monitoring U} {a : Actor}
    → Step s t a
    → s.running ≡ false
    → s.owner_at ≡ joining
    → Stopping t
      × (own a + (worker_left t.worker_at + owner_left t.owner_at)
          ≤ worker_left s.worker_at + owner_left s.owner_at)
Step-left (started o r to) q j = ground arith
Step-left (stopped o r to) q j = ground arith
Step-left (claim o r to) q j = ground arith
Step-left (spawn o to) q j = ground arith
Step-left (enter w r to) q j = ground arith
Step-left (leave w r to) q j = ground arith
Step-left (copy w to) q j = ground arith
Step-left (store us w to) q j = ground arith
Step-left (fail us w to) q j = ground arith
Step-left (wake w to) q j = ground arith
Step-left (last_copy w to) q j = ground arith
Step-left (last_store us w to) q j = ground arith
Step-left (last_fail us w to) q j = ground arith
Step-left (clear o r to) q j = ground arith
Step-left (join o w to) q j = ground arith
Step-left (update u to) q j = ground arith

Until-left :
    {U : Type 0} {s t : Monitoring U} (r : UntilReturned s t)
    → Stopping s
    → Stopping t
      × (own_steps r + (worker_left t.worker_at + owner_left t.owner_at)
          ≤ worker_left s.worker_at + owner_left s.owner_at)
Until-left begin v = (v, ground arith)
Until-left (then a r j st) v =
    let (w, le) = Until-left r v in let (x, lt) = Step-left st w.0 j in (x, ground arith)

pub Until-Reach : {U : Type 0} {r s t : Monitoring U} → Reach r s → UntilReturned s t → Reach r t
Until-Reach before begin = before
Until-Reach before (then a run o st) = next a (Until-Reach before run) st

most_left : {T : Type 0} (w : WorkerAt T) → worker_left w ≤ 6
most_left absent = ground arith
most_left looping = ground arith
most_left flushing = ground arith
most_left (writing us) = ground arith
most_left sleeping = ground arith
most_left last_flushing = ground arith
most_left (last_writing us) = ground arith
most_left finished = ground arith

-- The worker or the owner has a step.
abbrev pub Moves : {U : Type 0} → Monitoring U → Type 0
Moves s = (a : Actor) × ((a ≢ component) × ((t : _) × Step s t a))

at-Moves :
    {U : Type 0} (s : Monitoring U) (w : WorkerAt (List U))
    → s.worker_at ≡ w
    → w ≢ absent
    → s.running ≡ false
    → s.owner_at ≡ joining
    → Moves s
at-Moves s absent e n r o = absurd (n refl)
at-Moves s looping e n r o = (worker, (cc, (_, leave e r refl)))
at-Moves s flushing e n r o = (worker, (cc, (_, copy e refl)))
at-Moves s (writing us) e n r o = (worker, (cc, (_, store us e refl)))
at-Moves s sleeping e n r o = (worker, (cc, (_, wake e refl)))
at-Moves s last_flushing e n r o = (worker, (cc, (_, last_copy e refl)))
at-Moves s (last_writing us) e n r o = (worker, (cc, (_, last_store us e refl)))
at-Moves s finished e n r o = (owner, (cc, (_, join o e refl)))

-- Behind a call of `stop` that finds the monitor running, in every run up to its return, in which the
-- components may go on to update, the worker and the owner make at most seven steps between them, and
-- until `stop` has returned, one of them has a step: `stop` waits neither for ever nor for a component.
pub stop_ends :
    {U : Type 0} {s t : Monitoring U}
    → Reach constructed s
    → s.owner_at ≡ joining
    → (r : UntilReturned s t) → (own_steps r ≤ 7) × ((t.owner_at ≡ returned) ⊎ Moves t)
stop_ends {s = s} {t = t} before o r =
    let v = Reach-Inv before constructed-Inv in
    let w = Reach-Inv (Until-Reach before r) constructed-Inv in
    let p : Stopping s = (ground (arith, v.quiet, v.rested), inl o) in
    let (q, le) = Until-left r p in
    (
      ground (arith, most_left s.worker_at, le),
      elim q.1 [
        | inl j ↦ inr (at-Moves t t.worker_at refl (λ e. ground (arith, w.lost e, j, q.0)) q.0 j)
        | inr d ↦ inl d
      ],
    )
