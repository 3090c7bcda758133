-- ===== src/Video/Relay.antt =====
-- services/transport/video_manager.cxx: what holds however the relay thread, the callbacks and `stop`
-- interleave, and how `stop` can hang.
use aqua_regulator_server.Base.{
  ◌<◌, ◌≡◌, ◌≢◌, refl, ◌∙◌, ◌⊎◌, inl, inr, true, false, [], ◌∷◌, ◌++◌, append_assoc, arith,
}
use aqua_regulator_server.Video.Threads.{
  committed, asleep, finished, idle, flagged, joining, stopped, Threads, Actor, relay_thread,
  stopper, callback, system, Step, enter, leave, commit, sleep, lock, quit, take, sent, push,
  notify, flag, notify_all, join, spurious, Reach, here, next, started, wake,
}

-- `fifo`: no packet is lost, doubled or overtaken. `notified`: a thread that blocks, or is about to,
-- blocks on an empty queue, unless a notification is on its way. `going`: `running_` is false only
-- once `stop` has begun. `joined`: `stop` returns behind the thread's end.
pub record Inv {P : Type 0} (s : Threads P) : Type 0 where
  pub fifo : s.relayed ++ s.queue ≡ s.pushed
  pub empty : s.relay_at ≡ committed → s.queue ≡ []
  pub notified : s.relay_at ≡ asleep → (s.queue ≡ []) ⊎ (0 < s.pending)
  pub going : s.running ≡ false → s.stop_at ≢ idle
  pub joined : s.stop_at ≡ stopped → s.relay_at ≡ finished

started-Inv : {P : Type 0} → Inv (started {P = P})
started-Inv = record {
  fifo = refl;
  empty = λ e. refl;
  notified = λ e. inl refl;
  going = λ e. cc;
  joined = λ e. cc;
}

Step-Inv : {P : Type 0} {s t : Threads P} {a : Actor} → Step s t a → Inv s → Inv t
Step-Inv (enter r e to) v = ground (arith, v.empty, v.notified, v.going, v.joined)
Step-Inv (leave r e to) v = ground (arith, v.empty, v.notified, v.going, v.joined)
Step-Inv (commit r q e to) v = ground (arith, v.empty, v.notified, v.going, v.joined)
Step-Inv (sleep r to) v = ground (arith, v.empty r, v.notified, v.going, v.joined)
Step-Inv (lock r to) v = ground (arith, v.empty, v.notified, v.going, v.joined)
Step-Inv (quit r e to) v = ground (arith, v.empty, v.notified, v.going, v.joined)
Step-Inv {s = s} (take p rest r e q to) v =
    ground (arith, append_assoc s.relayed (p ∷ []) rest, v.empty, v.notified, v.going, v.joined)
Step-Inv (sent r to) v = ground (arith, v.empty, v.notified, v.going, v.joined)
Step-Inv {s = s} (push p r to) v =
    ground (arith, append_assoc s.relayed s.queue (p ∷ []), v.empty, v.notified, v.going, v.joined)
Step-Inv (notify n e to) v = ground (arith, v.empty, v.notified, v.going, v.joined)
Step-Inv (flag r e to) v = ground (arith, v.empty, v.notified, v.going, v.joined)
Step-Inv (notify_all r to) v = ground (arith, v.empty, v.notified, v.going, v.joined)
Step-Inv (join r f to) v = ground (arith, v.empty, v.notified, v.going, v.joined)
Step-Inv (spurious r to) v = ground (arith, v.empty, v.notified, v.going, v.joined)

Reach-Inv : {P : Type 0} {s : Threads P} → Reach started s → Inv s
Reach-Inv here = started-Inv
Reach-Inv (next a r st) = Step-Inv st (Reach-Inv r)

-- In every interleaving, the packets that the relay thread has taken, followed by those still in the
-- queue, are the packets pushed, in the order of the pushes: none is lost, doubled or overtaken.
pub relay_fifo : {P : Type 0} (s : Threads P) → Reach started s → s.relayed ++ s.queue ≡ s.pushed
relay_fifo s r = (Reach-Inv r).fifo

-- In every interleaving, if the relay thread is blocked in its wait while a packet is queued, then
-- a notification of a push is still to come.
pub relay_wakes :
    {P : Type 0} (s : Threads P)
    → Reach started s
    → s.relay_at ≡ asleep
    → s.queue ≢ []
    → 0 < s.pending
relay_wakes s r e full = ground (arith, (Reach-Inv r).notified e)

Step-finished :
    {P : Type 0} {s t : Threads P} {a : Actor}
    → Step s t a
    → s.relay_at ≡ finished
    → s.stop_at ≡ stopped
    → (t.relayed ≡ s.relayed) × (t.relay_at ≡ finished) × (t.stop_at ≡ stopped)
Step-finished (enter r e to) f st = ground arith
Step-finished (leave r e to) f st = ground arith
Step-finished (commit r q e to) f st = ground arith
Step-finished (sleep r to) f st = ground arith
Step-finished (lock r to) f st = ground arith
Step-finished (quit r e to) f st = ground arith
Step-finished (take p rest r e q to) f st = ground arith
Step-finished (sent r to) f st = ground arith
Step-finished (push p r to) f st = ground arith
Step-finished (notify n e to) f st = ground arith
Step-finished (flag r e to) f st = ground arith
Step-finished (notify_all r to) f st = ground arith
Step-finished (join r e to) f st = ground arith
Step-finished (spurious r to) f st = ground arith

Reach-finished :
    {P : Type 0} {s t : Threads P}
    → Reach s t
    → s.relay_at ≡ finished
    → s.stop_at ≡ stopped
    → (t.relayed ≡ s.relayed) × (t.relay_at ≡ finished) × (t.stop_at ≡ stopped)
Reach-finished here f st = (refl, f, st)
Reach-finished (next a r step) f st =
    let (same, at, stop_at) = Reach-finished r f st in
    let (newer, at_end, returned) = Step-finished step at stop_at in
    (newer ∙ same, at_end, returned)

-- Once `stop` has returned, no run of the threads relays a further packet, whatever the callbacks
-- still push.
stop_silences :
    {P : Type 0} (s t : Threads P)
    → Reach started s
    → s.stop_at ≡ stopped
    → Reach s t
    → t.relayed ≡ s.relayed
stop_silences s t r st after = (Reach-finished after ((Reach-Inv r).joined st) st).0

-- `stop` waits in `join` for a thread that is blocked, with nothing on its way to wake it.
pub record IsHung {P : Type 0} (s : Threads P) : Type 0 where
  pub blocked : s.relay_at ≡ asleep
  pub waiting : s.stop_at ≡ joining
  pub silent : s.pending ≡ 0
  pub cleared : s.running ≡ false

-- Where `stop` waits in `join` for the blocked thread with no notification to come, every step that any
-- thread can make is a callback's, for a further packet, or a spurious wake-up.
IsHung-stuck :
    {P : Type 0} {s t : Threads P} {a : Actor}
    → IsHung s
    → Step s t a
    → (a ≡ callback) ⊎ (a ≡ system)
IsHung-stuck h (enter r e to) = absurd (ground (arith, h.blocked))
IsHung-stuck h (leave r e to) = absurd (ground (arith, h.blocked))
IsHung-stuck h (commit r q e to) = absurd (ground (arith, h.blocked))
IsHung-stuck h (sleep r to) = absurd (ground (arith, h.blocked))
IsHung-stuck h (lock r to) = absurd (ground (arith, h.blocked))
IsHung-stuck h (quit r e to) = absurd (ground (arith, h.blocked))
IsHung-stuck h (take p rest r e q to) = absurd (ground (arith, h.blocked))
IsHung-stuck h (sent r to) = absurd (ground (arith, h.blocked))
IsHung-stuck h (push p r to) = inl refl
IsHung-stuck h (notify n e to) = inl refl
IsHung-stuck h (flag i e to) = absurd (ground (arith, h.waiting))
IsHung-stuck h (notify_all i to) = absurd (ground (arith, h.waiting))
IsHung-stuck h (join i r to) = absurd (ground (arith, h.blocked))
IsHung-stuck h (spurious r to) = inr refl

-- The schedule: `stop` sets the flag and notifies between the test of the predicate and the block.
module _ {P : Type 0} (s : Threads P) where
  abbrev flagged_state : Threads P
  flagged_state = record s { running = false; stop_at = flagged }

  abbrev notified_state : Threads P
  notified_state = record s { running = false; stop_at = joining }

  abbrev hung_state : Threads P
  hung_state = record s { running = false; stop_at = joining; relay_at = asleep }

  notify_in_vain :
      s.relay_at ≡ committed
      → notified_state
        ≡ record flagged_state { stop_at = joining; relay_at = wake flagged_state.relay_at }
  notify_in_vain r = ground arith

  -- Whenever `stop` is called after the relay thread found its predicate false and before it blocks,
  -- with no push unannounced, a run of `stop` and of the thread alone ends where `stop` waits in
  -- `join` and the thread is blocked, with `running_` false and no notification to come.
  pub stop_may_hang :
      s.relay_at ≡ committed
      → s.stop_at ≡ idle
      → s.running ≡ true
      → s.pending ≡ 0
      → (t : Threads P) × Reach s t × IsHung t
  stop_may_hang r i e p = (
    hung_state,
    next relay_thread
        (next stopper (next {u = flagged_state} stopper here (flag i e refl))
          (notify_all refl (notify_in_vain r)))
        (sleep r refl),
    record { blocked = refl; waiting = refl; silent = p; cleared = refl },
  )
