-- ===== src/Video/Threads.antt =====
-- services/transport/video_manager.cxx: the relay thread, the callbacks that enqueue, and `stop`, as
-- threads that share `running_`, the queue with its mutex, and the condition variable.
use aqua_regulator_server.Base.{ℕ, suc, ◌≡◌, Bool, true, false, List, [], ◌∷◌, ◌++◌}

-- Where the relay thread stands in `relayThreadFunc`: before `while (running_)`; in `wait` with the
-- mutex, about to test the predicate; still with the mutex, the predicate found false; blocked, the
-- mutex released; awake again, about to take the mutex; past the wait with a packet; returned.
pub data RelayAt : Type 0 where
  looping testing committed asleep woken sending finished : RelayAt

-- Where the caller of `stop` stands: not called; `running_ = false` done; `notify_all` done and in
-- `join`; returned.
pub data StopAt : Type 0 where
  idle flagged joining stopped : StopAt

-- `P` are the packets. `pending` counts the pushes whose `notify_one` has not been called yet.
-- `relayed` and `pushed` are the history.
pub record Threads (P : Type 0) : Type 0 where
  pub running : Bool
  pub queue : List P
  pub relay_at : RelayAt
  pub stop_at : StopAt
  pub pending : ℕ
  pub relayed : List P
  pub pushed : List P

-- A notification wakes the relay thread if it is blocked, and else has no effect.
abbrev pub wake : RelayAt → RelayAt
wake asleep = woken
wake looping = looping
wake testing = testing
wake committed = committed
wake woken = woken
wake sending = sending
wake finished = finished

-- The relay thread does not hold `queueMutex_`.
abbrev pub is_unlocked : RelayAt → Bool
is_unlocked testing = false
is_unlocked committed = false
is_unlocked looping = true
is_unlocked asleep = true
is_unlocked woken = true
is_unlocked sending = true
is_unlocked finished = true

-- Who makes a step; the system wakes a waiting thread spuriously.
pub data Actor : Type 0 where
  relay_thread stopper callback system : Actor

pub data Step {P : Type 0} (s t : Threads P) : Actor → Type 0 where
  -- while (running_)
  enter :
      s.relay_at ≡ looping
      → s.running ≡ true
      → t ≡ record s { relay_at = testing }
      → Step s t relay_thread
  leave :
      s.relay_at ≡ looping
      → s.running ≡ false
      → t ≡ record s { relay_at = finished }
      → Step s t relay_thread
  -- queueCv_.wait: the predicate fails, the thread blocks, and takes the mutex again when woken
  commit :
      s.relay_at ≡ testing
      → s.queue ≡ []
      → s.running ≡ true
      → t ≡ record s { relay_at = committed }
      → Step s t relay_thread
  sleep : s.relay_at ≡ committed → t ≡ record s { relay_at = asleep } → Step s t relay_thread
  lock : s.relay_at ≡ woken → t ≡ record s { relay_at = testing } → Step s t relay_thread
  -- the predicate holds: if (!running_) break, or the front packet is taken and sent
  quit :
      s.relay_at ≡ testing
      → s.running ≡ false
      → t ≡ record s { relay_at = finished }
      → Step s t relay_thread
  take :
      (p : P) (rest : List P)
      → s.relay_at ≡ testing
      → s.running ≡ true
      → s.queue ≡ p ∷ rest
      → t ≡ record s { relay_at = sending; queue = rest; relayed = s.relayed ++ (p ∷ []) }
      → Step s t relay_thread
  sent : s.relay_at ≡ sending → t ≡ record s { relay_at = looping } → Step s t relay_thread
  -- `OnReceive`: a push under the mutex, and then its notification
  push :
      (p : P)
      → is_unlocked s.relay_at ≡ true
      → t ≡ record s {
        queue = s.queue ++ (p ∷ []);
        pushed = s.pushed ++ (p ∷ []);
        pending = suc s.pending;
      }
      → Step s t callback
  notify :
      (n : ℕ)
      → s.pending ≡ suc n
      → t ≡ record s { pending = n; relay_at = wake s.relay_at }
      → Step s t callback
  -- `stop`
  flag :
      s.stop_at ≡ idle
      → s.running ≡ true
      → t ≡ record s { running = false; stop_at = flagged }
      → Step s t stopper
  notify_all :
      s.stop_at ≡ flagged
      → t ≡ record s { stop_at = joining; relay_at = wake s.relay_at }
      → Step s t stopper
  join :
      s.stop_at ≡ joining
      → s.relay_at ≡ finished
      → t ≡ record s { stop_at = stopped }
      → Step s t stopper
  spurious : s.relay_at ≡ asleep → t ≡ record s { relay_at = woken } → Step s t system

pub data Reach {P : Type 0} (s : Threads P) : Threads P → Type 0 where
  here : Reach s s
  next : {t u : Threads P} (a : Actor) → Reach s t → Step t u a → Reach s u

-- Behind `start`.
abbrev pub started : {P : Type 0} → Threads P
started = record {
  running = true;
  queue = [];
  relay_at = looping;
  stop_at = idle;
  pending = 0;
  relayed = [];
  pushed = [];
}
