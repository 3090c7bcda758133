-- ===== src/Monitor/Worker.antt =====
-- monitoring/health_monitor.cxx: `start`, `stop` and `writerLoop`, with the components that call
-- `update`, as threads.
pub mod Shutdown
use aqua_regulator_server.Base.{◌≡◌, ◌⊎◌, Bool, true, false, List, [], ◌∷◌, ◌++◌}

-- Where the worker stands in `writerLoop`: not started; before `while (running_)`; in `flushToDisk`,
-- before the copy under the lock and, with the copy, before the writing, in the loop and behind it;
-- asleep; returned.
pub data WorkerAt (T : Type 0) : Type 0 where
  absent looping : WorkerAt T
  flushing : WorkerAt T
  writing : T → WorkerAt T
  sleeping : WorkerAt T
  last_flushing : WorkerAt T
  last_writing : T → WorkerAt T
  finished : WorkerAt T

-- Where the owner of the monitor stands: outside `start` and `stop`; in `start` behind the exchange; in
-- `stop` behind the exchange, and so in `join`; returned from a `stop` that joined the worker. It may
-- call both functions any number of times, also the one or the other twice.
pub data OwnerAt : Type 0 where
  outside starting joining returned : OwnerAt

-- `U` are the updates. `updates` are those made so far, which determine `states_`; `written` are those
-- that the file shows; `at_stop` those made when `stop` last found the monitor running; `failed` says that the last
-- writing failed.
pub record Monitoring (U : Type 0) : Type 0 where
  pub running : Bool
  pub worker_at : WorkerAt (List U)
  pub owner_at : OwnerAt
  pub updates : List U
  pub written : List U
  pub at_stop : List U
  pub failed : Bool

pub data Actor : Type 0 where
  worker owner component : Actor

pub data Step {U : Type 0} (s t : Monitoring U) : Actor → Type 0 where
  -- start: running_.exchange(true), which returns at once if it was true, and the thread
  started : s.owner_at ≡ outside → s.running ≡ true → t ≡ s → Step s t owner
  claim :
      (s.owner_at ≡ outside) ⊎ (s.owner_at ≡ returned)
      → s.running ≡ false
      → t ≡ record s { running = true; owner_at = starting }
      → Step s t owner
  spawn :
      s.owner_at ≡ starting
      → t ≡ record s { owner_at = outside; worker_at = looping }
      → Step s t owner
  -- while (running_)
  enter :
      s.worker_at ≡ looping
      → s.running ≡ true
      → t ≡ record s { worker_at = flushing }
      → Step s t worker
  leave :
      s.worker_at ≡ looping
      → s.running ≡ false
      → t ≡ record s { worker_at = last_flushing }
      → Step s t worker
  -- flushToDisk in the loop: the copy, and the file, which may fail
  copy : s.worker_at ≡ flushing → t ≡ record s { worker_at = writing s.updates } → Step s t worker
  store :
      (us : List U)
      → s.worker_at ≡ writing us
      → t ≡ record s { worker_at = sleeping; written = us; failed = false }
      → Step s t worker
  fail :
      (us : List U)
      → s.worker_at ≡ writing us
      → t ≡ record s { worker_at = sleeping; failed = true }
      → Step s t worker
  wake : s.worker_at ≡ sleeping → t ≡ record s { worker_at = looping } → Step s t worker
  -- flushToDisk behind the loop
  last_copy :
      s.worker_at ≡ last_flushing
      → t ≡ record s { worker_at = last_writing s.updates }
      → Step s t worker
  last_store :
      (us : List U)
      → s.worker_at ≡ last_writing us
      → t ≡ record s { worker_at = finished; written = us; failed = false }
      → Step s t worker
  last_fail :
      (us : List U)
      → s.worker_at ≡ last_writing us
      → t ≡ record s { worker_at = finished; failed = true }
      → Step s t worker
  -- stop: running_.exchange(false), which returns at once if it was false, and join
  stopped :
      (s.owner_at ≡ outside) ⊎ (s.owner_at ≡ returned) → s.running ≡ false → t ≡ s → Step s t owner
  clear :
      s.owner_at ≡ outside
      → s.running ≡ true
      → t ≡ record s { running = false; owner_at = joining; at_stop = s.updates }
      → Step s t owner
  join :
      s.owner_at ≡ joining
      → s.worker_at ≡ finished
      → t ≡ record s { owner_at = returned }
      → Step s t owner
  -- update
  update : (u : U) → t ≡ record s { updates = s.updates ++ (u ∷ []) } → Step s t component

-- A run up to the return from `stop`.
pub data UntilReturned {U : Type 0} (s : Monitoring U) : Monitoring U → Type 0 where
  begin : UntilReturned s s
  then :
      {t u : Monitoring U} (a : Actor)
      → UntilReturned s t
      → t.owner_at ≡ joining
      → Step t u a
      → UntilReturned s u

pub data Reach {U : Type 0} (s : Monitoring U) : Monitoring U → Type 0 where
  here : Reach s s
  next : {t u : Monitoring U} (a : Actor) → Reach s t → Step t u a → Reach s u

-- Behind the constructor.
abbrev pub constructed : {U : Type 0} → Monitoring U
constructed = record {
  running = false;
  worker_at = absent;
  owner_at = outside;
  updates = [];
  written = [];
  at_stop = [];
  failed = false;
}
