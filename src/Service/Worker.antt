-- ===== src/Service/Worker.antt =====
-- services/data_manager_redis.hpp and services/data_manager.hpp: `start`, `stop` and the loop of
-- `runLoop`, which have the same text in both, as threads. The owner may call `start` and `stop` in any
-- order and as often as it likes; the destructor is a call of `stop`. A round that throws ends the process and is no
-- step; what a round does is in the functions `round` of the two services.
pub mod Restart
use aqua_regulator_server.Base.{ℕ, suc, ◌≡◌, Bool, true, false}

-- `worker_`: no thread, or a thread before `while (running_)`, in a round, asleep behind it, returned.
pub data WorkerAt : Type 0 where
  absent looping in_round sleeping finished : WorkerAt

-- The owner: outside `start` and `stop`, in `start` behind the exchange, in `stop` in `join`.
pub data OwnerAt : Type 0 where
  outside starting joining : OwnerAt

-- `rounds` counts the rounds begun.
pub record Threads : Type 0 where
  pub running : Bool
  pub worker_at : WorkerAt
  pub owner_at : OwnerAt
  pub rounds : ℕ

pub data Actor : Type 0 where
  worker owner : Actor

pub data Step (s t : Threads) : Actor → Type 0 where
  -- start: if (running_.exchange(true)) return; worker_ = std::thread(…)
  start_again : s.owner_at ≡ outside → s.running ≡ true → t ≡ s → Step s t owner
  claim :
      s.owner_at ≡ outside
      → s.running ≡ false
      → t ≡ record s { running = true; owner_at = starting }
      → Step s t owner
  spawn :
      s.owner_at ≡ starting
      → t ≡ record s { owner_at = outside; worker_at = looping }
      → Step s t owner
  -- stop: if (!running_.exchange(false)) return; worker_.join()
  stop_again : s.owner_at ≡ outside → s.running ≡ false → t ≡ s → Step s t owner
  clear :
      s.owner_at ≡ outside
      → s.running ≡ true
      → t ≡ record s { running = false; owner_at = joining }
      → Step s t owner
  join :
      s.owner_at ≡ joining
      → s.worker_at ≡ finished
      → t ≡ record s { owner_at = outside; worker_at = absent }
      → Step s t owner
  -- while (running_) { a round; the sleep, if any }
  enter :
      s.worker_at ≡ looping
      → s.running ≡ true
      → t ≡ record s { worker_at = in_round; rounds = suc s.rounds }
      → Step s t worker
  leave :
      s.worker_at ≡ looping
      → s.running ≡ false
      → t ≡ record s { worker_at = finished }
      → Step s t worker
  sleep : s.worker_at ≡ in_round → t ≡ record s { worker_at = sleeping } → Step s t worker
  wake : s.worker_at ≡ sleeping → t ≡ record s { worker_at = looping } → Step s t worker

pub data Reach (s : Threads) : Threads → Type 0 where
  here : Reach s s
  next : {t u : Threads} (a : Actor) → Reach s t → Step t u a → Reach s u

-- Behind the constructor.
abbrev pub constructed : Threads
constructed = record { running = false; worker_at = absent; owner_at = outside; rounds = 0 }
