-- ===== src/Locks.antt =====
-- The mutexes of the process: infrastructure/cache (redis_client.hpp, telemetry_cache.hpp),
-- infrastructure/sensors/sensor_data.hpp, services/transport/video_manager.cxx, monitoring/health_monitor.cxx,
-- network/server_listener_tcp.hpp and core/logger.cxx. Here an operation is what it locks and unlocks, with the
-- calls of `LOG_...` and of `HealthMonitor::update` that it makes in between.
pub mod Order
pub mod Progress
use aqua_regulator_server.Base.{
  ℕ, zero, suc, ◌≡◌, Bool, true, false, List, [], ◌∷◌, ◌++◌, ◌==◌, if◌then◌else◌,
}

pub data Mutex : Type 0 where
  redis_client sensor_gateway video_clients video_queue health_monitor connections telemetry_cache
        logger :
      Mutex

pub data Action : Type 0 where
  lock unlock : Mutex → Action

-- `LOG_INFO`, `LOG_WARN` or `LOG_ERROR`, and `HealthMonitor::update`.
pub data Report : Type 0 where
  log update : Report

-- What a thread does with a mutex. Those that report while they hold one say which reports they make, in
-- their order. A thread makes such operations one after the other: `OnReceive` of a packet is `use_clients`,
-- then `enqueue`.
pub data Operation : Type 0 where
  -- `Logger::write` and `HealthMonitor::update`
  report : Report → Operation
  -- `HealthMonitor::flushToDisk`
  flush_to_disk : Operation
  -- `store`, `snapshot` and `snapshotAll` of `TelemetryCache`
  use_cache : Operation
  -- `OnAccept`, `OnClose`, `getAllConnectionIDs` and `hasConnections` of the listener
  use_connections : Operation
  -- the push in `OnReceive` of `VideoManager`
  enqueue : Operation
  -- the public operations of `RedisClient`
  use_redis : List Report → Operation
  -- `readRealtime`, `writeRegister` and `disconnect` of `SensorGateway`
  use_sensors : List Report → Operation
  -- `OnAccept`, `OnClose` and `OnReceive` of `VideoManager` on the clients
  use_clients : List Report → Operation
  -- a round of `relayThreadFunc` with a packet, and its last one without, and how often `wait` wakes in vain
  relay : ℕ → List Report → Operation
  relay_stops : ℕ → Operation

-- A `lock_guard` over some of the actions, in front of the others.
abbrev pub guard : Mutex → List Action → List Action
guard m after = lock m ∷ unlock m ∷ after

unfoldable pub reports : List Report → List Action → List Action
reports [] after = after
reports (log ∷ rs) after = guard logger (reports rs after)
reports (update ∷ rs) after = guard health_monitor (reports rs after)

-- `queueCv_.wait` unlocks the queue, and locks it again before it looks.
unfoldable pub waits : ℕ → List Action → List Action
waits zero after = after
waits (suc n) after = unlock video_queue ∷ lock video_queue ∷ waits n after

unfoldable pub actions : Operation → List Action → List Action
actions (report r) after = reports (r ∷ []) after
actions flush_to_disk after = guard health_monitor after
actions use_cache after = guard telemetry_cache after
actions use_connections after = guard connections after
actions enqueue after = guard video_queue after
actions (use_redis rs) after = lock redis_client ∷ reports rs (unlock redis_client ∷ after)
actions (use_sensors rs) after = lock sensor_gateway ∷ reports rs (unlock sensor_gateway ∷ after)
actions (use_clients rs) after = lock video_clients ∷ reports rs (unlock video_clients ∷ after)
actions (relay n rs) after =
    lock video_queue
    ∷ waits n (unlock video_queue ∷ lock video_clients ∷ reports rs (unlock video_clients ∷ after))
actions (relay_stops n) after = lock video_queue ∷ waits n (unlock video_queue ∷ after)

unfoldable pub program : List Operation → List Action
program [] = []
program (op ∷ ops) = actions op (program ops)

pub record Thread : Type 0 where
  pub held : List Mutex
  pub todo : List Action

abbrev pub begun : List Operation → Thread
begun ops = record { held = []; todo = program ops }

abbrev pub number : Mutex → ℕ
number redis_client = 0
number sensor_gateway = 1
number video_clients = 2
number video_queue = 3
number health_monitor = 4
number connections = 5
number telemetry_cache = 6
number logger = 7

-- Whether a mutex is among these, and whether a thread holds it.
abbrev pub has : Mutex → List Mutex → Bool
has m [] = false
has m (h ∷ hs) = let rest = has m hs in if number m == number h then true else rest

abbrev pub taken : Mutex → List Thread → Bool
taken m [] = false
taken m (x ∷ xs) = let rest = taken m xs in if has m x.held then true else rest

-- A thread locks a mutex that no thread holds, itself included, or unlocks the one that it locked last.
pub data Turn (all : List Thread) (x y : Thread) : Type 0 where
  locks :
      (m : Mutex) (after : List Action)
      → x.todo ≡ lock m ∷ after
      → taken m all ≡ false
      → y ≡ record { held = m ∷ x.held; todo = after }
      → Turn all x y
  unlocks :
      (m : Mutex) (after : List Action) (hs : List Mutex)
      → x.todo ≡ unlock m ∷ after
      → x.held ≡ m ∷ hs
      → y ≡ record { held = hs; todo = after }
      → Turn all x y

pub data Step (s t : List Thread) : Type 0 where
  turn :
      (left right : List Thread) (x y : Thread)
      → s ≡ left ++ x ∷ right
      → Turn s x y
      → t ≡ left ++ y ∷ right
      → Step s t

pub data Reach (s : List Thread) : List Thread → Type 0 where
  here : Reach s s
  next : {t u : List Thread} → Reach s t → Step t u → Reach s u
