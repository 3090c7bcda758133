-- ===== src/World.antt =====
-- The state that the components share, and actions on it. Each component's members are one record,
-- and a handler is a function from the world before it to its result and the world after it.
pub mod Keeps
use aqua_regulator_server.Base.{
  ℕ, String, Bool, Option, List, ◌∷◌, [], ◌++◌, Bytes, Result, ok, err,
}
use aqua_regulator_server.Config.{
  SensorConfig, RedisConfig, DatabaseConfig, PipelineConfig, Configuration,
}
use aqua_regulator_server.Domain.{TelemetryChannel, TelemetryReading}

-- monitoring/health_monitor.hpp, `HealthState`.
pub record HealthState : Type 0 where
  pub healthy : Bool
  pub detail : String
  pub updated_at : ℕ

-- A call on an external object that a client or a device can observe, in the order of the calls.
pub data Call : Type 0 where
  send : ℕ → Bytes → Call
  write : ℕ → ℕ → ℕ → Call

-- infrastructure/sensors/sensor_data.hpp, the members of `SensorGateway`.
pub record Gateway : Type 0 where
  pub config : SensorConfig
  pub modbus : Option ℕ
  pub last_attempt : ℕ

-- network/server_listener_tcp.hpp, the members of `ServerListener`.
pub record Listener : Type 0 where
  pub conn_id : ℕ
  pub conn_ids : List ℕ

-- infrastructure/cache/telemetry_cache.hpp, the members of `TelemetryCache`. A channel that the
-- hash map does not hold has the empty buffer, as `snapshot` and `operator[]` have it.
pub record TelemetryCache (W : Type 0) : Type 0 where
  pub capacity : ℕ
  pub buffer : TelemetryChannel → List (TelemetryReading W)

-- infrastructure/cache/redis_client.hpp, the members of `RedisClient`; `connected` is `redis_`.
pub record RedisClient : Type 0 where
  pub config : RedisConfig
  pub connected : Bool
  pub last_attempt : ℕ

-- infrastructure/database/mariadb_client.hpp and telemetry_repository.hpp, their members.
pub record Repository : Type 0 where
  pub config : DatabaseConfig
  pub handle : Option ℕ

-- services/data_manager_redis.hpp, the members of `TelemetryServiceWithRedis`; the capacity of the
-- Redis cache is `pipeline.cache_size`.
pub record Service (W : Type 0) : Type 0 where
  pub pipeline : PipelineConfig
  pub memory_cache : TelemetryCache W
  pub use_redis : Bool
  pub correlation : ℕ

-- core/configuration.hpp, the members of `ConfigurationManager`. `last_write_time` is a file time.
pub record Manager : Type 0 where
  pub config : Configuration
  pub path : String
  pub last_write_time : ℕ

pub record World (E W : Type 0) : Type 0 where
  pub env : E
  pub manager : Manager
  pub states : List (String × HealthState)
  pub calls : List Call
  pub gateway : Gateway
  pub listener : Listener
  pub reload_requested : Bool
  pub redis_client : RedisClient
  pub repository : Repository
  pub service : Service W

-- An action that returns, and one that may also throw. What was done before a throw stays done.
abbrev pub Action : Type 0 → Type 0 → Type 0 → Type 0
Action E W A = World E W → A × World E W

abbrev pub Throwing : Type 0 → Type 0 → Type 0 → Type 0
Throwing E W A = World E W → Result A × World E W

module _ {E W A : Type 0} where
  abbrev pub pure : A → Action E W A
  pure a w = (a, w)

  abbrev pub throw : String → Throwing E W A
  throw what w = (err what, w)

  -- A call into the outside world.
  abbrev pub call : (E → A × E) → Action E W A
  call f w = let (a, e) = f w.env in (a, record w { env = e })

  abbrev pub gets : (World E W → A) → Action E W A
  gets f w = (f w, w)

  -- An action that cannot throw, among those that can; and a value that may have been thrown.
  abbrev pub lift : Action E W A → Throwing E W A
  lift m w = let (a, w') = m w in (ok a, w')

  abbrev pub attempt : Result A → Throwing E W A
  attempt r w = (r, w)

  -- try { … } catch (const std::exception& ex) { … }
  abbrev pub try : Throwing E W A → (String → Action E W A) → Action E W A
  try m handler w = let (r, w') = m w in elim r [ ok a ↦ (a, w') | err what ↦ handler what w' ]

module _ {E W : Type 0} where
  abbrev pub modify : (World E W → World E W) → Action E W (Unit {0})
  modify f w = (tt, f w)

  abbrev pub record_call : Call → Action E W (Unit {0})
  record_call c w = (tt, record w { calls = w.calls ++ (c ∷ []) })

module _ {E W A B : Type 0} where
  abbrev pub bind : Action E W A → (A → Action E W B) → Action E W B
  bind m f w = let (a, w') = m w in f a w'

  abbrev pub bind_throwing : Throwing E W A → (A → Throwing E W B) → Throwing E W B
  bind_throwing m f w = let (r, w') = m w in elim r [ ok a ↦ f a w' | err what ↦ (err what, w') ]

-- Notation for chains of actions that cannot throw; `Throwing` has its own in the modules that need it.
infixl 5 ◌>>=◌ ◌>>◌
abbrev pub ◌>>=◌ : {E W A B : Type 0} → Action E W A → (A → Action E W B) → Action E W B
m >>= f = bind m f

abbrev pub ◌>>◌ : {E W B : Type 0} → Action E W (Unit {0}) → Action E W B → Action E W B
m >> k = bind m λ _. k

-- for (const auto& x : xs) body(x);
abbrev pub for_each :
    {E W A : Type 0} → (A → Action E W (Unit {0})) → List A → Action E W (Unit {0})
for_each body [] w = (tt, w)
for_each body (x ∷ xs) w = for_each body xs (body x w).1
