-- ===== src/Service.antt =====
-- services/data_manager_redis.hpp: `TelemetryServiceWithRedis`. MemoryService has the service of
-- data_manager.hpp.
pub mod Quiet
pub mod Rounds
pub mod Realtime
pub mod Worker
pub mod Pacing
pub mod Live
use Prim.Native.String.{◌++◌ as ◌<>◌}
use aqua_regulator_server.Base.{
  ℕ, zero, suc, ◌+◌, ◌-◌, ◌%◌, ◌^◌, String, true, false, none, some, List, [], ◌∷◌, ltb, is_empty,
  seconds, if◌then◌else◌,
}
use aqua_regulator_server.Base.Decimal.{to_string}
use aqua_regulator_server.Base.Int.{ℤ, pos, sub_ℕ, le_sub}
use aqua_regulator_server.Cache.Memory
use aqua_regulator_server.Cache.Redis
use aqua_regulator_server.Cache.Client
use aqua_regulator_server.Database.{load_environmental, load_soil_and_air}
use aqua_regulator_server.Domain.{
  TelemetryChannel, realtime, historical_environment, historical_soil, TelemetryReading,
  TelemetryFrame,
}
use aqua_regulator_server.Monitor.{update}
use aqua_regulator_server.Platform.{Platform}
use aqua_regulator_server.Publisher.{publish}
use aqua_regulator_server.Router.{has_subscribers}
use aqua_regulator_server.Sensors.{read_realtime}
use aqua_regulator_server.World.{
  TelemetryCache, Action, Throwing, pure, call, gets, lift, modify, for_each, bind, bind_throwing,
  ◌>>=◌, ◌>>◌,
}

module _ {E W J : Type 0} (lib : Platform E W J) where
  open lib use {clock}

  -- `useRedis_ = redisConfig_.enabled && redisClient_.initialize()`, in the constructor.
  unfoldable pub choose_cache : Action E W (Unit {0})
  choose_cache = do
    enabled ← gets (λ w. w.redis_client.config.enabled)
    up ← if enabled then Client.initialize lib else pure false
    modify (λ w. record w { service = record (w.service) { use_redis = up } })

  -- `++correlationId_` on a 64-bit counter.
  unfoldable pub next_correlation_id : Action E W String
  next_correlation_id w =
      let id = (w.service.correlation + 1) % 2 ^ 64 in
      ("frame-" <> to_string id, record w { service = record (w.service) { correlation = id } })

  unfoldable pub build_frame :
      TelemetryChannel → List (TelemetryReading W) → Action E W (TelemetryFrame W)
  build_frame channel readings = do
    id ← next_correlation_id
    pure (record { channel = channel; readings = readings; snapshot = true; correlation_id = id })

  unfoldable pub set_memory_cache : TelemetryCache W → Action E W (Unit {0})
  set_memory_cache cache =
      modify (λ w. record w { service = record (w.service) { memory_cache = cache } })

  unfoldable pub store_to_cache : TelemetryChannel → TelemetryReading W → Action E W (Unit {0})
  store_to_cache channel reading = do
    s ← gets (λ w. w.service)
    if s.use_redis
        then Redis.store lib s.pipeline.cache_size channel reading
        else set_memory_cache (Memory.store s.memory_cache channel reading)

  unfoldable pub snapshot_from_cache : TelemetryChannel → Action E W (List (TelemetryReading W))
  snapshot_from_cache channel = do
    s ← gets (λ w. w.service)
    if s.use_redis
        then Redis.snapshot lib channel
        else pure (Memory.snapshot s.memory_cache channel)

  unfoldable pub build_snapshot : TelemetryChannel → Action E W (TelemetryFrame W)
  build_snapshot channel = do readings ← snapshot_from_cache channel; build_frame channel readings

  -- The snapshot provider that the constructor installs in the publisher.
  unfoldable pub snapshot_provider : Action E W (List (TelemetryFrame W))
  snapshot_provider = do
    a ← build_snapshot realtime
    b ← build_snapshot historical_environment
    c ← build_snapshot historical_soil
    pure (a ∷ b ∷ c ∷ [])

  unfoldable pub publish_realtime : TelemetryReading W → Action E W (Unit {0})
  publish_realtime reading = do
    subscribed ← gets (has_subscribers lib)
    if subscribed
        then (do
          id ← next_correlation_id
          publish lib (record {
            channel = realtime;
            readings = reading ∷ [];
            snapshot = false;
            correlation_id = id;
          }))
        else pure tt

  unfoldable pub process_realtime : Action E W (Unit {0})
  process_realtime = do
    read ← read_realtime lib
    elim read [
      | none ↦ update lib "telemetry_service" false "Realtime read failed"
      | some reading ↦ (do
        store_to_cache realtime reading
        publish_realtime reading
        update lib "telemetry_service" true "Realtime frame published")
    ]

  unfoldable pub publish_loaded :
      TelemetryChannel → List (TelemetryReading W) → Action E W (Unit {0})
  publish_loaded channel readings =
      if is_empty readings then pure tt else bind (build_frame channel readings) (publish lib)

  unfoldable pub publish_historical :
      List (TelemetryReading W) → List (TelemetryReading W) → Action E W (Unit {0})
  publish_historical env soil = do
    subscribed ← gets (has_subscribers lib)
    if subscribed
        then (do publish_loaded historical_environment env; publish_loaded historical_soil soil)
        else pure tt

  -- Nothing catches what the repository throws: it leaves `processHistorical`.
  unfoldable pub process_historical : Throwing E W (Unit {0})
  process_historical w =
      let size = w.service.pipeline.cache_size in
      bind_throwing (load_environmental lib size)
        (λ env. bind_throwing (load_soil_and_air lib size) λ soil. lift (do
          for_each (store_to_cache historical_environment) env
          for_each (store_to_cache historical_soil) soil
          publish_historical env soil
          update lib "telemetry_service" true "Historical frame published"))
        w

  -- The second half of a round of `runLoop`: the historical data, if they are due. The value is the
  -- new `lastHistorical`.
  unfoldable pub historical_if_due : ℤ → Throwing E W ℤ
  historical_if_due last = do
    interval ← gets (λ w. seconds w.service.pipeline.historical_interval_seconds)
    now ← call clock.steady_now
    if le_sub interval now last
        then bind_throwing process_historical
            (λ _. lift (bind (call clock.steady_now) λ t. pure (pos t)))
        else lift (pure last)

  -- The sleep at the end of a round.
  unfoldable pub sleep_rest : ℕ → Action E W (Unit {0})
  sleep_rest start = do
    now ← call clock.steady_now
    interval ← gets (λ w. seconds w.service.pipeline.realtime_interval_seconds)
    if ltb (now - start) interval
        then modify (λ w. record w { env = clock.sleep_for (interval - (now - start)) w.env })
        else pure tt

  -- One round of `runLoop`.
  unfoldable pub round : ℤ → Throwing E W ℤ
  round last = do
    start ← call clock.steady_now
    process_realtime
    bind_throwing (historical_if_due last) (λ last'. lift (bind (sleep_rest start) λ _. pure last'))

  -- `lastHistorical` before the first round.
  unfoldable pub first_historical : Action E W ℤ
  first_historical = do
    interval ← gets (λ w. seconds w.service.pipeline.historical_interval_seconds)
    now ← call clock.steady_now
    pure (sub_ℕ now interval)

  -- The rounds of the loop up to the one behind which `running_` is found false.
  unfoldable pub rounds : ℕ → ℤ → Throwing E W (Unit {0})
  rounds zero last = lift (pure tt)
  rounds (suc n) last = bind_throwing (round last) (rounds n)

  -- `runLoop`. Nothing catches an exception: it ends the thread, and the process with it.
  unfoldable pub run_loop : ℕ → Throwing E W (Unit {0})
  run_loop n = bind_throwing (lift first_historical) (rounds n)
