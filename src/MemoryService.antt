-- ===== src/MemoryService.antt =====
-- services/data_manager.hpp: `TelemetryService`, the service with the memory cache only. Its members are
-- those of `Service` in World but for `use_redis`, which nothing here reads.
pub mod Equivalence
use Prim.Native.String.{◌++◌ as ◌<>◌}
use aqua_regulator_server.Base.{
  ℕ, zero, suc, ◌+◌, ◌-◌, ◌%◌, ◌^◌, String, Bool, not, true, false, none, some, List, [], ◌∷◌, ltb,
  is_empty, seconds, if◌then◌else◌,
}
use aqua_regulator_server.Base.Decimal.{to_string}
use aqua_regulator_server.Base.Int.{ℤ, pos, sub_ℕ, le_sub}
use aqua_regulator_server.Cache.Memory
use aqua_regulator_server.Config.{PipelineConfig}
use aqua_regulator_server.Database.{load_environmental, load_soil_and_air}
use aqua_regulator_server.Domain.{
  TelemetryChannel, realtime, historical_environment, historical_soil, TelemetryReading,
  TelemetryFrame,
}
use aqua_regulator_server.Monitor.{update}
use aqua_regulator_server.Platform.{Platform}
use aqua_regulator_server.Publisher.{publish}
use aqua_regulator_server.Router.{has_subscribers}
use aqua_regulator_server.Sensors.{read_realtime}
use aqua_regulator_server.World.{
  Action, Throwing, pure, call, gets, lift, modify, for_each, bind, bind_throwing, ◌>>=◌, ◌>>◌,
}

module _ {E W J : Type 0} (lib : Platform E W J) where
  open lib use {clock}

  -- cache_.store(channel, reading)
  -- The constructor; the provider that it installs is `snapshot_provider`.
  unfoldable pub construct : PipelineConfig → Action E W (Unit {0})
  construct pipeline = modify (λ w. record w {
    service = record {
      pipeline = pipeline;
      memory_cache = record { capacity = pipeline.cache_size; buffer = λ channel. [] };
      use_redis = false;
      correlation = 0;
    };
  })

  -- `start`, on `running_`: whether the thread is made, and `running_` behind it.
  unfoldable pub start : Bool → Bool × Bool
  start running = (not running, true)

  -- `stop`, on `running_`, where `join` waits for the last round of the thread, if there is one.
  unfoldable pub stop : Action E W (Unit {0}) → Bool → Action E W Bool
  stop last_round running = if running then (do last_round; pure false) else pure false

  unfoldable pub cache_store : TelemetryChannel → TelemetryReading W → Action E W (Unit {0})
  cache_store channel reading = modify (λ w. record w {
    service = record (w.service) {
      memory_cache = Memory.store w.service.memory_cache channel reading;
    };
  })

  unfoldable pub next_correlation_id : Action E W String
  next_correlation_id w =
      let id = (w.service.correlation + 1) % 2 ^ 64 in
      ("frame-" <> to_string id, record w { service = record (w.service) { correlation = id } })

  unfoldable pub build_frame :
      TelemetryChannel → List (TelemetryReading W) → Action E W (TelemetryFrame W)
  build_frame channel readings = do
    id ← next_correlation_id
    pure (record { channel = channel; readings = readings; snapshot = true; correlation_id = id })

  unfoldable pub build_snapshot : TelemetryChannel → Action E W (TelemetryFrame W)
  build_snapshot channel = do
    readings ← gets (λ w. Memory.snapshot w.service.memory_cache channel)
    build_frame channel readings

  -- The snapshot provider that the constructor installs in the publisher.
  unfoldable pub snapshot_provider : Action E W (List (TelemetryFrame W))
  snapshot_provider = do
    a ← build_snapshot realtime
    b ← build_snapshot historical_environment
    c ← build_snapshot historical_soil
    pure (a ∷ b ∷ c ∷ [])

  unfoldable pub publish_realtime : TelemetryReading W → Action E W (Unit {0})
  publish_realtime reading = do
    subscribed ← gets (has_subscribers lib)
    if subscribed
        then (do
          id ← next_correlation_id
          publish lib (record {
            channel = realtime;
            readings = reading ∷ [];
            snapshot = false;
            correlation_id = id;
          }))
        else pure tt

  unfoldable pub process_realtime : Action E W (Unit {0})
  process_realtime = do
    read ← read_realtime lib
    elim read [
      | none ↦ update lib "telemetry_service" false "Realtime read failed"
      | some reading ↦ (do
        cache_store realtime reading
        publish_realtime reading
        update lib "telemetry_service" true "Realtime frame published")
    ]

  unfoldable pub publish_loaded :
      TelemetryChannel → List (TelemetryReading W) → Action E W (Unit {0})
  publish_loaded channel readings =
      if is_empty readings then pure tt else bind (build_frame channel readings) (publish lib)

  unfoldable pub publish_historical :
      List (TelemetryReading W) → List (TelemetryReading W) → Action E W (Unit {0})
  publish_historical env soil = do
    subscribed ← gets (has_subscribers lib)
    if subscribed
        then (do publish_loaded historical_environment env; publish_loaded historical_soil soil)
        else pure tt

  unfoldable pub process_historical : Throwing E W (Unit {0})
  process_historical w =
      let size = w.service.pipeline.cache_size in
      bind_throwing (load_environmental lib size)
        (λ env. bind_throwing (load_soil_and_air lib size) λ soil. lift (do
          for_each (cache_store historical_environment) env
          for_each (cache_store historical_soil) soil
          publish_historical env soil
          update lib "telemetry_service" true "Historical frame published"))
        w

  -- The second half of a round of `runLoop`: the historical data, if they are due. The value is the
  -- new `lastHistorical`.
  unfoldable pub historical_if_due : ℤ → Throwing E W ℤ
  historical_if_due last = do
    interval ← gets (λ w. seconds w.service.pipeline.historical_interval_seconds)
    now ← call clock.steady_now
    if le_sub interval now last
        then bind_throwing process_historical
            (λ _. lift (bind (call clock.steady_now) λ t. pure (pos t)))
        else lift (pure last)

  unfoldable pub sleep_rest : ℕ → Action E W (Unit {0})
  sleep_rest start = do
    now ← call clock.steady_now
    interval ← gets (λ w. seconds w.service.pipeline.realtime_interval_seconds)
    if ltb (now - start) interval
        then modify (λ w. record w { env = clock.sleep_for (interval - (now - start)) w.env })
        else pure tt

  -- One round of `runLoop`.
  unfoldable pub round : ℤ → Throwing E W ℤ
  round last = do
    start ← call clock.steady_now
    process_realtime
    bind_throwing (historical_if_due last) (λ last'. lift (bind (sleep_rest start) λ _. pure last'))

  -- `lastHistorical` before the first round.
  unfoldable pub first_historical : Action E W ℤ
  first_historical = do
    interval ← gets (λ w. seconds w.service.pipeline.historical_interval_seconds)
    now ← call clock.steady_now
    pure (sub_ℕ now interval)

  -- The rounds of the loop up to the one behind which `running_` is found false.
  unfoldable pub rounds : ℕ → ℤ → Throwing E W (Unit {0})
  rounds zero last = lift (pure tt)
  rounds (suc n) last = bind_throwing (round last) (rounds n)

  -- `runLoop`. Nothing catches an exception: it ends the thread, and the process with it.
  unfoldable pub run_loop : ℕ → Throwing E W (Unit {0})
  run_loop n = bind_throwing (lift first_historical) (rounds n)
