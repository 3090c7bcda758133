-- ===== src/Cache/Memory.antt =====
-- infrastructure/cache/telemetry_cache.hpp: `TelemetryCache`, a bounded buffer for each channel.
use aqua_regulator_server.Base.{List, [], ◌∷◌, ◌++◌, length, drop, ltb, if◌then◌else◌}
use aqua_regulator_server.Domain.{
  TelemetryChannel, realtime, historical_environment, historical_soil, same_channel,
  TelemetryReading,
}
use aqua_regulator_server.World.{TelemetryCache}

module _ {W : Type 0} where
  -- `store` on the buffer of its channel: push behind, and drop the oldest if there are too many.
  unfoldable pub push :
      TelemetryCache W → TelemetryChannel → TelemetryReading W → List (TelemetryReading W)
  push cache channel reading =
      let buffer = cache.buffer channel ++ (reading ∷ []) in
      if ltb cache.capacity (length buffer) then drop 1 buffer else buffer

  unfoldable pub store : TelemetryCache W → TelemetryChannel → TelemetryReading W → TelemetryCache W
  unfolding push
  store cache channel reading = record cache {
    buffer = λ c. if same_channel c channel then push cache channel reading else cache.buffer c;
  }

  unfoldable pub snapshot : TelemetryCache W → TelemetryChannel → List (TelemetryReading W)
  snapshot cache channel = cache.buffer channel

  -- `snapshotAll`. The order of the channels in the hash map is not specified; this is one of them.
  unfoldable pub snapshot_all : TelemetryCache W → List (TelemetryReading W)
  snapshot_all cache =
      cache.buffer realtime ++ (cache.buffer historical_environment ++ cache.buffer historical_soil)
