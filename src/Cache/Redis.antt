-- ===== src/Cache/Redis.antt =====
-- infrastructure/cache/redis_telemetry_cache.hpp: `RedisTelemetryCache`.
use aqua_regulator_server.Base.{
  ℕ, zero, suc, String, List, [], ◌∷◌, ◌++◌, Bytes, Result, ok, err, if◌then◌else◌,
}
use aqua_regulator_server.Base.Int.{ℤ, pos, negsuc}
use aqua_regulator_server.Cache.Client.{lpush, ltrim, lrange, expire}
use aqua_regulator_server.Domain.{
  TelemetryChannel, realtime, historical_environment, historical_soil, TelemetryReading,
  reading_to_json, reading_from_json,
}
use aqua_regulator_server.Platform.{Platform}
use aqua_regulator_server.World.{Action, pure, ◌>>=◌}

unfoldable pub build_key : TelemetryChannel → String
build_key realtime = "telemetry:realtime"
build_key historical_environment = "telemetry:historical:env"
build_key historical_soil = "telemetry:historical:soil"

-- static_cast<long long>(capacity) - 1
unfoldable pub last_index : ℕ → ℤ
last_index zero = negsuc 0
last_index (suc n) = pos n

module _ {E W J : Type 0} (lib : Platform E W J) where
  open lib use {json, real}

  unfoldable pub store : ℕ → TelemetryChannel → TelemetryReading W → Action E W (Unit {0})
  store capacity channel reading = do
    let key = build_key channel
    let value = json.dump (reading_to_json json reading)
    pushed ← lpush lib key value
    if pushed
        then (do
          trimmed ← ltrim lib key (pos 0) (last_index capacity)
          kept ← expire lib key 3600
          pure tt)
        else pure tt

  -- One element: `parse` and `fromJson`, either of which may throw.
  unfoldable pub decode : Bytes → Result (TelemetryReading W)
  decode value = elim (json.parse value) [
    | ok j ↦ reading_from_json json real j
    | err what ↦ err what
  ]

  -- The loop of `snapshot`: an element that does not parse is skipped.
  unfoldable pub decode_all : List Bytes → List (TelemetryReading W)
  decode_all [] = []
  decode_all (value ∷ values) = elim (decode value) [
    | ok r ↦ r ∷ decode_all values
    | err what ↦ decode_all values
  ]

  unfoldable pub snapshot : TelemetryChannel → Action E W (List (TelemetryReading W))
  snapshot channel = do
    values ← lrange lib (build_key channel) (pos 0) (negsuc 0)
    pure (decode_all values)

  unfoldable pub snapshot_all : Action E W (List (TelemetryReading W))
  snapshot_all = do
    a ← snapshot realtime
    b ← snapshot historical_environment
    c ← snapshot historical_soil
    pure (a ++ (b ++ c))
