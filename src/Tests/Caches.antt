-- ===== src/Tests/Caches.antt =====
-- The caches at concrete inputs.
use aqua_regulator_server.Base.{
  ℕ, ◌≡◌, refl, [], ◌∷◌, Bytes, Result, ok, err, codes, if◌then◌else◌, none, arith,
}
use aqua_regulator_server.Base.Slices.{last}
use aqua_regulator_server.Cache.Contract.{store_each}
use aqua_regulator_server.Cache.Implementations.{memory_cache, redis_cache, both_caches}
use aqua_regulator_server.Cache.Memory
use aqua_regulator_server.Cache.Redis
use aqua_regulator_server.Cache.Refinement.{encode}
use aqua_regulator_server.Cache.Window.{IsBounded, store_all, snapshot-store_all}
use aqua_regulator_server.Domain.{
  realtime, historical_soil, TelemetryReading, reading_to_json, reading_fields, reading_from_json,
}
use aqua_regulator_server.Domain.Codec.{field, reading_from_json-reading_to_json}
use aqua_regulator_server.Tests.Sim.{
  Outside, Value, plain, plain-IsUp, sim, sim-IsJson, no_json, no_device, cache, world,
}
use aqua_regulator_server.Video.{bytes_eq}
use aqua_regulator_server.World.{World, TelemetryCache}

abbrev reading : ℕ → TelemetryReading ℕ
reading t = record {
  label = "R";
  timestamp = "noon";
  temperature = t;
  humidity = 0;
  light = 0;
  soil = 0;
  gas = 0;
  raindrop = 0;
}

cache-IsBounded : IsBounded cache
cache-IsBounded = record { bound = λ c. omega arith }

-- Two readings fill the channel, the third drives out the first.
abbrev full : TelemetryCache ℕ
full = record { capacity = 2; buffer = λ c. reading 1 ∷ reading 2 ∷ [] }

full-IsBounded : IsBounded full
full-IsBounded = record { bound = λ c. omega arith }

snapshot-store_all_example :
    Memory.snapshot (store_all cache realtime (reading 1 ∷ reading 2 ∷ reading 3 ∷ [])) realtime
    ≡ reading 2 ∷ reading 3 ∷ []
unfolding last Memory.snapshot
snapshot-store_all_example =
    snapshot-store_all cache realtime (reading 1 ∷ reading 2 ∷ reading 3 ∷ []) cache-IsBounded

reading_from_json-reading_to_json_example :
    reading_from_json plain.json plain.real (reading_to_json plain.json (reading 5))
    ≡ ok (reading 5)
reading_from_json-reading_to_json_example =
    reading_from_json-reading_to_json plain.json (sim-IsJson no_json) plain.real (reading 5)

-- A parser that knows the text of one reading.
abbrev parse_one : Bytes → Result Value
parse_one b =
    if bytes_eq b (codes "R")
    then ok (reading_to_json plain.json (reading 3))
    else err "parse error"

abbrev one : TelemetryCache ℕ
one = record { capacity = 2; buffer = λ c. reading 3 ∷ [] }

abbrev holding : World Outside ℕ
holding = record (world none) {
  env = record { steady = 5; system = 7; lists = λ k. codes "R" ∷ [] };
}

-- A second reading, and a parser that knows the texts of both.
abbrev other : TelemetryReading ℕ
other = record (reading 4) { label = "S" }

abbrev parse_two : Bytes → Result Value
parse_two b = if bytes_eq b (codes "S") then ok (reading_to_json plain.json other) else parse_one b

both_caches_example :
    ((Redis.snapshot (sim parse_two no_device) realtime (
        store_each
          (redis_cache (sim parse_two no_device) (plain-IsUp parse_two) (sim-IsJson parse_two) 1)
          ((realtime, reading 3) ∷ (historical_soil, other) ∷ (realtime, other) ∷ [])
          holding)).0
      ≡ other ∷ reading 3 ∷ [])
    × (Memory.snapshot
          (store_each
            (memory_cache 2)
            ((realtime, reading 3) ∷ (historical_soil, other) ∷ (realtime, other) ∷ [])
            one)
          realtime
        ≡ reading 3 ∷ other ∷ [])
unfolding Memory.snapshot bytes_eq codes encode reading_to_json reading_fields field last
both_caches_example =
    both_caches (sim parse_two no_device) (plain-IsUp parse_two) (sim-IsJson parse_two) 1 one
      holding ((realtime, reading 3) ∷ (historical_soil, other) ∷ (realtime, other) ∷ []) realtime
      refl (record { bound = λ c. omega arith }) (record { connected = refl; lists = λ c. refl })
      (refl, (refl, tt))
