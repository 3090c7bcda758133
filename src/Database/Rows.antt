-- ===== src/Database/Rows.antt =====
-- infrastructure/database/telemetry_repository.cxx: what the readings of the two tables hold.
use mathlib.Core.Path.{subst}
use aqua_regulator_server.Base.{
  ℕ, ◌≡◌, refl, sym, String, Bool, true, false, Option, none, some, List, [], ◌∷◌, reverse, Result,
  ok, err, All, arith,
}
use aqua_regulator_server.Base.Slices.{All-reverse}
use aqua_regulator_server.Database.{
  load, load_environmental, load_soil_and_air, build_all, build_env_reading, build_soil_reading,
  bind_result, map_ok, refresh_connection, execute, store_result,
}
use aqua_regulator_server.Domain.{TelemetryReading}
use aqua_regulator_server.Platform.{Platform, Row}
use aqua_regulator_server.World.{World}

-- All the readings of a load, if it did not throw.
abbrev Each : {A : Type 0} → (A → Type 0) → Result (List A) → Type 0
Each P (ok xs) = All P xs
Each P (err what) = Unit {0}

module _ {E W J : Type 0} (lib : Platform E W J) where
  -- A reading of the environmental table, and one of the soil table: the fields that the other table
  -- supplies are nought.
  IsEnvironmental : TelemetryReading W → Type 0
  IsEnvironmental r =
      (r.label ≡ "Historical_ENV")
      × (r.soil ≡ lib.real.nought)
      × (r.gas ≡ lib.real.nought)
      × (r.raindrop ≡ lib.real.nought)

  IsSoil : TelemetryReading W → Type 0
  IsSoil r =
      (r.label ≡ "Historical_Soil")
      × (r.temperature ≡ lib.real.nought)
      × (r.humidity ≡ lib.real.nought)
      × (r.light ≡ lib.real.nought)

  build_env_reading-IsEnvironmental :
      (row : Row) (r : TelemetryReading W) → build_env_reading lib row ≡ ok r → IsEnvironmental r
  unfolding build_env_reading IsEnvironmental
  build_env_reading-IsEnvironmental row r h = ground arith

  build_soil_reading-IsSoil :
      (row : Row) (r : TelemetryReading W) → build_soil_reading lib row ≡ ok r → IsSoil r
  unfolding build_soil_reading IsSoil
  build_soil_reading-IsSoil row r h = ground arith

  cons-Each :
      (P : TelemetryReading W → Type 0) (r : Result (TelemetryReading W))
      (rest : Result (List (TelemetryReading W)))
      → ((a : TelemetryReading W) → r ≡ ok a → P a)
      → Each P rest
      → Each P (bind_result r λ a. map_ok (λ rs. a ∷ rs) rest)
  cons-Each P (ok a) (ok rs) p q = (p a refl, q)
  cons-Each P (ok a) (err what) p q = tt
  cons-Each P (err what) rest p q = tt

  build_all-Each :
      (P : TelemetryReading W → Type 0) (build : Row → Result (TelemetryReading W))
      (each : (row : Row) (r : TelemetryReading W) → build row ≡ ok r → P r) (rows : List Row)
      → Each P (build_all lib build rows)
  unfolding build_all
  build_all-Each P build each [] = tt
  build_all-Each P build each (row ∷ rows) =
      cons-Each P (build row) (build_all lib build rows) (each row)
        (build_all-Each P build each rows)

  reverse-Each :
      (P : TelemetryReading W → Type 0) (r : Result (List (TelemetryReading W)))
      → Each P r
      → Each P (map_ok reverse r)
  reverse-Each P (ok rs) h = All-reverse P rs h
  reverse-Each P (err what) h = tt

  -- What a load returns, by the result set that it meets.
  fetched :
      (Row → Result (TelemetryReading W))
      → Bool
      → Option (List Row)
      → Result (List (TelemetryReading W))
  fetched build false res = ok []
  fetched build true none = ok []
  fetched build true (some rows) = map_ok reverse (build_all lib build rows)

  load-fetched :
      (build : Row → Result (TelemetryReading W)) (query : String) (w : World E W)
      → let (executed, w2) = execute lib query (refresh_connection lib w).1 in
        (load lib build query w).0 ≡ fetched build executed (store_result lib w2).0
  unfolding load fetched
  load-fetched build query w = ground arith

  fetched-Each :
      (P : TelemetryReading W → Type 0) (build : Row → Result (TelemetryReading W))
      (each : (row : Row) (r : TelemetryReading W) → build row ≡ ok r → P r) (executed : Bool)
      (res : Option (List Row))
      → Each P (fetched build executed res)
  unfolding fetched
  fetched-Each P build each false res = tt
  fetched-Each P build each true none = tt
  fetched-Each P build each true (some rows) =
      reverse-Each P (build_all lib build rows) (build_all-Each P build each rows)

  load-Each :
      (P : TelemetryReading W → Type 0) (build : Row → Result (TelemetryReading W))
      (each : (row : Row) (r : TelemetryReading W) → build row ≡ ok r → P r) (query : String)
      (w : World E W)
      → Each P (load lib build query w).0
  load-Each P build each query w =
      subst (Each P) (sym (load-fetched build query w)) (fetched-Each P build each _ _)

  -- Whatever the connection and the table hold, each reading that `loadEnvironmental` returns is
  -- labelled as environmental and has nought in the fields of the soil table.
  load_environmental-IsEnvironmental :
      (limit : ℕ) (w : World E W) (rs : List (TelemetryReading W))
      → (load_environmental lib limit w).0 ≡ ok rs
      → All IsEnvironmental rs
  unfolding load_environmental
  load_environmental-IsEnvironmental limit w rs h =
      subst (Each IsEnvironmental) h
        (load-Each IsEnvironmental (build_env_reading lib) build_env_reading-IsEnvironmental _ w)

  -- Each reading that `loadSoilAndAir` returns is labelled as one of the soil, and has nought in the
  -- fields of the environmental table.
  load_soil_and_air-IsSoil :
      (limit : ℕ) (w : World E W) (rs : List (TelemetryReading W))
      → (load_soil_and_air lib limit w).0 ≡ ok rs
      → All IsSoil rs
  unfolding load_soil_and_air
  load_soil_and_air-IsSoil limit w rs h =
      subst (Each IsSoil) h
        (load-Each IsSoil (build_soil_reading lib) build_soil_reading-IsSoil _ w)
