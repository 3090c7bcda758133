-- ===== src/Database.antt =====
-- infrastructure/database: `MariaDbClient` and `TelemetryRepository`. The result set that
-- `mysql_store_result` returns is the list of its rows.
pub mod Rows
use Prim.Native.String.{◌++◌ as ◌<>◌}
use aqua_regulator_server.Base.{
  ℕ, String, Bool, true, false, Option, none, some, List, [], ◌∷◌, reverse, Result, ok, err,
  if◌then◌else◌,
}
use aqua_regulator_server.Base.Decimal.{to_string}
use aqua_regulator_server.Config.{DatabaseConfig}
use aqua_regulator_server.Domain.{TelemetryReading, blank_reading}
use aqua_regulator_server.Platform.{Platform, Row}
use aqua_regulator_server.World.{
  World, Action, Throwing, pure, call, gets, attempt, modify, ◌>>=◌, ◌>>◌,
}

-- `ok (f a)` or the exception.
abbrev pub map_ok : {A B : Type 0} → (A → B) → Result A → Result B
map_ok f (ok a) = ok (f a)
map_ok f (err what) = err what

abbrev bind_result : {A B : Type 0} → Result A → (A → Result B) → Result B
bind_result (ok a) f = f a
bind_result (err what) f = err what

-- row[i] ? row[i] : "N/A"
unfoldable pub text_or_na : Option String → String
text_or_na none = "N/A"
text_or_na (some s) = s

module _ {E W J : Type 0} (lib : Platform E W J) where
  open lib use {mysql, real}

  unfoldable pub set_handle : Option ℕ → Action E W (Unit {0})
  set_handle h = modify (λ w. record w { repository = record (w.repository) { handle = h } })

  -- `MariaDbClient::initialize`
  unfoldable pub initialize_client : Action E W Bool
  initialize_client = do
    handle ← call mysql.init
    set_handle handle
    elim handle [ none ↦ pure false | some h ↦ pure true ]

  -- handle_ == nullptr && !initialize(), negated
  unfoldable pub have_handle : Action E W Bool
  have_handle w = elim w.repository.handle [ none ↦ initialize_client w | some h ↦ (true, w) ]

  -- A call on the handle; each caller has made sure that there is one, or returns false.
  unfoldable pub with_handle : {A : Type 0} → A → (ℕ → E → A × E) → Action E W A
  with_handle absent f w = elim w.repository.handle [ none ↦ (absent, w) | some h ↦ call (f h) w ]

  -- `connect`
  unfoldable pub connect : DatabaseConfig → Action E W Bool
  connect cfg = do
    modify (λ w. record w { repository = record (w.repository) { config = cfg } })
    ready ← have_handle
    if ready
        then with_handle false
            (λ h. mysql.real_connect h cfg.host cfg.user cfg.password cfg.schema cfg.port)
        else pure false

  unfoldable pub is_connected : World E W → Bool
  is_connected w = elim w.repository.handle [ none ↦ false | some h ↦ true ]

  unfoldable pub ping : Action E W Bool
  ping = with_handle false mysql.ping

  unfoldable pub execute : String → Action E W Bool
  execute query = do
    ready ← have_handle
    if ready then with_handle false (λ h. mysql.query h query) else pure false

  unfoldable pub store_result : Action E W (Option (List Row))
  store_result = with_handle none mysql.store_result

  unfoldable pub disconnect : Action E W (Unit {0})
  disconnect w = elim w.repository.handle [
    | none ↦ (tt, w)
    | some h ↦ set_handle none (record w { env = mysql.close h w.env })
  ]

  -- `TelemetryRepository::initialize`
  unfoldable pub initialize : DatabaseConfig → Action E W Bool
  initialize cfg = do ready ← initialize_client; if ready then connect cfg else pure false

  -- `refreshConnection`; what the three calls return is ignored.
  unfoldable pub reopen : Action E W (Unit {0})
  reopen = do
    disconnect
    ready ← initialize_client
    cfg ← gets (λ w. w.repository.config)
    connected ← connect cfg
    pure tt

  unfoldable pub refresh_connection : Action E W (Unit {0})
  refresh_connection = do
    open_handle ← gets is_connected
    alive ← if open_handle then ping else pure false
    if alive then pure tt else reopen

  -- row[i] ? std::stod(row[i]) : 0.0
  unfoldable pub number_or_nought : Option String → Result W
  number_or_nought none = ok real.nought
  number_or_nought (some s) = real.stod s

  unfoldable pub build_env_reading : Row → Result (TelemetryReading W)
  build_env_reading (time, a, b, c) = bind_result (number_or_nought a) λ temperature.
      bind_result (number_or_nought b) λ humidity. bind_result (number_or_nought c) λ light.
        ok (record (blank_reading real) {
          label = "Historical_ENV";
          timestamp = text_or_na time;
          temperature = temperature;
          humidity = humidity;
          light = light;
        })

  unfoldable pub build_soil_reading : Row → Result (TelemetryReading W)
  build_soil_reading (time, a, b, c) = bind_result (number_or_nought a) λ soil.
      bind_result (number_or_nought b) λ gas. bind_result (number_or_nought c) λ raindrop.
        ok (record (blank_reading real) {
          label = "Historical_Soil";
          timestamp = text_or_na time;
          soil = soil;
          gas = gas;
          raindrop = raindrop;
        })

  -- The loop over the rows: the first row that throws ends it.
  unfoldable pub build_all :
      (Row → Result (TelemetryReading W)) → List Row → Result (List (TelemetryReading W))
  build_all build [] = ok []
  build_all build (row ∷ rows) =
      bind_result (build row) λ r. map_ok (λ rs. r ∷ rs) (build_all build rows)

  -- The two queries share all but their text and the building of a row.
  unfoldable pub load :
      (Row → Result (TelemetryReading W)) → String → Throwing E W (List (TelemetryReading W))
  load build query = do
    refresh_connection
    executed ← execute query
    if executed
        then (do
          res ← store_result
          elim res [
            | none ↦ pure (ok [])
            | some rows ↦ attempt (map_ok reverse (build_all build rows))
          ])
        else pure (ok [])

  unfoldable pub load_environmental : ℕ → Throwing E W (List (TelemetryReading W))
  load_environmental limit = load build_env_reading (
      "SELECT time, temperature, humidity, light FROM environmental_conditions ORDER BY time DESC LIMIT "
      <> to_string limit)

  unfoldable pub load_soil_and_air : ℕ → Throwing E W (List (TelemetryReading W))
  load_soil_and_air limit = load build_soil_reading (
      "SELECT time, soil, gas, raindrop FROM soil_and_air_quality ORDER BY time DESC LIMIT "
      <> to_string limit)
