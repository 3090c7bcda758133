-- ===== src/Domain.antt =====
-- domain/telemetry_models.hpp: channels, readings, frames, and their JSON.
pub mod Codec
use aqua_regulator_server.Base.{
  ℕ, ◌≡◌, refl, String, Bool, true, false, List, [], ◌∷◌, map, Result, ok, err,
}
use aqua_regulator_server.Platform.{Double, Json}

pub data TelemetryChannel : Type 0 where
  realtime historical_environment historical_soil : TelemetryChannel

-- Equality of channels, by which a map over channels finds its entry.
abbrev pub same_channel : TelemetryChannel → TelemetryChannel → Bool
same_channel realtime realtime = true
same_channel historical_environment historical_environment = true
same_channel historical_soil historical_soil = true
same_channel _ _ = false

pub same_channel-eq : (c d : TelemetryChannel) → same_channel c d ≡ true → c ≡ d
same_channel-eq realtime realtime h = refl
same_channel-eq historical_environment historical_environment h = refl
same_channel-eq historical_soil historical_soil h = refl
same_channel-eq realtime historical_environment h = cc
same_channel-eq realtime historical_soil h = cc
same_channel-eq historical_environment realtime h = cc
same_channel-eq historical_environment historical_soil h = cc
same_channel-eq historical_soil realtime h = cc
same_channel-eq historical_soil historical_environment h = cc

-- `TelemetryChannelHash`: the enumerator's number.
pub telemetry_channel_hash : TelemetryChannel → ℕ
telemetry_channel_hash realtime = 0
telemetry_channel_hash historical_environment = 1
telemetry_channel_hash historical_soil = 2

pub record TelemetryReading (W : Type 0) : Type 0 where
  pub label : String
  pub timestamp : String
  pub temperature : W
  pub humidity : W
  pub light : W
  pub soil : W
  pub gas : W
  pub raindrop : W

pub record TelemetryFrame (W : Type 0) : Type 0 where
  pub channel : TelemetryChannel
  pub readings : List (TelemetryReading W)
  pub snapshot : Bool
  pub correlation_id : String

unfoldable pub channel_name : TelemetryChannel → String
channel_name realtime = "realtime"
channel_name historical_environment = "historical_env"
channel_name historical_soil = "historical_soil"

-- A fresh `TelemetryReading`: its member initialisers.
abbrev pub blank_reading : {W : Type 0} → Double W → TelemetryReading W
blank_reading real = record {
  label = "Realtime";
  timestamp = "";
  temperature = real.nought;
  humidity = real.nought;
  light = real.nought;
  soil = real.nought;
  gas = real.nought;
  raindrop = real.nought;
}

infixl 5 ◌>>=◌
abbrev ◌>>=◌ : {A B : Type 0} → Result A → (A → Result B) → Result B
ok a >>= f = f a
err what >>= f = err what

module _ {J W : Type 0} (json : Json J W) where
  open json use {object, array, text, double, boolean, value_text, value_double}

  -- The fields of a reading's object, in the order of `toJson`.
  unfoldable pub reading_fields : TelemetryReading W → List (String × J)
  reading_fields r =
      ("label", text r.label)
      ∷ ("timestamp", text r.timestamp)
      ∷ ("temperature", double r.temperature)
      ∷ ("humidity", double r.humidity)
      ∷ ("light", double r.light)
      ∷ ("soil", double r.soil)
      ∷ ("gas", double r.gas)
      ∷ ("raindrop", double r.raindrop)
      ∷ []

  unfoldable pub reading_to_json : TelemetryReading W → J
  reading_to_json r = object (reading_fields r)

  unfoldable pub reading_from_json : Double W → J → Result (TelemetryReading W)
  reading_from_json real j = do
    label ← value_text j "label" ""
    timestamp ← value_text j "timestamp" ""
    temperature ← value_double j "temperature" real.nought
    humidity ← value_double j "humidity" real.nought
    light ← value_double j "light" real.nought
    soil ← value_double j "soil" real.nought
    gas ← value_double j "gas" real.nought
    raindrop ← value_double j "raindrop" real.nought
    ok (record {
      label = label;
      timestamp = timestamp;
      temperature = temperature;
      humidity = humidity;
      light = light;
      soil = soil;
      gas = gas;
      raindrop = raindrop;
    })

  unfoldable pub frame_to_json : TelemetryFrame W → J
  frame_to_json frame = object (
      ("channel", text (channel_name frame.channel))
      ∷ ("snapshot", boolean frame.snapshot)
      ∷ ("correlationId", text frame.correlation_id)
      ∷ ("readings", array (map reading_to_json frame.readings))
      ∷ [])
