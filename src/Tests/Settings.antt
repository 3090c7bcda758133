-- ===== src/Tests/Settings.antt =====
-- The configuration manager at concrete inputs.
use aqua_regulator_server.Base.{ℕ, ◌≡◌, refl, String, ok, str_eq, if◌then◌else◌}
use aqua_regulator_server.Config.Manager.{
  from_json, default_json, default_fields, database_template, sensor_template, publisher_template,
  video_template, health_template, pipeline_template, redis_template,
}
use aqua_regulator_server.Config.Template.{template, from_json-default_json}
use aqua_regulator_server.Platform.{Platform}
use aqua_regulator_server.Tests.Sim.{
  Outside, Value, string, missing, object, sim, sim-IsJson, plain, no_device,
}

-- A file with a host for the database and a text where the port of the sensor is due.
abbrev one_field : String → Value → String → Value
one_field key v k = if str_eq key k then v else missing

abbrev broken : Value
broken = object (λ k.
    if str_eq k "database"
    then object (one_field "host" (string "db"))
    else if str_eq k "sensor"
    then object (one_field "port" (string "x"))
    else missing)

abbrev writing : Platform Outside ℕ Value
writing = sim (λ b. ok (plain.json.object (default_fields plain))) no_device

from_json-default_json_example : from_json writing (default_json writing) ≡ template
unfolding default_fields database_template sensor_template publisher_template video_template
    health_template pipeline_template redis_template
from_json-default_json_example =
    from_json-default_json writing (sim-IsJson (λ b. ok (plain.json.object (default_fields plain))))
      refl
