-- ===== src/Tests/Sim.antt =====
-- A simulated outside world: clocks that tick at each reading, a device whose registers are given, and a
-- Redis server that answers. Readings are whole numbers, a JSON object is the function of its fields.
use aqua_regulator_server.Base.{
  ℕ, suc, ◌+◌, ◌*◌, ◌/◌, ◌%◌, ◌^◌, refl, Bool, true, false, String, Option, none, some, List, [],
  ◌∷◌, Bytes, codes, Result, ok, err, str_eq, if◌then◌else◌,
}
use aqua_regulator_server.Base.Int.{ℤ}
use aqua_regulator_server.Cache.Available.{trimmed, IsUp}
use aqua_regulator_server.Config.{build_default_config}
use aqua_regulator_server.Domain.Codec.{field, IsJson}
use aqua_regulator_server.Platform.{Clock, Files, Json, Modbus, Mysql, Redis, Platform}
use aqua_regulator_server.World.{World, TelemetryCache}

pub data Value : Type 0 where
  string : String → Value
  double natural : ℕ → Value
  integer : ℤ → Value
  boolean : Bool → Value
  array missing : Value
  object : (String → Value) → Value

abbrev pub or_missing : Option Value → Value
or_missing none = missing
or_missing (some v) = v

abbrev pub member : Value → String → Value
member (object f) key = f key
member (string s) key = missing
member (double n) key = missing
member (natural n) key = missing
member (integer z) key = missing
member (boolean b) key = missing
member array key = missing
member missing key = missing

abbrev as_text : String → Value → Result String
as_text d (string s) = ok s
as_text d missing = ok d
as_text d (double n) = err "type"
as_text d (natural n) = err "type"
as_text d (integer z) = err "type"
as_text d (boolean b) = err "type"
as_text d array = err "type"
as_text d (object f) = err "type"

abbrev as_double : ℕ → Value → Result ℕ
as_double d (double n) = ok n
as_double d missing = ok d
as_double d (string s) = err "type"
as_double d (natural n) = err "type"
as_double d (integer z) = err "type"
as_double d (boolean b) = err "type"
as_double d array = err "type"
as_double d (object f) = err "type"

abbrev as_int : ℤ → Value → Result ℤ
as_int d (integer z) = ok z
as_int d missing = ok d
as_int d (string s) = err "type"
as_int d (natural n) = err "type"
as_int d (double n) = err "type"
as_int d (boolean b) = err "type"
as_int d array = err "type"
as_int d (object f) = err "type"

abbrev as_natural : ℕ → Value → Result ℕ
as_natural d (natural n) = ok n
as_natural d missing = ok d
as_natural d (string s) = err "type"
as_natural d (double n) = err "type"
as_natural d (integer z) = err "type"
as_natural d (boolean b) = err "type"
as_natural d array = err "type"
as_natural d (object f) = err "type"

abbrev as_bool : Bool → Value → Result Bool
as_bool d (boolean b) = ok b
as_bool d missing = ok d
as_bool d (string s) = err "type"
as_bool d (double n) = err "type"
as_bool d (natural n) = err "type"
as_bool d (integer z) = err "type"
as_bool d array = err "type"
as_bool d (object f) = err "type"

abbrev present : Value → Option Value
present missing = none
present (string s) = some (string s)
present (double n) = some (double n)
present (natural n) = some (natural n)
present (integer z) = some (integer z)
present (boolean b) = some (boolean b)
present array = some array
present (object f) = some (object f)

-- The text of an object is its label.
abbrev pub dump : Value → Bytes
dump v = elim (member v "label") [
  | string s ↦ codes s
  | double n ↦ []
  | natural n ↦ []
  | integer z ↦ []
  | boolean b ↦ []
  | array ↦ []
  | missing ↦ codes "json"
  | object f ↦ []
]

abbrev json_over : (Bytes → Result Value) → Json Value ℕ
json_over parse = record {
  parse = parse;
  dump = dump;
  dump_indented = λ n. dump;
  object = λ fields. object (λ key. or_missing (field key fields));
  null = missing;
  array = λ values. array;
  text = string;
  double = double;
  natural = natural;
  boolean = boolean;
  find = λ v key. present (member v key);
  value_text = λ v key d. as_text d (member v key);
  value_double = λ v key d. as_double d (member v key);
  value_int = λ v key d. as_int d (member v key);
  value_u16 = λ v key d. as_natural d (member v key);
  value_bool = λ v key d. as_bool d (member v key);
}

pub record Outside : Type 0 where
  pub steady : ℕ
  pub system : ℕ
  pub lists : String → List Bytes

abbrev sim_clock : Clock Outside
sim_clock = record {
  steady_now = λ e. (e.steady, record e { steady = suc e.steady });
  system_now = λ e. (e.system, record e { system = suc e.system });
  put_time = λ t. "noon";
  sleep_for = λ n e. record e { steady = e.steady + n };
  to_time_t = λ n. n / 1_000_000_000;
}

abbrev sim_modbus : (ℕ → Option (List ℕ)) → Modbus Outside
sim_modbus registers = record {
  new_tcp = λ ip port e. (some 1, e);
  connect = λ ctx e. (true, e);
  read_registers = λ ctx addr n e. (registers n, e);
  write_register = λ ctx addr v e. (true, e);
  write_registers = λ ctx addr values e. (true, e);
  close = λ ctx e. e;
  free = λ ctx e. e;
  strerror = λ e. "timeout";
}

abbrev sim_mysql : Mysql Outside
sim_mysql = record {
  init = λ e. (some 1, e);
  real_connect = λ h a b c d p e. (true, e);
  ping = λ h e. (true, e);
  query = λ h q e. (true, e);
  store_result = λ h e. (some [], e);
  close = λ h e. e;
}

abbrev sim_redis : Redis Outside
sim_redis = record {
  create = λ h p w d t s e. (ok tt, e);
  ping = λ e. (ok tt, e);
  set = λ k v e. (ok tt, e);
  setex = λ k n v e. (ok tt, e);
  get = λ k e. (ok none, e);
  lpush =
      λ k v e. (ok tt, record e { lists = λ j. if str_eq k j then v ∷ e.lists k else e.lists j });
  ltrim = λ k a b e.
      (ok tt, record e { lists = λ j. if str_eq k j then trimmed b (e.lists k) else e.lists j });
  lrange = λ k a b e. (ok (e.lists k), e);
  expire = λ k n e. (ok tt, e);
  publish = λ c m e. (ok tt, e);
}

-- One file, which is always there and was written at time 9.
abbrev sim_files : Files Outside
sim_files = record {
  min_time = 0;
  epoch = 0;
  parent_path = λ p. "config";
  last_write_time = λ p e. (some 9, e);
  create_directories = λ p e. (ok tt, e);
  read_file = λ p e. (some (codes "{}"), e);
  write_file = λ p b e. e;
  open_append = λ p e. (true, e);
}

-- The simulated libraries over a parser and a device.
abbrev pub sim : (Bytes → Result Value) → (ℕ → Option (List ℕ)) → Platform Outside ℕ Value
sim parse registers = record {
  clock = sim_clock;
  real = record {
    nought = 0;
    over_hundred = λ n. n / 100;
    hundred_times = λ x. x * 100;
    cast_u16 = λ x. x % 2 ^ 16;
    stod = λ s. ok 0;
  };
  json = json_over parse;
  modbus = sim_modbus registers;
  server = record { start = λ a p e. (true, e); connection_count = λ e. 1 };
  mysql = sim_mysql;
  redis = sim_redis;
  files = sim_files;
}

abbrev pub no_json : Bytes → Result Value
no_json b = err "parse error"

abbrev pub no_device : ℕ → Option (List ℕ)
no_device n = none

abbrev pub plain : Platform Outside ℕ Value
plain = sim no_json no_device

pub plain-IsUp : (parse : Bytes → Result Value) → IsUp (sim parse no_device) (λ e. e.lists)
plain-IsUp parse = record {
  ping_ok = λ e. refl;
  lpush_ok = λ k v e. refl;
  ltrim_ok = λ k a b e. refl;
  expire_ok = λ k n e. refl;
  lrange_ok = λ k e. refl;
  ping_view = λ e. refl;
  lpush_view = λ k v e j. refl;
  ltrim_view = λ k s e j. refl;
  expire_view = λ k n e. refl;
  lrange_view = λ k e. refl;
  steady_view = λ e. refl;
  system_view = λ e. refl;
}

pub sim-IsJson : (parse : Bytes → Result Value) → IsJson (json_over parse)
sim-IsJson parse = record {
  value_text_found = λ fields key default s h. rw h;
  value_double_found = λ fields key default x h. rw h;
  value_u16_found = λ fields key default n h b. rw h;
  value_bool_found = λ fields key default b h. rw h;
  find_found = λ fields inner key h. rw h;
}

-- A world at rest at time 100 s, with or without a connection to the device.
abbrev pub outside : Outside
outside = record { steady = 100_000_000_000; system = 7; lists = λ k. [] }

abbrev pub cache : TelemetryCache ℕ
cache = record { capacity = 2; buffer = λ c. [] }

abbrev pub world : Option ℕ → World Outside ℕ
world modbus = record {
  env = outside;
  manager = record {
    config = build_default_config;
    path = "config/app_config.json";
    last_write_time = 0;
  };
  states = [];
  calls = [];
  gateway = record { config = build_default_config.sensor; modbus = modbus; last_attempt = 0 };
  listener = record { conn_id = 0; conn_ids = 3 ∷ [] };
  reload_requested = false;
  redis_client = record { config = build_default_config.redis; connected = true; last_attempt = 0 };
  repository = record { config = build_default_config.database; handle = some 1 };
  service = record {
    pipeline = build_default_config.pipeline;
    memory_cache = cache;
    use_redis = false;
    correlation = 0;
  };
}
