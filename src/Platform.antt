-- ===== src/Platform.antt =====
-- The libraries that the server calls, as parameters: the standard clocks and `double`,
-- nlohmann::json, libmodbus (vendored under src/3rdparty), HPSocket, the MariaDB client library and
-- redis++. `E` is the outside world, on which a call acts and from which it reads its answer; `W` is
-- `double`; `J` is `nlohmann::json`. An exception is a `Result`.
use aqua_regulator_server.Base.{ℕ, String, Bool, Option, List, Bytes, Result}
use aqua_regulator_server.Base.Int.{ℤ}

-- `steady_clock` and `system_clock`, in nanoseconds, the local time as `put_time` prints it, and
-- `sleep_for`.
pub record Clock (E : Type 0) : Type 0 where
  pub steady_now : E → ℕ × E
  pub system_now : E → ℕ × E
  pub put_time : ℕ → String
  pub sleep_for : ℕ → E → E
  pub to_time_t : ℕ → ℕ

-- The files: `std::filesystem`, and the streams. A time of a file is a number,
-- `epoch` that of `file_time_type{}`, `none` an error; a file
-- that cannot be opened reads as `none`, and a failed write goes unnoticed.
pub record Files (E : Type 0) : Type 0 where
  pub min_time : ℕ
  pub epoch : ℕ
  pub parent_path : String → String
  pub last_write_time : String → E → Option ℕ × E
  pub create_directories : String → E → Result (Unit {0}) × E
  pub read_file : String → E → Option Bytes × E
  pub write_file : String → Bytes → E → E
  pub open_append : String → E → Bool × E

-- What the code does with a `double`.
pub record Double (W : Type 0) : Type 0 where
  pub nought : W
  pub over_hundred : ℕ → W
  pub hundred_times : W → W
  pub cast_u16 : W → ℕ
  pub stod : String → Result W

-- nlohmann::json: construction, `value` with a default (throws if the receiver is no object or the
-- field has another type), `find`, `parse` and `dump`.
pub record Json (J W : Type 0) : Type 0 where
  pub parse : Bytes → Result J
  pub dump : J → Bytes
  pub dump_indented : ℕ → J → Bytes
  pub object : List (String × J) → J
  pub null : J
  pub array : List J → J
  pub text : String → J
  pub double : W → J
  pub natural : ℕ → J
  pub boolean : Bool → J
  pub find : J → String → Option J
  pub value_text : J → String → String → Result String
  pub value_double : J → String → W → Result W
  pub value_int : J → String → ℤ → Result ℤ
  pub value_u16 : J → String → ℕ → Result ℕ
  pub value_bool : J → String → Bool → Result Bool

-- libmodbus. A context is named by a number, `none` is a null pointer, and `false` and `none` of the
-- later calls are the return value -1. A read that succeeds yields what it wrote to its buffer.
pub record Modbus (E : Type 0) : Type 0 where
  pub new_tcp : String → ℕ → E → Option ℕ × E
  pub connect : ℕ → E → Bool × E
  pub read_registers : ℕ → ℕ → ℕ → E → Option (List ℕ) × E
  pub write_register : ℕ → ℕ → ℕ → E → Bool × E
  pub write_registers : ℕ → ℕ → List ℕ → E → Bool × E
  pub close : ℕ → E → E
  pub free : ℕ → E → E
  pub strerror : E → String

-- HPSocket's `ITcpServer`; its `Send` is an entry of the trace in `World`.
pub record TcpServer (E : Type 0) : Type 0 where
  pub start : String → ℕ → E → Bool × E
  pub connection_count : E → ℕ

-- The MariaDB client library. A row has four columns, each a text or NULL.
abbrev pub Row : Type 0
Row = Option String × Option String × Option String × Option String

pub record Mysql (E : Type 0) : Type 0 where
  pub init : E → Option ℕ × E
  pub real_connect : ℕ → String → String → String → String → ℕ → E → Bool × E
  pub ping : ℕ → E → Bool × E
  pub query : ℕ → String → E → Bool × E
  pub store_result : ℕ → E → Option (List Row) × E
  pub close : ℕ → E → E

-- redis++: a call may throw `sw::redis::Error`.
pub record Redis (E : Type 0) : Type 0 where
  pub create : String → ℕ → String → ℕ → ℕ → ℕ → E → Result (Unit {0}) × E
  pub ping : E → Result (Unit {0}) × E
  pub set : String → Bytes → E → Result (Unit {0}) × E
  pub setex : String → ℕ → Bytes → E → Result (Unit {0}) × E
  pub get : String → E → Result (Option Bytes) × E
  pub lpush : String → Bytes → E → Result (Unit {0}) × E
  pub ltrim : String → ℤ → ℤ → E → Result (Unit {0}) × E
  pub lrange : String → ℤ → ℤ → E → Result (List Bytes) × E
  pub expire : String → ℕ → E → Result (Unit {0}) × E
  pub publish : String → Bytes → E → Result (Unit {0}) × E

pub record Platform (E W J : Type 0) : Type 0 where
  pub clock : Clock E
  pub real : Double W
  pub json : Json J W
  pub modbus : Modbus E
  pub server : TcpServer E
  pub mysql : Mysql E
  pub redis : Redis E
  pub files : Files E
