-- ===== src/Logger.antt =====
-- core/logger.{hpp,cxx}: `Logger`. What is printed of an argument of `log` is its text here.
pub mod Lines
use Prim.Native.String.{◌++◌ as ◌<>◌}
use aqua_regulator_server.Base.{
  ℕ, String, Bool, true, false, List, [], ◌∷◌, ◌++◌, Result, ok, err, str_eq, ltb, not,
  if◌then◌else◌,
}
use aqua_regulator_server.Platform.{Platform}

pub data LogLevel : Type 0 where
  trace debug info warn error critical : LogLevel

-- The enumerators' numbers, which `<` compares.
unfoldable pub level_number : LogLevel → ℕ
level_number trace = 0
level_number debug = 1
level_number info = 2
level_number warn = 3
level_number error = 4
level_number critical = 5

unfoldable pub level_to_string : LogLevel → String
level_to_string trace = "TRACE"
level_to_string debug = "DEBUG"
level_to_string info = "INFO"
level_to_string warn = "WARN"
level_to_string error = "ERROR"
level_to_string critical = "CRITICAL"

-- `std::ofstream`: without a file, with an open file, or with an open file and its failure bit set, so
-- that what is written to it is lost.
pub data Stream : Type 0 where
  closed good failed : Stream

abbrev pub is_open : Stream → Bool
is_open closed = false
is_open good = true
is_open failed = true

-- The members of `Logger`.
pub record Logger : Type 0 where
  pub min_level : LogLevel
  pub file_stream : Stream
  pub console_enabled : Bool
  pub file_enabled : Bool

-- Its member initialisers.
abbrev pub initial : Logger
initial = record {
  min_level = info;
  file_stream = closed;
  console_enabled = true;
  file_enabled = false;
}

-- The logger with the outside world, and the lines that have reached the console and the file.
pub record Logging (E : Type 0) : Type 0 where
  pub logger : Logger
  pub env : E
  pub console : List String
  pub file : List String

-- oss << arg1 << … << argN
unfoldable pub stream : List String → String
stream [] = ""
stream (arg ∷ args) = arg <> stream args

-- fileStream_ << line: only a stream in order takes it.
unfoldable pub put_line : Stream → String → List String → List String
put_line good line file = file ++ line ∷ []
put_line closed line file = file
put_line failed line file = file

module _ {E W J : Type 0} (lib : Platform E W J) where
  open lib use {clock, files}

  -- `fileStream_.open`: a second open fails and leaves the first file open.
  unfoldable pub open_file : String → Stream → E → Stream × E
  open_file path closed e =
      let (opened, e') = files.open_append path e in (if opened then good else closed, e')
  open_file path good e = (failed, e)
  open_file path failed e = (failed, e)

  -- `configure`. Creating the directory may throw.
  unfoldable pub configure : LogLevel → String → Bool → Logging E → Result (Unit {0}) × Logging E
  configure level path use_console s =
      let l = record (s.logger) { min_level = level; console_enabled = use_console } in
      if str_eq path ""
      then (ok tt, record s { logger = l })
      else let (made, e) = files.create_directories (files.parent_path path) s.env in
        elim made [
          | err what ↦ (err what, record s { logger = l; env = e })
          | ok u ↦
              let (file_stream, e') = open_file path l.file_stream e in
              (
                ok tt,
                record s {
                  logger = record l {
                    file_stream = file_stream;
                    file_enabled = is_open file_stream;
                  };
                  env = e';
                },
              )
        ]

  unfoldable pub line_of : ℕ → LogLevel → String → String → String
  line_of now level component message =
      clock.put_time now
      <> (" [" <> (level_to_string level <> ("]" <> (" [" <> (component <> ("] " <> message))))))

  -- `write`
  unfoldable pub write : LogLevel → String → String → Logging E → Logging E
  write level component message s =
      let (now, e) = clock.system_now s.env in
      let line = line_of now level component message in
      record s {
        env = e;
        console = if s.logger.console_enabled then s.console ++ line ∷ [] else s.console;
        file = if s.logger.file_enabled then put_line s.logger.file_stream line s.file else s.file;
      }

  -- `log`
  unfoldable pub log : LogLevel → String → List String → Logging E → Logging E
  log level component args s =
      if ltb (level_number level) (level_number s.logger.min_level)
      then s
      else write level component (stream args) s
