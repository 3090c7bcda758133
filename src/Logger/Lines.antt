-- ===== src/Logger/Lines.antt =====
-- core/logger.{hpp,cxx}: which lines reach the console and the file.
use aqua_regulator_server.Base.{
  ◌≡◌, refl, ◌∙◌, String, Bool, true, false, List, [], ◌∷◌, ◌++◌, append-nil, append_assoc, ok,
  str_eq, ltb, ◌&&◌, if◌then◌else◌, arith,
}
use aqua_regulator_server.Logger.{
  LogLevel, level_number, Stream, closed, good, failed, is_open, Logging, stream, put_line,
  open_file, configure, line_of, write, log,
}
use aqua_regulator_server.Platform.{Platform}

-- A call of `log`.
pub record Entry : Type 0 where
  pub level : LogLevel
  pub component : String
  pub args : List String

-- What is written to the file is kept.
abbrev pub takes : Stream → Bool
takes closed = false
takes good = true
takes failed = false

abbrev pub extend : Bool → List String → List String → List String
extend true lines sink = sink ++ lines
extend false lines sink = sink

extend-nil : (b : Bool) (sink : List String) → extend b [] sink ≡ sink
extend-nil true sink = append-nil sink
extend-nil false sink = refl

module _ {E W J : Type 0} (lib : Platform E W J) where
  pub log_all : List Entry → Logging E → Logging E
  log_all [] s = s
  log_all (e ∷ es) s = log_all es (log lib e.level e.component e.args s)

  -- The lines of the entries from a level on, each with the time at which it is written.
  pub lines : LogLevel → List Entry → E → List String
  lines min [] e = []
  lines min (x ∷ xs) e =
      if ltb (level_number x.level) (level_number min)
      then lines min xs e
      else line_of lib (lib.clock.system_now e).0 x.level x.component (stream x.args)
        ∷ lines min xs (lib.clock.system_now e).1

  -- Any sequence of log calls puts the lines of the entries from the minimum level on, in the order of
  -- the calls, on the console if it is enabled, and the same lines into the file if it is enabled and
  -- its stream in order, and the others nowhere; the settings stay.
  pub log_all_lem :
      (es : List Entry) (s : Logging E)
      → ((log_all es s).console
          ≡ extend s.logger.console_enabled (lines s.logger.min_level es s.env) s.console)
        × ((log_all es s).file
            ≡ extend
                (s.logger.file_enabled && takes s.logger.file_stream)
                (lines s.logger.min_level es s.env)
                s.file)
        × ((log_all es s).logger ≡ s.logger)
  unfolding log_all lines log write put_line
  log_all_lem [] s = ground (
    arith,
    extend-nil s.logger.console_enabled s.console,
    extend-nil (s.logger.file_enabled && takes s.logger.file_stream) s.file,
  )
  log_all_lem (x ∷ xs) s =
      let next = log lib x.level x.component x.args s in
      let line = line_of lib (lib.clock.system_now s.env).0 x.level x.component (stream x.args) in
      let rest = lines s.logger.min_level xs (lib.clock.system_now s.env).1 in
      ground (
        arith,
        log_all_lem xs next,
        append_assoc s.console (line ∷ []) rest,
        append_assoc s.file (line ∷ []) rest,
      )

  -- Where the logger has its file open, a second `configure` with a path keeps the file enabled, and
  -- from then on no log call puts a line into it.
  pub configure_again :
      (level : LogLevel) (path : String) (use_console : Bool) (es : List Entry) (s s' : Logging E)
      → is_open s.logger.file_stream ≡ true
      → str_eq path "" ≡ false
      → configure lib level path use_console s ≡ (ok tt, s')
      → (s'.logger.file_enabled ≡ true) × ((log_all es s').file ≡ s.file)
  unfolding configure open_file
  configure_again level path use_console es s s' opened named h =
      let shut : takes s'.logger.file_stream ≡ false = ground arith in
      let same : s'.file ≡ s.file = ground arith in
      (ground arith, (log_all_lem es s').1 ∙ ground arith)
