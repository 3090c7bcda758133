-- ===== src/Tests/Logs.antt =====
-- The logger at concrete runs.
use aqua_regulator_server.Base.{◌≡◌, refl, true, List, [], ◌∷◌}
use aqua_regulator_server.Logger.{Logging, debug, info, warn, good, failed, configure, open_file}
use aqua_regulator_server.Logger.Lines.{Entry, extend, log_all, lines, log_all_lem, configure_again}
use aqua_regulator_server.Tests.Sim.{Outside, plain, outside}

-- An open file and the console, from the level Info on.
abbrev logging : Logging Outside
logging = record {
  logger = record {
    min_level = info;
    file_stream = good;
    console_enabled = true;
    file_enabled = true;
  };
  env = outside;
  console = [];
  file = [];
}

abbrev entries : List Entry
entries =
    record { level = debug; component = "cache"; args = "miss" ∷ [] }
    ∷ record { level = warn; component = "redis"; args = "lost " ∷ "1" ∷ [] }
    ∷ []

log_all_lem_example :
    ((log_all plain entries logging).console ≡ extend true (lines plain info entries outside) [])
    × ((log_all plain entries logging).file ≡ extend true (lines plain info entries outside) [])
    × ((log_all plain entries logging).logger ≡ logging.logger)
log_all_lem_example = log_all_lem plain entries logging

-- Behind a second `configure`.
abbrev again : Logging Outside
again = record logging {
  logger = record (logging.logger) { min_level = debug; file_stream = failed };
}

configure_again_example :
    (again.logger.file_enabled ≡ true) × ((log_all plain entries again).file ≡ [])
unfolding configure open_file
configure_again_example =
    configure_again plain debug "other.log" true entries logging again refl refl refl
