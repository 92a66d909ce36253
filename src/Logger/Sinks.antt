-- ===== src/Logger/Sinks.antt =====
-- The sinks of a logger.
use tzsp_server.Prelude.{◌≡◌, ◌≢◌, ◌⊎◌, true, false, Option, none, [], Bytes, ok, arith}
use tzsp_server.Prelude.Text.{text_eq_iff}
use tzsp_server.Logger.{Level, Logger, LoggerConfig, new_logger}

-- The sinks of a new logger for a configuration.
pub record HasSinks (cfg : LoggerConfig) (l : Logger) : Type 0 where
  pub some_sink : (l.file ≢ none) ⊎ (l.console ≢ none)
  pub file_if : cfg.file.enabled ≡ true → cfg.file.path ≢ [] → l.file ≢ none
  pub no_file : (cfg.file.enabled ≡ false) ⊎ (cfg.file.path ≡ []) → l.file ≡ none
  pub console_if : cfg.console.enabled ≡ true → l.console ≢ none
  pub no_console : cfg.console.enabled ≡ false → l.file ≢ none → l.console ≡ none

-- A logger that is made has a sink whatever is configured: the file exactly if it is enabled with a
-- path, and the console exactly if it is enabled or there is no file.
pub new_logger-HasSinks :
    (parse_level : Bytes → Option Level) (open_error : Option Bytes) (cfg : LoggerConfig)
    (l : Logger)
    → new_logger parse_level open_error cfg ≡ ok l
    → HasSinks cfg l
unfolding new_logger
new_logger-HasSinks parse_level open_error cfg l e = record {
  some_sink = ground (arith, text_eq_iff cfg.file.path []);
  file_if = ground (arith, text_eq_iff cfg.file.path []);
  no_file = ground (arith, text_eq_iff cfg.file.path []);
  console_if = ground (arith, text_eq_iff cfg.file.path []);
  no_console = ground (arith, text_eq_iff cfg.file.path []);
}
