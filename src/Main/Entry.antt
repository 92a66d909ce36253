-- ===== src/Main/Entry.antt =====
-- cmd/tzsp_server/main.go, from the command line to the outputs: the version flag, the configuration and
-- the logger. `CommandLine` is what the package flag makes of the arguments; it ends the program itself
-- where they ask for help or are wrong. A failure before the outputs are made ends the program with the
-- exit code 1, and so do the failures behind it.
use tzsp_server.Prelude.{
  ℕ, ◌+◌, Bool, not, ◌&&◌, Option, List, [], ◌∷◌, ◌++◌, Bytes, if◌then◌else◌, Result, ok, err,
  panic, stuck,
}
use tzsp_server.Prelude.Int.{ℤ, pos, negsuc}
use tzsp_server.Prelude.Text.{codes, text_eq}
use tzsp_server.Prelude.Decimal.{decimal}
use tzsp_server.Decoder.{Dissection}
use tzsp_server.Config
use tzsp_server.Config.{ConfigFile, LoadError, load}
use tzsp_server.Logger.{
  Level, info_level, Argument, string, other, Logger, LoggerConfig, new_logger, log,
}
use tzsp_server.Server.{Event}
use tzsp_server.Main.{Surface, Closing, Exit, not_wired, server_failed, terminated, crashed, run}

pub record Flags : Type 0 where
  pub config_path : Bytes
  pub show_version : Bool

-- `flag.Parse`: on -h or -help it prints the usage and exits with 0, on bad arguments with 2.
pub data CommandLine : Type 0 where
  flags_found : Flags → CommandLine
  help_asked bad_arguments : CommandLine

abbrev pub logger_config : Config.LoggingConfig → LoggerConfig
logger_config cfg = record {
  file = record {
    enabled = cfg.file.enabled;
    level = cfg.file.level;
    format = cfg.file.format;
    path = cfg.file.path;
  };
  console = record {
    enabled = cfg.console.enabled;
    level = cfg.console.level;
    format = cfg.console.format;
  };
}

-- An int among the arguments of a log call, by its decimal text.
abbrev number : ℤ → Argument
number (pos n) = other (decimal n)
number (negsuc n) = other (b'-' ∷ decimal (n + 1))

abbrev info : Bytes → List Argument → Logger → Logger
info message arguments l = log info_level message arguments l

abbrev line : Bytes
line = codes "========================================"

-- The first log entries.
abbrev announce_console : LoggerConfig → Logger → Logger
announce_console cfg l =
    if cfg.console.enabled
    then info (codes "Logging destination: CONSOLE")
        (string (codes "level")
          ∷ string cfg.console.level
          ∷ string (codes "format")
          ∷ string cfg.console.format
          ∷ [])
        l
    else l

abbrev announce_file : LoggerConfig → Logger → Logger
announce_file cfg l =
    if cfg.file.enabled && not (text_eq cfg.file.path [])
    then info (codes "Logging destination: FILE")
        (string (codes "level")
          ∷ string cfg.file.level
          ∷ string (codes "format")
          ∷ string cfg.file.format
          ∷ string (codes "path")
          ∷ string cfg.file.path
          ∷ [])
        l
    else l

unfoldable pub announce : Bytes → Flags → Config.Config → Logger → Logger
announce version flags cfg l =
    let l1 = info line [] l in
    let l2 =
      info (codes "Starting TZSP Server") (string (codes "version") ∷ string version ∷ []) l1 in
    let l3 = info line [] l2 in
    let l4 =
      info (codes "Configuration loaded") (string (codes "file") ∷ string flags.config_path ∷ [])
        l3 in
    let l5 =
      info (codes "Server settings")
        (string (codes "listen_addr")
          ∷ string cfg.server.listen_addr
          ∷ string (codes "buffer_size")
          ∷ number cfg.server.buffer_size
          ∷ [])
        l4 in
    let log_cfg = logger_config cfg.logging in announce_file log_cfg (announce_console log_cfg l5)

-- How the program ends, from its start: with the logger behind its first entries, if it gets there.
pub data Outcome : Type 0 where
  printed_usage refused_arguments : Outcome
  printed_version : Bytes → Outcome
  not_loaded : LoadError → Outcome
  not_logging : Bytes → Outcome
  broken : Outcome
  ran : Logger → Exit → Outcome

-- What the program is started with.
pub record Start : Type 0 where
  pub version : Bytes
  pub command_line : CommandLine
  pub file : ConfigFile
  pub log_error : Option Bytes
  pub surface : Surface
  pub resolve_error : Option Bytes
  pub listen_error : Option Bytes

module _ (unmarshal : Bytes → Config.Config → Result Bytes Config.Config)
    (parse_level : Bytes → Option Level) (dissect : Bytes → Dissection) where
  abbrev pub with_logger :
      Start → Flags → List Event → Closing → Config.Config → Result Bytes Logger → Outcome
  with_logger s flags events c cfg (ok l) =
      ran (announce s.version flags cfg l)
        (run dissect s.surface cfg s.resolve_error s.listen_error events c)
  with_logger s flags events c cfg (err why) = not_logging why
  with_logger s flags events c cfg panic = broken
  with_logger s flags events c cfg stuck = broken

  abbrev pub with_config :
      Start → Flags → List Event → Closing → Result LoadError Config.Config → Outcome
  with_config s flags events c (ok cfg) =
      with_logger s flags events c cfg
        (new_logger parse_level s.log_error (logger_config cfg.logging))
  with_config s flags events c (err why) = not_loaded why
  with_config s flags events c panic = broken
  with_config s flags events c stuck = broken

  -- `main`, behind `flag.Parse`.
  abbrev pub enter_parsed : Start → List Event → Closing → CommandLine → Outcome
  enter_parsed s events c help_asked = printed_usage
  enter_parsed s events c bad_arguments = refused_arguments
  enter_parsed s events c (flags_found flags) =
      if flags.show_version
      then printed_version (codes "tzsp_server version " ++ (s.version ++ codes "\n"))
      else with_config s flags events c (load unmarshal s.file)

  -- `main`
  unfoldable pub enter : Start → List Event → Closing → Outcome
  unfolding announce
  enter s events c = enter_parsed s events c s.command_line

-- `os.Exit`, the return of `main`, and the exit code of a Go panic.
abbrev pub exit_code_of : Exit → ℕ
exit_code_of (not_wired why) = 1
exit_code_of (server_failed why) = 1
exit_code_of (terminated s) = 0
exit_code_of crashed = 2

abbrev pub exit_code : Outcome → ℕ
exit_code printed_usage = 0
exit_code refused_arguments = 2
exit_code (printed_version text) = 0
exit_code (not_loaded why) = 1
exit_code (not_logging why) = 1
exit_code broken = 2
exit_code (ran l e) = exit_code_of e
