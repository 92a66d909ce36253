-- ===== src/Logger.antt =====
-- internal/logger/logger.go: the application log with its two sinks, a file and the console. The package
-- logrus is not modelled: a sink keeps the calls that were made of its logrus logger, and what logrus
-- makes of them at its level is left to logrus. `parse_level` is `logrus.ParseLevel`.
pub mod Sinks
pub mod Fields
mod Tests
use tzsp_server.Prelude.{
  ℕ, Bool, true, false, not, ◌&&◌, Option, none, some, List, [], ◌∷◌, ◌++◌, Bytes, length, ltb,
  if◌then◌else◌, Result, ok, err, panic, stuck,
}
use tzsp_server.Prelude.Text.{codes, text_eq}

pub record FileConfig : Type 0 where
  pub enabled : Bool
  pub level : Bytes
  pub format : Bytes
  pub path : Bytes

pub record ConsoleConfig : Type 0 where
  pub enabled : Bool
  pub level : Bytes
  pub format : Bytes

pub record LoggerConfig : Type 0 where
  pub file : FileConfig
  pub console : ConsoleConfig

-- logrus's levels.
pub data Level : Type 0 where
  panic_level fatal_level error_level warn_level info_level debug_level trace_level : Level

pub data Formatter : Type 0 where
  json_formatter text_formatter : Formatter

-- An argument of a log call: a text, or a value of another type.
pub data Argument : Type 0 where
  string : Bytes → Argument
  other : Bytes → Argument

abbrev pub LogFields : Type 0
LogFields = List (Bytes × Argument)

pub record Call : Type 0 where
  pub level : Level
  pub message : Bytes
  pub fields : LogFields

pub record Sink : Type 0 where
  pub level : Level
  pub formatter : Formatter
  pub calls : List Call

-- A sink that is not enabled is `none`.
pub record Logger : Type 0 where
  pub file : Option Sink
  pub console : Option Sink

-- `result[key] = value`
unfoldable pub set_field : Bytes → Argument → LogFields → LogFields
set_field key v [] = (key, v) ∷ []
set_field key v ((k, w) ∷ m) = if text_eq k key then (key, v) ∷ m else (k, w) ∷ set_field key v m

abbrev add_field : Argument → Argument → LogFields → LogFields
add_field (string key) v result = set_field key v result
add_field (other key) v result = result

-- The loop of `parseFields`, two arguments a round; a last one alone is left.
unfoldable pub parse_fields_from : LogFields → List Argument → LogFields
unfolding set_field
parse_fields_from result [] = result
parse_fields_from result (key ∷ []) = result
parse_fields_from result (key ∷ v ∷ rest) = parse_fields_from (add_field key v result) rest

abbrev pub parse_fields : List Argument → LogFields
parse_fields = parse_fields_from []

module _ (parse_level : Bytes → Option Level) where
  abbrev or_info : Option Level → Level
  or_info none = info_level
  or_info (some level) = level

  abbrev or_text : Bytes → Bytes → Bytes
  or_text s fallback = if text_eq s [] then fallback else s

  unfoldable pub level_of : Bytes → Level
  level_of level = or_info (parse_level (or_text level (codes "info")))

  unfoldable pub formatter_of : Bytes → Formatter
  formatter_of format = if text_eq format (codes "json") then json_formatter else text_formatter

  -- The file sink; `open_error` is the error of `os.OpenFile`.
  abbrev opened : Option Bytes → FileConfig → Result Bytes (Option Sink)
  opened (some why) cfg = err why
  opened none cfg = ok (
      some (record { level = level_of cfg.level; formatter = formatter_of cfg.format; calls = [] }))

  abbrev pub file_sink : Option Bytes → FileConfig → Result Bytes (Option Sink)
  file_sink open_error cfg =
      if cfg.enabled && not (text_eq cfg.path []) then opened open_error cfg else ok none

  abbrev pub console_sink : ConsoleConfig → Option Sink
  console_sink cfg =
      if cfg.enabled
      then some (record {
        level = level_of cfg.level;
        formatter = formatter_of (or_text cfg.format (codes "text"));
        calls = [];
      })
      else none

  -- At least one sink: the console, if nothing else.
  abbrev with_default : Option Sink → Option Sink → Logger
  with_default none none = record {
    file = none;
    console = some (record { level = info_level; formatter = text_formatter; calls = [] });
  }
  with_default file console = record { file = file; console = console }

  abbrev with_console : ConsoleConfig → Result Bytes (Option Sink) → Result Bytes Logger
  with_console cfg (ok file) = ok (with_default file (console_sink cfg))
  with_console cfg (err why) = err why
  with_console cfg panic = panic
  with_console cfg stuck = stuck

  unfoldable pub new_logger : Option Bytes → LoggerConfig → Result Bytes Logger
  unfolding level_of formatter_of
  new_logger open_error cfg = with_console cfg.console (file_sink open_error cfg.file)

-- `WithFields(...)` is only called if there are arguments.
abbrev pub call_of : Level → Bytes → List Argument → Call
call_of level message arguments = record {
  level = level;
  message = message;
  fields = if ltb 0 (length arguments) then parse_fields arguments else [];
}

abbrev pub emit : Call → Option Sink → Option Sink
emit call none = none
emit call (some sink) = some (record sink { calls = sink.calls ++ call ∷ [] })

-- `Info`, `Warn`, `Error` and `Debug`, by their level.
unfoldable pub log : Level → Bytes → List Argument → Logger → Logger
unfolding parse_fields_from
log level message arguments l =
    let call = call_of level message arguments in
    record { file = emit call l.file; console = emit call l.console }
