-- ===== src/Logger/Tests.antt =====
-- A logger with a file and no console, and a call with a name twice.
use tzsp_server.Prelude.{◌≡◌, refl, true, false, none, some, List, [], ◌∷◌, Bytes, Option, ok}
use tzsp_server.Prelude.Text.{codes}
use tzsp_server.Logger.{
  Level, debug_level, text_formatter, Argument, string, other, Logger, LoggerConfig, new_logger,
  parse_fields,
}
use tzsp_server.Logger.Fields.{field_at, flatten}

abbrev parse_level : Bytes → Option Level
parse_level s = some debug_level

abbrev config : LoggerConfig
config = record {
  file = record {
    enabled = true;
    level = codes "debug";
    format = codes "text";
    path = codes "a.log";
  };
  console = record { enabled = false; level = []; format = [] };
}

abbrev logger : Logger
logger = record {
  file = some (record { level = debug_level; formatter = text_formatter; calls = [] });
  console = none;
}

is_made : new_logger parse_level none config ≡ ok logger
unfolding new_logger tzsp_server.Prelude.Text.text_eq
is_made = refl

abbrev pairs : List (Bytes × Argument)
pairs = (codes "a", string (codes "x")) ∷ (codes "a", other (codes "7")) ∷ []

-- The second value of a name replaces the first.
last_wins : field_at (codes "a") (parse_fields (flatten pairs)) ≡ some (other (codes "7"))
unfolding tzsp_server.Logger.parse_fields_from tzsp_server.Logger.set_field
    tzsp_server.Prelude.Text.text_eq
last_wins = refl
