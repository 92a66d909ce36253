-- ===== src/Main/EntryTests.antt =====
-- A program with no configuration file, and one with a negative buffer size.
use tzsp_server.Prelude.{
  ◌≡◌, ◌^◌, ◌||◌, ◌↔◌, refl, true, false, Option, none, some, [], ◌∷◌, Bytes, Result, ok,
}
use tzsp_server.Prelude.Int.{pos, negsuc, ltb_ℤ}
use tzsp_server.Prelude.Text.{codes}
use tzsp_server.Decoder.{Dissection}
use tzsp_server.Netflow.{Moment}
use tzsp_server.Config
use tzsp_server.Config.{default_config, missing, load}
use tzsp_server.Logger.{Level, info_level}
use tzsp_server.Server.{Server, Event, cancelled}
use tzsp_server.Main.{Surface, Closing, crashed, wire, run}
use tzsp_server.Main.Entry.{Start, flags_found, enter, exit_code}
use tzsp_server.Main.Exits.{Succeeds, run-crashed_iff, enter-exit_code_iff}

abbrev dissect : Bytes → Dissection
dissect bytes = record {
  ethernet = none;
  ipv4 = none;
  ipv6 = none;
  tcp = none;
  udp = none;
  icmpv4 = false;
  icmpv6 = false;
  application = none;
  error_layer = none;
}

abbrev surface : Surface
surface = record {
  open_error = none;
  attempt = record { create_error = none; header_error = none };
  directory = λ name. none;
  resolve_error = none;
  dial_error = none;
}

abbrev moment : Moment
moment = record { uptime_at = pos 6; secs_at = pos 6; nanos_at = pos 6; write_error = none }

abbrev closing : Closing
closing = record { ticks = []; now = λ k. moment; keys = []; close_error = none }

abbrev start : Start
start = record {
  version = codes "dev";
  command_line = flags_found (record { config_path = codes "config.yaml"; show_version = false });
  file = missing;
  log_error = none;
  surface = surface;
  resolve_error = none;
  listen_error = none;
}

abbrev unmarshal : Bytes → Config.Config → Result Bytes Config.Config
unmarshal text cfg = ok cfg

abbrev parse_level : Bytes → Option Level
parse_level level = some info_level

enter-exit_code_iff_example :
    (exit_code (enter unmarshal parse_level dissect start (cancelled ∷ []) closing) ≡ 0)
    ↔ Succeeds unmarshal parse_level dissect start (cancelled ∷ []) closing
enter-exit_code_iff_example =
    enter-exit_code_iff unmarshal parse_level dissect start (cancelled ∷ []) closing

-- It ends with 0.
succeeds : exit_code (enter unmarshal parse_level dissect start (cancelled ∷ []) closing) ≡ 0
unfolding enter load tzsp_server.Logger.new_logger run tzsp_server.Server.start
    tzsp_server.Server.new_server
succeeds = refl

abbrev negative : Config.Config
negative = record default_config {
  server = record (default_config.server) { buffer_size = negsuc 0 };
}

abbrev no_error : Option Bytes
no_error = none

run-crashed_iff_example :
    (run dissect surface negative none none (cancelled ∷ []) closing ≡ crashed) ↔ (
      ((s : Server) × (wire surface negative ≡ ok s))
      × (no_error ≡ none)
      × (no_error ≡ none)
      × ((ltb_ℤ (negsuc 0) (pos 0) || ltb_ℤ (pos (2 ^ 48)) (negsuc 0)) ≡ true))
run-crashed_iff_example =
    run-crashed_iff dissect negative (cancelled ∷ []) closing surface no_error no_error

crashes : run dissect surface negative none none (cancelled ∷ []) closing ≡ crashed
unfolding run tzsp_server.Server.start tzsp_server.Server.new_server
crashes = refl
