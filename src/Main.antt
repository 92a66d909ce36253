-- ===== src/Main.antt =====
-- cmd/tzsp_server/main.go: the outputs that the configuration asks for, the run of the server, and the
-- end of the program. `os.Exit(1)` skips the deferred closes. The signal ends the run: in `run` the
-- rounds of the receive loop come before the closes, and ticks of the NetFlow sweeper come between the
-- rounds and between the loop and the close; `overtaken` has the last round behind the closes.
pub mod Entry
pub mod Exits
pub mod Wiring
pub mod Whole
pub mod Capture
pub mod Delivery
pub mod Records
pub mod Overtaken
mod Example
mod Tests
mod EntryTests
use mathlib.Core.Option
use tzsp_server.Prelude.{
  Option, none, some, List, [], ◌∷◌, Bytes, if◌then◌else◌, not, Result, ok, err, panic, stuck,
  ◌>>=◌,
}
use tzsp_server.Decoder.{Dissection}
use tzsp_server.Netflow
use tzsp_server.Netflow.{Exporter, Moment, Tick, SetupError}
use tzsp_server.Output.{FileWriter, new_file_writer}
use tzsp_server.Pcap
use tzsp_server.Pcap.{Writer, Directory, Attempt, WriteError, new_writer}
use tzsp_server.Qingping.Export
use tzsp_server.Qingping.Export.{Setup, disabled, missing_url, created}
use tzsp_server.Config
use tzsp_server.Server.{Server, Event, StartError, cancelled, new_server, start, receive_loop}

-- What the outputs find when they are made.
pub record Surface : Type 0 where
  pub open_error : Option Bytes
  pub attempt : Attempt
  pub directory : Directory
  pub resolve_error : Option Bytes
  pub dial_error : Option Bytes

-- An output that is enabled and cannot be made ends the program.
pub data Failure : Type 0 where
  file_failed : Bytes → Failure
  pcap_failed : WriteError → Failure
  netflow_failed : SetupError → Failure
  qingping_failed : Failure

abbrev pub refused : {E A : Type 0} → (E → Failure) → Result E A → Result Failure A
refused f (ok x) = ok x
refused f (err why) = err (f why)
refused f panic = panic
refused f stuck = stuck

abbrev pub present : {A : Type 0} → Result Failure A → Result Failure (Option A)
present (ok x) = ok (some x)
present (err why) = err why
present panic = panic
present stuck = stuck

abbrev pub file_output : Surface → Config.FileOutputConfig → Result Failure (Option FileWriter)
file_output surface cfg =
    if cfg.enabled
    then present (
        refused file_failed
          (new_file_writer surface.open_error cfg.enabled cfg.output_file cfg.format))
    else ok none

-- The writer with the directory that its first rotation leaves.
abbrev pub made_pcap :
    Directory × Result WriteError Writer → Result Failure (Option Writer × Directory)
made_pcap (dir, ok w) = ok (some w, dir)
made_pcap (dir, err why) = err (pcap_failed why)
made_pcap (dir, panic) = panic
made_pcap (dir, stuck) = stuck

abbrev pub pcap_output :
    Surface → Config.PcapOutputConfig → Result Failure (Option Writer × Directory)
pcap_output surface cfg =
    if cfg.enabled
    then made_pcap (
        new_writer surface.attempt cfg.output_file cfg.max_size_mb cfg.max_backups
          surface.directory)
    else ok (none, surface.directory)

abbrev pub netflow_output : Surface → Config.NetflowOutputConfig → Result Failure (Option Exporter)
netflow_output surface cfg =
    if cfg.enabled
    then present (
        refused netflow_failed (
          Netflow.new_exporter surface.resolve_error surface.dial_error cfg.collector_addr
            cfg.version cfg.flow_timeout cfg.active_timeout))
    else ok none

abbrev pub qingping_config : Config.QingpingOutputConfig → Export.Config
qingping_config cfg = record {
  enabled = cfg.enabled;
  filter = record {
    src_ip = cfg.filter.src_ip;
    dst_ip = cfg.filter.dst_ip;
    dst_port = cfg.filter.dst_port;
    protocol = cfg.filter.protocol;
  };
  strict_json = cfg.strict_json;
  upstream_url = cfg.upstream_url;
  ignore_ssl = cfg.ignore_ssl;
  ignore_http_errors = cfg.ignore_http_errors;
}

abbrev pub made_qingping : Setup → Result Failure (Option Export.Config)
made_qingping disabled = ok none
made_qingping missing_url = err qingping_failed
made_qingping (created config) = ok (some config)

abbrev pub qingping_output : Config.QingpingOutputConfig → Result Failure (Option Export.Config)
qingping_output cfg =
    if cfg.enabled then made_qingping (Export.new_exporter (qingping_config cfg)) else ok none

-- The server with its outputs.
unfoldable pub wire : Surface → Config.Config → Result Failure Server
wire surface cfg = do
  file_writer ← file_output surface cfg.output.file
  (pcap_writer, directory) ← pcap_output surface cfg.output.pcap
  netflow_exp ← netflow_output surface cfg.output.netflow
  qingping_exp ← qingping_output cfg.output.qingping
  ok (new_server cfg.server.buffer_size file_writer pcap_writer directory netflow_exp qingping_exp)

-- What the closes find: the ticks of the sweeper between the end of the receive loop and the close of
-- NetFlow, the clock and the socket at each flow, the order of the flows, and the error of the socket.
pub record Closing : Type 0 where
  pub ticks : List Tick
  pub now : Bytes → Moment
  pub keys : List Bytes
  pub close_error : Option Bytes

unfoldable pub sweeps : List Tick → Exporter → Exporter
sweeps [] e = e
sweeps (t ∷ ts) e = sweeps ts (Netflow.on_tick t e)

abbrev pub close_netflow : Closing → Exporter → Exporter
close_netflow c e = (Netflow.close c.now c.keys c.close_error (sweeps c.ticks e)).0

-- The deferred closes. Those of the other outputs change no state.
unfoldable pub shut_down : Closing → Server → Server
shut_down c s = record s { netflow_exp = Option.map (close_netflow c) s.netflow_exp }

-- How the program ends.
pub data Exit : Type 0 where
  not_wired : Failure → Exit
  server_failed : StartError → Exit
  terminated : Server → Exit
  crashed : Exit

abbrev pub ended : Closing → Result StartError Server → Exit
ended c (ok s) = terminated (shut_down c s)
ended c (err why) = server_failed why
ended c panic = crashed
ended c stuck = crashed

module _ (dissect : Bytes → Dissection) where
  abbrev pub run_wired :
      Option Bytes → Option Bytes → List Event → Closing → Result Failure Server → Exit
  run_wired resolve_error listen_error events c (ok s) =
      ended c (start dissect resolve_error listen_error events s)
  run_wired resolve_error listen_error events c (err why) = not_wired why
  run_wired resolve_error listen_error events c panic = crashed
  run_wired resolve_error listen_error events c stuck = crashed

  -- The program from its configuration on, until a signal.
  unfoldable pub run :
      Surface → Config.Config → Option Bytes → Option Bytes → List Event → Closing → Exit
  unfolding wire shut_down
  run surface cfg resolve_error listen_error events c =
      run_wired resolve_error listen_error events c (wire surface cfg)

  -- The program does not wait for its receive loop: the round that is under way at the signal can go on
  -- behind the closes.
  abbrev pub behind_closes : Option Server → Exit
  behind_closes none = crashed
  behind_closes (some s) = terminated s

  unfoldable pub overtaken : Event → Exit → Exit
  overtaken last (not_wired why) = not_wired why
  overtaken last (server_failed why) = server_failed why
  overtaken last (terminated s) = behind_closes (receive_loop dissect (last ∷ cancelled ∷ []) s)
  overtaken last crashed = crashed
