-- ===== src/Main/Example.antt =====
-- A program with all four outputs, one datagram, and a signal.
use tzsp_server.Prelude.{
  ◌*◌, ◌^◌, All, ℕ, ◌≡◌, refl, if◌then◌else◌, true, false, Option, none, some, List, [], ◌∷◌, ◌++◌,
  Bytes, arith, ok,
}
use tzsp_server.Prelude.Int.{pos}
use tzsp_server.Prelude.Text.{codes, text_eq}
use tzsp_server.Decoder.{Dissection}
use tzsp_server.Netflow.{Flow, Exporter, Moment, Tick, lookup, close}
use tzsp_server.Qingping.Export.{answered}
use tzsp_server.Config
use tzsp_server.Config.{default_config}
use tzsp_server.Server.{Server, Surroundings, Event, cancelled, swept, datagram}
use tzsp_server.Output.{FileWriter, json_format}
use tzsp_server.Main.Whole.{HasRoom}
use tzsp_server.Main.{Surface, Closing, qingping_config, wire}

abbrev pub surface : Surface
surface = record {
  open_error = none;
  attempt = record { create_error = none; header_error = none };
  directory = λ name. none;
  resolve_error = none;
  dial_error = none;
}

abbrev pub config : Config.Config
config = record default_config {
  output = record {
    file = record { enabled = true; output_file = codes "packets.log"; format = codes "json" };
    qingping = record {
      enabled = true;
      filter = record { src_ip = []; dst_ip = []; dst_port = 1883; protocol = codes "tcp" };
      strict_json = true;
      upstream_url = codes "http://127.0.0.1/";
      ignore_ssl = false;
      ignore_http_errors = false;
    };
    pcap = record {
      enabled = true;
      output_file = codes "t.pcap";
      max_size_mb = pos 1;
      max_backups = pos 3;
    };
    netflow = record {
      enabled = true;
      collector_addr = codes "127.0.0.1:2055";
      version = pos 5;
      flow_timeout = pos 60;
      active_timeout = pos 120;
    };
  };
}

abbrev pub exporter : Exporter
exporter = record {
  collector_addr = codes "127.0.0.1:2055";
  version = pos 5;
  flow_timeout = pos 60000000000;
  active_timeout = pos 120000000000;
  flows = [];
  sequence_num = 0;
  sent = [];
  closed = false;
}

abbrev pub now : Moment
now = record { uptime_at = pos 6; secs_at = pos 6; nanos_at = pos 6; write_error = none }

abbrev pub env : Surroundings
env = record {
  received_time = pos 5;
  attempt = record { create_error = none; header_error = none };
  write_error = none;
  netflow_clock = pos 6;
  netflow_moment = now;
  upstream = record {
    json_error = λ json. none;
    request_error = λ url. none;
    respond = λ request. answered 200 [];
  };
}

abbrev pub dissect : Bytes → Dissection
dissect bytes = record {
  ethernet = none;
  ipv4 = some (record {
    src_ip = 10 ∷ 0 ∷ 0 ∷ 1 ∷ [];
    dst_ip = 10 ∷ 0 ∷ 0 ∷ 2 ∷ [];
    protocol = codes "UDP";
  });
  ipv6 = none;
  tcp = none;
  udp = some (record { src_port = 53; dst_port = 5353 });
  icmpv4 = false;
  icmpv6 = false;
  application = none;
  error_layer = none;
}

abbrev pub a_tick : Tick
a_tick = record { clock = pos 7; now = λ k. now; keys = codes "10.0.0.1:53-10.0.0.2:5353-UDP" ∷ [] }

abbrev pub events : List Event
events =
    datagram env (1 ∷ 0 ∷ 0 ∷ 1 ∷ 1 ∷ 170 ∷ 187 ∷ []) (codes "10.0.0.9")
    ∷ swept a_tick
    ∷ cancelled
    ∷ []

abbrev pub key : Bytes
key = codes "10.0.0.1:53-10.0.0.2:5353-UDP"

abbrev pub closing : Closing
closing = record { ticks = a_tick ∷ []; now = λ k. now; keys = key ∷ []; close_error = none }

abbrev pub server : Server
server = record {
  buffer_size = pos 65536;
  file_writer = some (record { enabled = true; format = json_format; entries = [] });
  pcap_writer = some (record {
    filename = codes "t.pcap";
    max_size_mb = pos 1;
    max_backups = pos 3;
    is_open = true;
    bytes_written = 0;
  });
  directory = λ name. if text_eq (codes "t.pcap") name then some [] else none;
  netflow_exp = some exporter;
  qingping_exp = some (qingping_config config.output.qingping);
  uploads = [];
  packets_received = 0;
  packets_decoded = 0;
  packets_written = 0;
}

pub room : HasRoom config 65536
room = record { is_size = refl; allocatable = omega arith }

pub wired : wire surface config ≡ ok server
unfolding wire tzsp_server.Pcap.new_writer tzsp_server.Pcap.create_file
    tzsp_server.Netflow.new_exporter tzsp_server.Server.new_server tzsp_server.Pcap.move_files
    tzsp_server.Prelude.Int.wrap_i64 tzsp_server.Prelude.Int.◌*ℤ◌ tzsp_server.Output.new_file_writer
    tzsp_server.Qingping.Export.new_exporter text_eq
wired = refl
