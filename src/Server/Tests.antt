-- ===== src/Server/Tests.antt =====
-- A run over a TZSP datagram with a timestamp tag, a tick, a timeout, and an incomplete datagram.
use tzsp_server.Prelude.{
  ◌≤◌, ◌≡◌, refl, true, false, none, some, List, [], ◌∷◌, Bytes, length, arith,
}
use tzsp_server.Prelude.Int.{pos, wrap_i64}
use tzsp_server.Prelude.Text.{codes}
use tzsp_server.Tzsp.{Packet, Tag, unix_seconds}
use tzsp_server.Decoder.{Dissection}
use tzsp_server.Netflow.{Exporter}
use tzsp_server.Pcap.{Writer}
use tzsp_server.Qingping.Export.{answered}
use tzsp_server.Server.{
  Server, Surroundings, Event, cancelled, timed_out, datagram, swept, packet_time, receive_loop,
  new_server, report,
}
use tzsp_server.Server.Streams.{datagrams, frames, netflow_ops, written}
use tzsp_server.Server.Outputs.{Outputs}
use tzsp_server.Server.Counters.{IsCounting, Counted}
use tzsp_server.Server.Statistics.{Reports, report-receive_loop}
use tzsp_server.Server.Run.{receive_loop-Outputs, receive_loop-Counted}
use tzsp_server.Server.Sent.{
  Traffic, sent, quiet, ticked, events_of, frames_sent, IsSendable, packets_sent, receive_loop-sent,
}
use tzsp_server.Server.Timestamp.{packet_time-unix_seconds}

abbrev env : Surroundings
env = record {
  received_time = pos 5;
  attempt = record { create_error = none; header_error = none };
  write_error = some (codes "disk full");
  netflow_clock = pos 6;
  netflow_moment = record {
    uptime_at = pos 6;
    secs_at = pos 6;
    nanos_at = pos 6;
    write_error = none;
  };
  upstream = record {
    json_error = λ json. none;
    request_error = λ url. none;
    respond = λ request. answered 200 [];
  };
}

abbrev dissect : Bytes → Dissection
dissect bytes = record {
  ethernet = none;
  ipv4 = some (record {
    src_ip = 10 ∷ 0 ∷ 0 ∷ 1 ∷ [];
    dst_ip = 10 ∷ 0 ∷ 0 ∷ 2 ∷ [];
    protocol = codes "UDP";
  });
  ipv6 = none;
  tcp = none;
  udp = some (record { src_port = 53; dst_port = 5353 });
  icmpv4 = false;
  icmpv6 = false;
  application = none;
  error_layer = none;
}

abbrev exporter : Exporter
exporter = record {
  collector_addr = codes "127.0.0.1:2055";
  version = pos 5;
  flow_timeout = pos 60000000000;
  active_timeout = pos 120000000000;
  flows = [];
  sequence_num = 0;
  sent = [];
  closed = false;
}

abbrev writer : Writer
writer = record {
  filename = codes "tzsp.pcap";
  max_size_mb = pos 1;
  max_backups = pos 3;
  is_open = true;
  bytes_written = 0;
}

abbrev server : Server
server = record {
  buffer_size = pos 2048;
  file_writer = none;
  pcap_writer = some writer;
  directory = λ name. none;
  netflow_exp = some exporter;
  qingping_exp = none;
  uploads = [];
  packets_received = 0;
  packets_decoded = 0;
  packets_written = 0;
}

abbrev events : List Event
events =
    datagram env (1 ∷ 0 ∷ 0 ∷ 1 ∷ 13 ∷ 4 ∷ 0 ∷ 0 ∷ 1 ∷ 2 ∷ 1 ∷ 170 ∷ 187 ∷ []) (codes "10.0.0.9")
    ∷ swept (record { clock = pos 9; now = λ k. env.netflow_moment; keys = [] })
    ∷ timed_out
    ∷ datagram env (1 ∷ 0 ∷ 0 ∷ 1 ∷ 13 ∷ []) (codes "10.0.0.9")
    ∷ cancelled
    ∷ []

server-IsCounting : IsCounting server
server-IsCounting = record {
  received_fits = omega arith;
  decoded_fits = omega arith;
  written_fits = omega arith;
}

receive_loop-Outputs_example :
    (s' : Server) × (receive_loop dissect events server ≡ some s')
    × Outputs dissect (frames 2048 events) (netflow_ops dissect 2048 events) server s'
receive_loop-Outputs_example = receive_loop-Outputs dissect events server server-IsCounting

receive_loop-Counted_example :
    (s' : Server) × (receive_loop dissect events server ≡ some s')
    × Counted (datagrams events) (frames 2048 events) server s'
    × (written (frames 2048 events) (some writer, (λ name. none)) ≤ length (frames 2048 events))
    × (length (frames 2048 events) ≤ datagrams events)
receive_loop-Counted_example = receive_loop-Counted dissect events server server-IsCounting

report-receive_loop_example :
    (s' : Server) × (receive_loop dissect events
        (new_server (pos 2048) none (some writer) (λ name. none) none none)
      ≡ some s')
    × Reports
        (datagrams events)
        (length (frames 2048 events))
        (written (frames 2048 events) (some writer, (λ name. none)))
        (report s')
unfolding datagrams
report-receive_loop_example =
    report-receive_loop dissect events (pos 2048) none (some writer) (λ name. none) none none
      (omega arith)

one_frame : length (frames 2048 events) ≡ 1
unfolding frames tzsp_server.Tzsp.decode tzsp_server.Tzsp.tag_loop tzsp_server.Tzsp.tag_round
    tzsp_server.Tzsp.remainder
one_frame = refl

abbrev tag : Tag
tag = record { typ = 13; len = 4; content = 0 ∷ 0 ∷ 1 ∷ 2 ∷ [] }

abbrev pkt : Packet
pkt = record {
  version = 1;
  typ = 0;
  protocol = 1;
  tags = tag ∷ [];
  encap_packet = 170 ∷ 187 ∷ [];
  received_time = pos 5;
  source_addr = codes "10.0.0.9";
}

packet_time-unix_seconds_example :
    (packet_time pkt ≡ unix_seconds 258) × (wrap_i64 (packet_time pkt) ≡ unix_seconds 258)
unfolding tzsp_server.Tzsp.find_tag
packet_time-unix_seconds_example = packet_time-unix_seconds pkt tag 258 [] refl refl (omega arith)

-- The packet on its way, with a tick and a timeout behind it.
abbrev traffic : List Traffic
traffic =
    sent env pkt
    ∷ ticked (record { clock = pos 9; now = λ k. env.netflow_moment; keys = [] })
    ∷ quiet
    ∷ []

pkt-IsSendable : IsSendable 2048 env pkt
unfolding tzsp_server.Tzsp.RoundTrip.encode
pkt-IsSendable = record {
  version_is = refl;
  carried = (
    record {
      long_type = record { not_end = λ e. omega arith; not_pad = λ e. omega arith };
      len_is = refl;
    },
    tt,
  );
  has_frame = omega arith;
  fits = omega arith;
  arrives = refl;
}

receive_loop-sent_example :
    (s' : Server) × (receive_loop dissect (events_of traffic) server ≡ some s')
    × Counted (packets_sent traffic) (frames_sent traffic) server s'
    × Outputs dissect (frames_sent traffic) (netflow_ops dissect 2048 (events_of traffic)) server s'
receive_loop-sent_example =
    receive_loop-sent dissect traffic server 2048 refl server-IsCounting
      (pkt-IsSendable, (tt, (tt, tt)))
