-- ===== src/Netflow/Tests.antt =====
-- Three packets of two flows, and what the theorems say of them.
use tzsp_server.Prelude.{
  ℕ, ◌<◌, ◌+◌, ◌≡◌, ◌≢◌, ◌↔◌, refl, true, false, Option, none, some, List, [], ◌∷◌, ◌++◌, Bytes,
  arith, if◌then◌else◌, ok, take, drop,
}
use tzsp_server.Prelude.Int.{ℤ, pos}
use tzsp_server.Prelude.Text.{codes, text_eq}
use tzsp_server.Net.{to4}
use tzsp_server.Decoder.{IpLayer, Dissection, decode, PacketInfo, TcpLayer, format_tcp_flags}
use tzsp_server.Netflow
use tzsp_server.Netflow.{
  new_flow, Flow, Exporter, Moment, lookup, make_flow_key, parse_tcp_flags, datagram, expire_flows,
  close, new_exporter, process_packet,
}
use tzsp_server.Netflow.Decoded.{IsIp4, make_flow_key-decode, datagram-addresses}
use tzsp_server.Netflow.Key.{SameFlow}
use tzsp_server.Netflow.Table.{Arrival}
use tzsp_server.Netflow.Silent.{run_ops-of_other_version}
use tzsp_server.Netflow.Ops.{Op, arrive, tick, run_ops, packets_of}
use tzsp_server.Netflow.Refinement.{seen_by, flow_life, timeouts_of, run_ops-refines}
use tzsp_server.Netflow.Sums.{in_table}
use tzsp_server.Netflow.Balance.{carried, brought}
use tzsp_server.Netflow.Conservation.{packets, bytes, run_ops-conserves}
use tzsp_server.Netflow.TcpFlags.{header_bits, parse_tcp_flags-format}
use tzsp_server.Netflow.Datagram.{Reads, shown, datagram-Reads}
use tzsp_server.Netflow.Steps.{here, next, packet}
use tzsp_server.Netflow.Sequence.{InSequence, Reach-InSequence}
use tzsp_server.Netflow.Sweep.{visited, survivor, due, datagrams}
use tzsp_server.Netflow.Expiry.{is_idle, expire_flows_effect}

abbrev now : Moment
now = record { uptime_at = pos 9; secs_at = pos 9; nanos_at = pos 9; write_error = none }

abbrev exporter : ℤ → Exporter
exporter version = record {
  collector_addr = codes "127.0.0.1:2055";
  version = version;
  flow_timeout = pos 60000000000;
  active_timeout = pos 120000000000;
  flows = [];
  sequence_num = 0;
  sent = [];
  closed = false;
}

abbrev info_of : Bytes → ℕ → PacketInfo
info_of dst_ip len = record {
  timestamp = pos 1000000000;
  protocol = codes "TCP";
  src_ip = codes "10.0.0.1";
  dst_ip = dst_ip;
  src_port = 50000;
  dst_port = 443;
  src_mac = [];
  dst_mac = [];
  len = len;
  payload_len = 0;
  tcp_flags = codes "SA";
  packet_data = [];
}

abbrev info : ℕ → PacketInfo
info = info_of (codes "10.0.0.2")

abbrev other_info : PacketInfo
other_info = info_of (codes "10.0.0.3") 900

abbrev arrival : PacketInfo → Arrival
arrival i = record { clock = pos 2000000000; now = now; info = i }

abbrev arrivals : List Arrival
arrivals = arrival (info 60) ∷ arrival other_info ∷ arrival (info 40) ∷ []

abbrev key : Bytes
key = codes "10.0.0.1:50000-10.0.0.2:443-TCP"

key_is : make_flow_key (info 60) ≡ key
unfolding make_flow_key tzsp_server.Prelude.Decimal.decimal
key_is = refl

-- Between the packets a tick looks at one of the two flows, which is not idle yet.
abbrev ops : List Op
ops =
    arrive (arrival (info 60))
    ∷ tick (record { clock = pos 3000000000; now = λ k. now; keys = key ∷ [] })
    ∷ arrive (arrival other_info)
    ∷ arrive (arrival (info 40))
    ∷ []

run_ops-refines_example :
    lookup key (run_ops ops (exporter (pos 5))).flows
    ≡ flow_life (timeouts_of (exporter (pos 5))) (seen_by key ops) none
unfolding lookup
run_ops-refines_example = run_ops-refines ops (exporter (pos 5)) key

abbrev tcp : TcpLayer
tcp = record {
  src_port = 443;
  dst_port = 50000;
  syn = true;
  ack = true;
  fin = false;
  rst = false;
  psh = false;
  urg = false;
  ece = true;
  cwr = false;
  ns = false;
}

parse_tcp_flags-format_example : parse_tcp_flags (format_tcp_flags tcp) ≡ header_bits tcp
parse_tcp_flags-format_example = parse_tcp_flags-format tcp

abbrev flow : Flow
flow = record {
  src_ip = 10 ∷ 0 ∷ 0 ∷ 1 ∷ [];
  dst_ip = 10 ∷ 0 ∷ 0 ∷ 2 ∷ [];
  src_port = 50000;
  dst_port = 443;
  protocol = 6;
  first_seen = pos 1000000000;
  last_seen = pos 1000000000;
  packets = 2;
  bytes = 100;
  tcp_flags = 18;
}

abbrev table : Exporter
table = record (exporter (pos 5)) { flows = (key, flow) ∷ [] }

datagram-Reads_example :
    Reads 7 flow (datagram now 7 flow)
    × (take 4 (drop 24 (datagram now 7 flow)) ≡ shown (to4 flow.src_ip))
    × (take 4 (drop 28 (datagram now 7 flow)) ≡ shown (to4 flow.dst_ip))
datagram-Reads_example = datagram-Reads now 7 flow (omega arith) (record {
  src_port_fits = omega arith;
  dst_port_fits = omega arith;
  packets_fit = omega arith;
  bytes_fit = omega arith;
})

is_new :
    new_exporter none none (codes "127.0.0.1:2055") (pos 5) (pos 60) (pos 120)
    ≡ ok (exporter (pos 5))
unfolding new_exporter tzsp_server.Prelude.Int.wrap_i64 tzsp_server.Prelude.Int.◌*ℤ◌
is_new = refl

Reach-InSequence_example : InSequence (process_packet (pos 2) now (info 60) (exporter (pos 5)))
Reach-InSequence_example =
    Reach-InSequence (codes "127.0.0.1:2055") (pos 5) (pos 60) (pos 120) (exporter (pos 5)) _ is_new
      (next here (packet (pos 2) now (info 60)))

run_ops-of_other_version_example :
    ((run_ops ops (exporter (pos 9))).sent ≡ [])
    × (lookup key (run_ops ops (exporter (pos 9))).flows
        ≡ lookup key (run_ops ops (exporter (pos 5))).flows)
run_ops-of_other_version_example = run_ops-of_other_version ops (exporter (pos 9)) key (λ e. cc)

abbrev run : Exporter
run = run_ops ops (exporter (pos 5))

run_ops-conserves_example :
    (carried 40 run.sent + in_table packets run.flows ≡ 3)
    × (carried 44 run.sent + in_table bytes run.flows ≡ 1000)
unfolding brought packets_of tzsp_server.Netflow.Table.is_ip text_eq
run_ops-conserves_example =
    run_ops-conserves ops (omega arith) (omega arith) (codes "127.0.0.1:2055") (pos 60) (pos 120)
      (exporter (pos 5)) is_new

expire_flows_effect_example :
    ((expire_flows (pos 90000000000) (λ k. now) (key ∷ []) table).sent
      ≡ []
        ++ datagrams
            (λ k. now)
            0
            (due (is_idle (pos 60000000000) (pos 90000000000)) (key ∷ []) table.flows))
    × ((k : Bytes)
        → lookup k (expire_flows (pos 90000000000) (λ k. now) (key ∷ []) table).flows ≡ (
            if visited k (key ∷ [])
            then survivor (is_idle (pos 60000000000) (pos 90000000000)) (lookup k table.flows)
            else lookup k table.flows))
expire_flows_effect_example =
    expire_flows_effect (pos 90000000000) (λ k. now) (key ∷ []) table refl (tt, tt)

abbrev ip_header : IpLayer
ip_header = record {
  src_ip = 10 ∷ 0 ∷ 0 ∷ 1 ∷ [];
  dst_ip = 10 ∷ 0 ∷ 0 ∷ 2 ∷ [];
  protocol = codes "TCP";
}

abbrev dissect : Bytes → Dissection
dissect bytes = record {
  ethernet = none;
  ipv4 = some ip_header;
  ipv6 = none;
  tcp = some tcp;
  udp = none;
  icmpv4 = false;
  icmpv6 = false;
  application = none;
  error_layer = none;
}

make_flow_key-decode_example :
    (make_flow_key (decode dissect (8 ∷ []) (pos 1)).0
      ≡ make_flow_key (decode dissect (9 ∷ 9 ∷ []) (pos 2)).0)
    ↔ SameFlow (decode dissect (8 ∷ []) (pos 1)).0 (decode dissect (9 ∷ 9 ∷ []) (pos 2)).0
make_flow_key-decode_example = make_flow_key-decode dissect (8 ∷ []) (9 ∷ 9 ∷ []) (pos 1) (pos 2)

abbrev decoded_flow : Flow
decoded_flow = new_flow (decode dissect (8 ∷ []) (pos 1)).0

ip4 : (a b c d : ℕ) → a < 256 → b < 256 → c < 256 → d < 256 → IsIp4 (a ∷ b ∷ c ∷ d ∷ [])
ip4 a b c d ha hb hc hd = record {
  a = a;
  b = b;
  c = c;
  d = d;
  bytes_are = refl;
  are_bytes = (ha, hb, hc, hd);
}

datagram-addresses_example :
    (take 4 (drop 24 (datagram now 7 decoded_flow)) ≡ 10 ∷ 0 ∷ 0 ∷ 1 ∷ [])
    × (take 4 (drop 28 (datagram now 7 decoded_flow)) ≡ 10 ∷ 0 ∷ 0 ∷ 2 ∷ [])
datagram-addresses_example =
    datagram-addresses dissect (8 ∷ []) (pos 1) ip_header now 7 decoded_flow refl refl
      (ip4 10 0 0 1 (omega arith) (omega arith) (omega arith) (omega arith))
      (ip4 10 0 0 2 (omega arith) (omega arith) (omega arith) (omega arith)) refl refl
