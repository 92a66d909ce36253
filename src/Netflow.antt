-- ===== src/Netflow.antt =====
-- internal/netflow/exporter.go: the flow table, its timeouts, and the export of flows as NetFlow v5
-- datagrams. A method returns the new exporter; the mutex makes each method one step.
-- Maps are association lists. What Go leaves open is an argument: the order of an iteration over the
-- flows (a list of keys), the clock, and the results of `Write`.
pub mod Key
pub mod Table
pub mod TcpFlags
pub mod Counts
pub mod Datagram
pub mod Steps
pub mod Sequence
pub mod Sweep
pub mod Expiry
pub mod Decoded
pub mod Ops
pub mod Refinement
pub mod Silent
pub mod Late
pub mod Sums
pub mod Balance
pub mod Conservation
mod Tests
use Prim.Native.Nat.{bit_or}
use mathlib.Core.List.{foldl}
use tzsp_server.Prelude.{
  ℕ, zero, suc, ◌+◌, ◌-◌, ◌*◌, ◌/◌, ◌%◌, ◌^◌, Bool, true, false, not, ◌&&◌, ◌||◌, Option, none,
  some, List, [], ◌∷◌, ◌++◌, Bytes, length, take, drop, replicate, ltb, leb, ◌==◌, if◌then◌else◌,
  Result, ok, err,
}
use tzsp_server.Prelude.Int.{
  ℤ, pos, negsuc, ◌-ℤ◌, ◌*ℤ◌, leb_ℤ, eqb_ℤ, to_u32, wrap_i64, saturate_i64, floor_div,
}
use tzsp_server.Prelude.Text.{codes, text_eq}
use tzsp_server.Prelude.Decimal.{decimal}
use tzsp_server.Net.{to4}
use tzsp_server.Net.Parse.{parse_ip}
use tzsp_server.Tzsp.{Time}
use tzsp_server.Decoder.{PacketInfo}

pub record Flow : Type 0 where
  pub src_ip : Bytes
  pub dst_ip : Bytes
  pub src_port : ℕ
  pub dst_port : ℕ
  pub protocol : ℕ
  pub first_seen : Time
  pub last_seen : Time
  pub packets : ℕ
  pub bytes : ℕ
  pub tcp_flags : ℕ

abbrev pub Flows : Type 0
Flows = List (Bytes × Flow)

-- `sent` are the datagrams handed to `conn.Write`, oldest first.
pub record Exporter : Type 0 where
  pub collector_addr : Bytes
  pub version : ℤ
  pub flow_timeout : ℤ
  pub active_timeout : ℤ
  pub flows : Flows
  pub sequence_num : ℕ
  pub sent : List Bytes
  pub closed : Bool

-- What an export reads of the clock, once for each `time.Now()`, and the error of its `Write`.
pub record Moment : Type 0 where
  pub uptime_at : Time
  pub secs_at : Time
  pub nanos_at : Time
  pub write_error : Option Bytes

-- The map of flows: `e.flows[key]`, the store of a flow, `delete`.
unfoldable pub lookup : Bytes → Flows → Option Flow
lookup key [] = none
lookup key ((k, f) ∷ m) = if text_eq k key then some f else lookup key m

unfoldable pub insert : Bytes → Flow → Flows → Flows
insert key f [] = (key, f) ∷ []
insert key f ((k, g) ∷ m) = if text_eq k key then (key, f) ∷ m else (k, g) ∷ insert key f m

unfoldable pub delete : Bytes → Flows → Flows
delete key [] = []
delete key ((k, f) ∷ m) = let rest = delete key m in if text_eq k key then rest else (k, f) ∷ rest

-- `time.Duration(n) * time.Second`
abbrev seconds : ℤ → ℤ
seconds n = wrap_i64 (wrap_i64 n *ℤ pos (10 ^ 9))

pub data SetupError : Type 0 where
  not_resolved not_connected : Bytes → SetupError

-- `NewExporter`: `resolve_error` and `dial_error` are the errors of the address and of the socket.
unfoldable pub new_exporter :
    Option Bytes → Option Bytes → Bytes → ℤ → ℤ → ℤ → Result SetupError Exporter
new_exporter (some why) dial_error collector_addr version flow_timeout active_timeout =
    err (not_resolved why)
new_exporter none (some why) collector_addr version flow_timeout active_timeout =
    err (not_connected why)
new_exporter none none collector_addr version flow_timeout active_timeout = ok (record {
  collector_addr = collector_addr;
  version = version;
  flow_timeout = seconds flow_timeout;
  active_timeout = seconds active_timeout;
  flows = [];
  sequence_num = 0;
  sent = [];
  closed = false;
})

unfoldable pub make_flow_key : PacketInfo → Bytes
make_flow_key info =
    info.src_ip
    ++ (b':'
        ∷ (decimal info.src_port
            ++ (b'-'
                ∷ (info.dst_ip ++ (b':' ∷ (decimal info.dst_port ++ (b'-' ∷ info.protocol)))))))

unfoldable pub get_protocol_number : Bytes → ℕ
get_protocol_number protocol =
    if text_eq protocol (codes "TCP")
    then 6
    else if text_eq protocol (codes "UDP")
    then 17
    else if text_eq protocol (codes "ICMPv4")
    then 1
    else if text_eq protocol (codes "ICMPv6")
    then 58
    else 0

-- The bit of one letter. A byte of a longer character is none of these letters.
abbrev flag_bit : ℕ → ℕ → ℕ
flag_bit result c =
    if c == b'F'
    then bit_or result 0x01
    else if c == b'S'
    then bit_or result 0x02
    else if c == b'R'
    then bit_or result 0x04
    else if c == b'P'
    then bit_or result 0x08
    else if c == b'A'
    then bit_or result 0x10
    else if c == b'U'
    then bit_or result 0x20
    else result

unfoldable pub parse_tcp_flags_from : ℕ → Bytes → ℕ
parse_tcp_flags_from result [] = result
parse_tcp_flags_from result (c ∷ flags) = parse_tcp_flags_from (flag_bit result c) flags

abbrev pub parse_tcp_flags : Bytes → ℕ
parse_tcp_flags = parse_tcp_flags_from 0

-- `copy(buf[offset:], src)` and the big-endian stores into `buf`.
abbrev overlay : Bytes → Bytes → Bytes
overlay [] src = []
overlay (b ∷ buf) [] = b ∷ buf
overlay (b ∷ buf) (c ∷ src) = c ∷ overlay buf src

abbrev pub copy_at : Bytes → ℕ → Bytes → Bytes
copy_at buf zero src = overlay buf src
copy_at [] (suc offset) src = []
copy_at (b ∷ buf) (suc offset) src = b ∷ copy_at buf offset src

abbrev pub u16_bytes : ℕ → Bytes
u16_bytes v = (v / 256 % 256) ∷ v % 256 ∷ []

abbrev pub u32_bytes : ℕ → Bytes
u32_bytes v = (v / 2 ^ 24 % 256) ∷ (v / 2 ^ 16 % 256) ∷ (v / 256 % 256) ∷ v % 256 ∷ []

abbrev pub unix : Time → ℤ
unix t = floor_div t (10 ^ 9)

abbrev nanosecond : Time → ℤ
nanosecond t = t -ℤ unix t *ℤ pos (10 ^ 9)

-- The datagram of a flow: a header of 24 bytes and one record of 48.
unfoldable pub datagram : Moment → ℕ → Flow → Bytes
datagram now sequence flow =
    let b0 = replicate 72 0 in
    let b1 = copy_at b0 0 (u16_bytes 5) in
    let b2 = copy_at b1 2 (u16_bytes 1) in
    let b3 = copy_at b2 4 (u32_bytes (to_u32 (wrap_i64 (unix now.uptime_at *ℤ pos 1000)))) in
    let b4 = copy_at b3 8 (u32_bytes (to_u32 (unix now.secs_at))) in
    let b5 = copy_at b4 12 (u32_bytes (to_u32 (nanosecond now.nanos_at))) in
    let b6 = copy_at b5 16 (u32_bytes sequence) in
    let b7 = copy_at b6 24 (take 4 (to4 flow.src_ip)) in
    let b8 = copy_at b7 28 (take 4 (to4 flow.dst_ip)) in
    let b9 = copy_at b8 36 (u16_bytes 0) in
    let b10 = copy_at b9 38 (u16_bytes 0) in
    let b11 = copy_at b10 40 (u32_bytes flow.packets) in
    let b12 = copy_at b11 44 (u32_bytes flow.bytes) in
    let b13 = copy_at b12 48 (u32_bytes (to_u32 (unix flow.first_seen))) in
    let b14 = copy_at b13 52 (u32_bytes (to_u32 (unix flow.last_seen))) in
    let b15 = copy_at b14 56 (u16_bytes flow.src_port) in
    let b16 = copy_at b15 58 (u16_bytes flow.dst_port) in
    let b17 = copy_at b16 60 (0 ∷ []) in
    let b18 = copy_at b17 61 (flow.tcp_flags ∷ []) in
    let b19 = copy_at b18 62 (flow.protocol ∷ []) in copy_at b19 63 (0 ∷ [])

-- `exportFlow`, with its error.
unfoldable pub export_flow : Moment → Flow → Exporter → Exporter × Option Bytes
export_flow now flow e =
    if not (eqb_ℤ e.version (pos 5))
    then (e, none)
    else let sequence = (e.sequence_num + 1) % 2 ^ 32 in
      (
        record e { sequence_num = sequence; sent = e.sent ++ datagram now sequence flow ∷ [] },
        now.write_error,
      )

-- `delete(e.flows, key)`, behind the export of the key's flow.
abbrev pub drop_exported : Bytes → Exporter → Exporter
drop_exported key e = record e { flows = delete key e.flows }

abbrev pub new_flow : PacketInfo → Flow
new_flow info = record {
  src_ip = parse_ip info.src_ip;
  dst_ip = parse_ip info.dst_ip;
  src_port = info.src_port;
  dst_port = info.dst_port;
  protocol = get_protocol_number info.protocol;
  first_seen = info.timestamp;
  last_seen = info.timestamp;
  packets = 0;
  bytes = 0;
  tcp_flags = 0;
}

abbrev get_or_new : PacketInfo → Option Flow → Flow
get_or_new info none = new_flow info
get_or_new info (some flow) = flow

abbrev update_flow : PacketInfo → Flow → Flow
update_flow info flow = record flow {
  last_seen = info.timestamp;
  packets = (flow.packets + 1) % 2 ^ 32;
  bytes = (flow.bytes + info.len % 2 ^ 32) % 2 ^ 32;
  tcp_flags = bit_or flow.tcp_flags (parse_tcp_flags info.tcp_flags);
}

-- `time.Since(t)` at the time `now`, and `now.Sub(t)`.
abbrev pub since : Time → Time → ℤ
since now t = saturate_i64 (now -ℤ t)

-- `ProcessPacket` at the time `clock`; an error of the export is dropped.
unfoldable pub process_packet : Time → Moment → PacketInfo → Exporter → Exporter
process_packet clock now info e =
    if text_eq info.src_ip [] || text_eq info.dst_ip []
    then e
    else let key = make_flow_key info in
      let flow = update_flow info (get_or_new info (lookup key e.flows)) in
      let stored = record e { flows = insert key flow e.flows } in
      if leb_ℤ e.active_timeout (since clock flow.first_seen)
      then drop_exported key (export_flow now flow stored).0
      else stored

-- The body of the loop of `expireFlows` at one key. A key that is gone is not visited.
pub expire_one : Time → Moment → Bytes → Option Flow → Exporter → Exporter
expire_one clock now key none e = e
expire_one clock now key (some flow) e =
    if leb_ℤ e.flow_timeout (since clock flow.last_seen)
    then drop_exported key (export_flow now flow e).0
    else e

-- A tick of `expireFlows`, which visits the keys in the order `keys`.
unfoldable pub expire_flows : Time → (Bytes → Moment) → List Bytes → Exporter → Exporter
unfolding expire_one
expire_flows clock now [] e = e
expire_flows clock now (key ∷ keys) e =
    expire_flows clock now keys (expire_one clock (now key) key (lookup key e.flows) e)

-- What a tick finds: the time at its start, the clock and the socket at each flow, and the order of the
-- keys.
pub record Tick : Type 0 where
  pub clock : Time
  pub now : Bytes → Moment
  pub keys : List Bytes

abbrev pub on_tick : Tick → Exporter → Exporter
on_tick t e = expire_flows t.clock t.now t.keys e

-- The body of the loop of `Close` at one key.
pub close_one : Moment → Bytes → Option Flow → Exporter → Exporter
close_one now key none e = e
close_one now key (some flow) e = drop_exported key (export_flow now flow e).0

unfoldable pub close_flows : (Bytes → Moment) → List Bytes → Exporter → Exporter
unfolding close_one
close_flows now [] e = e
close_flows now (key ∷ keys) e =
    close_flows now keys (close_one (now key) key (lookup key e.flows) e)

-- `Close`; the socket's own error is `close_error`.
unfoldable pub close :
    (Bytes → Moment) → List Bytes → Option Bytes → Exporter → Exporter × Option Bytes
unfolding close_flows
close now keys close_error e = (record (close_flows now keys e) { closed = true }, close_error)
