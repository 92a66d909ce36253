-- ===== src/Server.antt =====
-- internal/server/server.go: the receive loop, and the way of a datagram through the decoders to the
-- outputs. The directory of the PCAP writer and the effects of the QingPing exporter are part of the
-- state. An output that is nil in the code is `none`.
pub mod Streams
pub mod Outputs
pub mod Counters
pub mod Rounds
pub mod Run
pub mod Timestamp
pub mod Sent
pub mod Statistics
mod Tests
use mathlib.Core.Option
use tzsp_server.Prelude.{
  ◌||◌, Bool, zero, suc, ℕ, ◌+◌, ◌%◌, ◌^◌, Option, none, some, List, [], ◌∷◌, ◌++◌, Bytes, length,
  take, ◌==◌, Result, ok, err, panic, stuck, if◌then◌else◌,
}
use tzsp_server.Prelude.Int.{ℤ, pos, negsuc, ltb_ℤ, wrap_i64}
use tzsp_server.Tzsp
use tzsp_server.Tzsp.{Time, Packet, DecodeError, get_timestamp}
use tzsp_server.Decoder
use tzsp_server.Decoder.{PacketInfo, Dissection}
use tzsp_server.Netflow
use tzsp_server.Netflow.{Exporter, Moment, Tick}
use tzsp_server.Pcap
use tzsp_server.Pcap.{Writer, Directory, Attempt, WriteError}
use tzsp_server.Output
use tzsp_server.Output.{FileWriter}
use tzsp_server.Qingping.Export.{Config, Environment, Effect, export}

pub record Server : Type 0 where
  pub buffer_size : ℤ
  pub file_writer : Option FileWriter
  pub pcap_writer : Option Writer
  pub directory : Directory
  pub netflow_exp : Option Exporter
  pub qingping_exp : Option Config
  pub uploads : List Effect
  pub packets_received : ℕ
  pub packets_decoded : ℕ
  pub packets_written : ℕ

-- `NewServer`
unfoldable pub new_server :
    ℤ → Option FileWriter → Option Writer → Directory → Option Exporter → Option Config → Server
new_server buffer_size file_writer pcap_writer directory netflow_exp qingping_exp = record {
  buffer_size = buffer_size;
  file_writer = file_writer;
  pcap_writer = pcap_writer;
  directory = directory;
  netflow_exp = netflow_exp;
  qingping_exp = qingping_exp;
  uploads = [];
  packets_received = 0;
  packets_decoded = 0;
  packets_written = 0;
}

-- The bytes of the buffer; a negative size is refused by `make`, before the loop.
abbrev pub room : ℤ → ℕ
room (pos n) = n
room (negsuc n) = 0

-- What the world answers while one datagram is processed: the clock of the TZSP decoder, the errors of
-- the PCAP file, the clock and the socket of NetFlow, the HTTP server.
pub record Surroundings : Type 0 where
  pub received_time : Time
  pub attempt : Attempt
  pub write_error : Option Bytes
  pub netflow_clock : Time
  pub netflow_moment : Moment
  pub upstream : Environment

-- `s.packetsReceived++` and the like, on a uint64.
abbrev pub increment : ℕ → ℕ
increment n = (n + 1) % 2 ^ 64

-- The timestamp of the packet: that of its tags, or else the time it was received.
abbrev or_time : Time → Option Time → Time
or_time received none = received
or_time received (some t) = t

unfoldable pub packet_time : Packet → Time
packet_time pkt = or_time pkt.received_time (get_timestamp pkt)

-- The block of each output in `processPacket`; an error is logged, and a PCAP write without one is
-- counted.
abbrev count_written : Option WriteError → Server → Server
count_written none s = record s { packets_written = increment s.packets_written }
count_written (some why) s = s

abbrev pub write_pcap : Surroundings → Bytes → Time → Option Writer → Server → Server
write_pcap env frame timestamp none s = s
write_pcap env frame timestamp (some w) s =
    let (directory, w', error) =
      Pcap.write_packet env.attempt env.write_error frame timestamp w s.directory in
    count_written error (record s { directory = directory; pcap_writer = some w' })

abbrev pub export_netflow : Surroundings → PacketInfo → Option Exporter → Server → Server
export_netflow env info none s = s
export_netflow env info (some e) s = record s {
  netflow_exp = some (Netflow.process_packet env.netflow_clock env.netflow_moment info e);
}

abbrev pub export_qingping : Surroundings → PacketInfo → Option Config → Server → Server
export_qingping env info none s = s
export_qingping env info (some config) s = record s {
  uploads = s.uploads ++ export env.upstream config info ∷ [];
}

abbrev pub write_metadata : PacketInfo → Option FileWriter → Server → Server
write_metadata info none s = s
write_metadata info (some w) s = record s { file_writer = some (Output.write_packet info w) }

-- From the decoded frame on; a decoding error ends the processing.
unfoldable pub deliver : Surroundings → PacketInfo × Option Bytes → Server → Server
deliver env (info, some why) s = s
deliver env (info, none) s =
    let s1 = export_netflow env info s.netflow_exp s in
    let s2 = export_qingping env info s1.qingping_exp s1 in write_metadata info s2.file_writer s2

module _ (dissect : Bytes → Dissection) where
  -- From the decoded TZSP packet on.
  unfoldable pub process_frame : Surroundings → Packet → Server → Server
  unfolding deliver packet_time
  process_frame env pkt s =
      let s1 = record s { packets_decoded = increment s.packets_decoded } in
      let timestamp = packet_time pkt in
      let s2 = write_pcap env pkt.encap_packet timestamp s1.pcap_writer s1 in
      deliver env (Decoder.decode dissect pkt.encap_packet (wrap_i64 timestamp)) s2

  unfoldable pub process_decoded :
      Surroundings → Result DecodeError Packet → Server → Result DecodeError Server
  unfolding process_frame
  process_decoded env (ok pkt) s =
      if length pkt.encap_packet == 0 then ok s else ok (process_frame env pkt s)
  process_decoded env (err why) s = err why
  process_decoded env panic s = panic
  process_decoded env stuck s = stuck

  -- `processPacket`; an error leaves the server as it was.
  unfoldable pub process_packet : Surroundings → Bytes → Bytes → Server → Result DecodeError Server
  unfolding process_decoded
  process_packet env bytes source_addr s =
      process_decoded env (Tzsp.decode bytes source_addr env.received_time) s

-- What a round of the receive loop finds: the context is cancelled, or `ReadFromUDP` gives an error,
-- which may be the timeout, or a datagram with its sender. Between two rounds the ticker of the NetFlow
-- exporter may fire. A tick within a round is the same as one before or behind it: the mutex keeps it
-- out of `ProcessPacket`, and the rest of the round does not touch the exporter.
pub data Event : Type 0 where
  cancelled : Event
  timed_out : Event
  read_failed : Bytes → Event
  datagram : Surroundings → Bytes → Bytes → Event
  swept : Tick → Event

-- A tick reaches the exporter through the pointer that it shares with the server.
unfoldable pub sweep_netflow : Tick → Server → Server
sweep_netflow t s = record s { netflow_exp = Option.map (Netflow.on_tick t) s.netflow_exp }

-- The loop goes on with the server behind a datagram, or as it was behind an error. A panic would end
-- the program.
abbrev after_packet : Server → Result DecodeError Server → Option Server
after_packet s (ok s') = some s'
after_packet s (err why) = some s
after_packet s panic = none
after_packet s stuck = none

module _ (dissect : Bytes → Dissection) where
  -- A datagram is cut to the size of the buffer, counted and processed.
  unfoldable pub receive : Surroundings → Bytes → Bytes → Server → Option Server
  unfolding process_packet
  receive env bytes source_addr s =
      let s1 = record s { packets_received = increment s.packets_received } in
      after_packet s1 (process_packet dissect env (take (room s.buffer_size) bytes) source_addr s1)

  -- The loop of `Start` over what its rounds find; `none` if it panics.
  unfoldable pub receive_loop : List Event → Server → Option Server
  unfolding receive sweep_netflow
  receive_loop [] s = some s
  receive_loop (cancelled ∷ events) s = some s
  receive_loop (timed_out ∷ events) s = receive_loop events s
  receive_loop (read_failed why ∷ events) s = receive_loop events s
  receive_loop (swept t ∷ events) s = receive_loop events (sweep_netflow t s)
  receive_loop (datagram env bytes source_addr ∷ events) s =
      elim (receive env bytes source_addr s) [ none ↦ none | some s' ↦ receive_loop events s' ]

pub data StartError : Type 0 where
  not_resolved not_listening : Bytes → StartError

abbrev of_loop : Option Server → Result StartError Server
of_loop none = panic
of_loop (some s) = ok s

-- `make([]byte, n)` panics on a negative length and on one above the largest allocation, which is 2 ^ 48
-- bytes on a 64-bit machine. That the memory of the machine is enough is not modelled.
abbrev pub max_alloc : ℕ
max_alloc = 2 ^ 48

abbrev pub out_of_range : ℤ → Bool
out_of_range n = ltb_ℤ n (pos 0) || ltb_ℤ (pos max_alloc) n

-- `Start`: the errors of the address and of the socket, and then the loop, on a new buffer.
unfoldable pub start :
    (Bytes → Dissection)
    → Option Bytes
    → Option Bytes
    → List Event
    → Server
    → Result StartError Server
unfolding receive_loop
start dissect (some why) listen_error events s = err (not_resolved why)
start dissect none (some why) events s = err (not_listening why)
start dissect none none events s =
    if out_of_range s.buffer_size then panic else of_loop (receive_loop dissect events s)

-- `Stop`: the error of the socket's own close, if `Start` has opened one.
abbrev pub stop : Bool → Option Bytes → Option Bytes
stop listening close_error = if listening then close_error else none

-- What `reportStats` logs at a tick. The rate is decoded / received in floating point: two zeros give
-- NaN, and the division is left to Go.
pub data Rate : Type 0 where
  not_a_number : Rate
  infinite : Rate
  quotient : ℕ → ℕ → Rate

abbrev pub rate : ℕ → ℕ → Rate
rate decoded zero = if decoded == 0 then not_a_number else infinite
rate decoded (suc n) = quotient decoded (suc n)

pub record Report : Type 0 where
  pub received : ℕ
  pub decoded : ℕ
  pub written : ℕ
  pub decode_rate : Rate

unfoldable pub report : Server → Report
report s = record {
  received = s.packets_received;
  decoded = s.packets_decoded;
  written = s.packets_written;
  decode_rate = rate s.packets_decoded s.packets_received;
}
