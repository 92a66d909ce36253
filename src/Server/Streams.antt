-- ===== src/Server/Streams.antt =====
-- What the outputs are to see of a run of the receive loop: the frames of the datagrams, and of these
-- the ones that the packet decoder describes. It names no server and no order of the outputs.
use tzsp_server.Prelude.{
  ℕ, ◌+◌, ◌≡◌, refl, arith, Option, none, some, List, [], ◌∷◌, Bytes, length, take, ◌==◌, Result,
  ok, err, panic, stuck, if◌then◌else◌,
}
use tzsp_server.Prelude.Int.{wrap_i64}
use tzsp_server.Tzsp
use tzsp_server.Tzsp.{Time, Packet, DecodeError}
use tzsp_server.Decoder
use tzsp_server.Decoder.{PacketInfo, Dissection}
use tzsp_server.Netflow.Table.{Arrival}
use tzsp_server.Netflow.Ops.{Op, arrive, tick, packets_of}
use tzsp_server.Pcap
use tzsp_server.Pcap.{Writer, Directory, WriteError}
use tzsp_server.Output
use tzsp_server.Output.{FileWriter}
use tzsp_server.Qingping.Export.{Config, Effect, export}
use tzsp_server.Server.{
  Surroundings, Event, cancelled, timed_out, read_failed, datagram, swept, packet_time,
}

pub record Frame : Type 0 where
  pub env : Surroundings
  pub content : Bytes
  pub timestamp : Time

-- The datagrams before the first cancellation.
unfoldable pub datagrams : List Event → ℕ
datagrams [] = 0
datagrams (cancelled ∷ events) = 0
datagrams (timed_out ∷ events) = datagrams events
datagrams (read_failed why ∷ events) = datagrams events
datagrams (swept t ∷ events) = datagrams events
datagrams (datagram env bytes source_addr ∷ events) = 1 + datagrams events

abbrev pub frame_of : Surroundings → Packet → Frame
frame_of env pkt = record { env = env; content = pkt.encap_packet; timestamp = packet_time pkt }

-- A datagram adds its frame, if it is a TZSP packet with a frame that is not empty.
module _ {A : Type 0} (add : Frame → A → A) where
  abbrev pub with_frame : Surroundings → Result DecodeError Packet → A → A
  with_frame env (ok pkt) rest =
      if length pkt.encap_packet == 0 then rest else add (frame_of env pkt) rest
  with_frame env (err why) rest = rest
  with_frame env panic rest = rest
  with_frame env stuck rest = rest

abbrev pub cons_frame : Frame → List Frame → List Frame
cons_frame f fs = f ∷ fs

-- The frames before the first cancellation, of datagrams cut to `size` bytes.
unfoldable pub frames : ℕ → List Event → List Frame
frames size [] = []
frames size (cancelled ∷ events) = []
frames size (timed_out ∷ events) = frames size events
frames size (read_failed why ∷ events) = frames size events
frames size (swept t ∷ events) = frames size events
frames size (datagram env bytes source_addr ∷ events) =
    with_frame cons_frame env (Tzsp.decode (take size bytes) source_addr env.received_time)
      (frames size events)

-- A frame that was described.
pub record Sighting : Type 0 where
  pub env : Surroundings
  pub info : PacketInfo

abbrev pub with_info : Surroundings → PacketInfo × Option Bytes → List Sighting → List Sighting
with_info env (info, none) rest = (record { env = env; info = info }) ∷ rest
with_info env (info, some why) rest = rest

module _ (dissect : Bytes → Dissection) where
  abbrev pub description : Frame → PacketInfo × Option Bytes
  description f = Decoder.decode dissect f.content (wrap_i64 f.timestamp)

  -- The frames that gopacket takes apart with no error.
  unfoldable pub sightings : List Frame → List Sighting
  sightings [] = []
  sightings (f ∷ fs) = with_info f.env (description f) (sightings fs)

-- The packet of a sighting for the NetFlow exporter.
abbrev pub arrival_of : Surroundings → PacketInfo → Arrival
arrival_of env info = record { clock = env.netflow_clock; now = env.netflow_moment; info = info }

unfoldable pub arrivals : List Sighting → List Arrival
arrivals [] = []
arrivals (x ∷ xs) = arrival_of x.env x.info ∷ arrivals xs

abbrev pub with_arrival : Surroundings → PacketInfo × Option Bytes → List Op → List Op
with_arrival env (info, none) rest = arrive (arrival_of env info) ∷ rest
with_arrival env (info, some why) rest = rest

module _ (dissect : Bytes → Dissection) where
  abbrev pub cons_arrival : Frame → List Op → List Op
  cons_arrival f ops = with_arrival f.env (description dissect f) ops

  -- What happens to the NetFlow exporter before the first cancellation: the packets of the frames that
  -- gopacket takes apart with no error, and the ticks between them.
  unfoldable pub netflow_ops : ℕ → List Event → List Op
  netflow_ops size [] = []
  netflow_ops size (cancelled ∷ events) = []
  netflow_ops size (timed_out ∷ events) = netflow_ops size events
  netflow_ops size (read_failed why ∷ events) = netflow_ops size events
  netflow_ops size (swept t ∷ events) = tick t ∷ netflow_ops size events
  netflow_ops size (datagram env bytes source_addr ∷ events) =
      with_frame cons_arrival env (Tzsp.decode (take size bytes) source_addr env.received_time)
        (netflow_ops size events)

-- The packets among them are the arrivals of the frames.
packets_of-with_frame :
    (dissect : Bytes → Dissection) (env : Surroundings) (r : Result DecodeError Packet)
    (ops : List Op) (fs : List Frame)
    → packets_of ops ≡ arrivals (sightings dissect fs)
    → packets_of (with_frame (cons_arrival dissect) env r ops)
      ≡ arrivals (sightings dissect (with_frame cons_frame env r fs))
unfolding packets_of arrivals sightings
packets_of-with_frame dissect env r ops fs e = ground arith

pub packets_of-netflow_ops :
    (dissect : Bytes → Dissection) (size : ℕ) (events : List Event)
    → packets_of (netflow_ops dissect size events)
      ≡ arrivals (sightings dissect (frames size events))
unfolding packets_of arrivals sightings frames netflow_ops
packets_of-netflow_ops dissect size [] = refl
packets_of-netflow_ops dissect size (cancelled ∷ events) = refl
packets_of-netflow_ops dissect size (timed_out ∷ events) =
    packets_of-netflow_ops dissect size events
packets_of-netflow_ops dissect size (read_failed why ∷ events) =
    packets_of-netflow_ops dissect size events
packets_of-netflow_ops dissect size (swept t ∷ events) = packets_of-netflow_ops dissect size events
packets_of-netflow_ops dissect size (datagram env bytes source_addr ∷ events) =
    packets_of-with_frame dissect env (Tzsp.decode (take size bytes) source_addr env.received_time)
      (netflow_ops dissect size events) (frames size events)
      (packets_of-netflow_ops dissect size events)

unfoldable pub uploads_of : Option Config → List Sighting → List Effect
uploads_of none xs = []
uploads_of (some config) [] = []
uploads_of (some config) (x ∷ xs) =
    export x.env.upstream config x.info ∷ uploads_of (some config) xs

unfoldable pub write_all : List Sighting → FileWriter → FileWriter
write_all [] w = w
write_all (x ∷ xs) w = write_all xs (Output.write_packet x.info w)

-- The entries of the metadata file for sightings.
unfoldable pub entries_of : List Sighting → List Output.Entry
entries_of [] = []
entries_of (x ∷ xs) = Output.fields x.info ∷ entries_of xs

-- The capture of frames: the PCAP writer with its directory.
abbrev pub Capture : Type 0
Capture = Option Writer × Directory

abbrev pub Attempted : Type 0
Attempted = Directory × Writer × Option WriteError

abbrev pub write_frame : Frame → Writer → Directory → Attempted
write_frame f w dir = Pcap.write_packet f.env.attempt f.env.write_error f.content f.timestamp w dir

abbrev pub captured : Frame → Capture → Capture
captured f (none, dir) = (none, dir)
captured f (some w, dir) = (some (write_frame f w dir).1, (write_frame f w dir).0)

unfoldable pub capture_all : List Frame → Capture → Capture
capture_all [] c = c
capture_all (f ∷ fs) c = capture_all fs (captured f c)

abbrev pub one_if_written : Option WriteError → ℕ
one_if_written none = 1
one_if_written (some why) = 0

abbrev pub written_of : Frame → Capture → ℕ
written_of f (none, dir) = 0
written_of f (some w, dir) = one_if_written (write_frame f w dir).2

-- The frames that were written with no error.
unfoldable pub written : List Frame → Capture → ℕ
written [] c = 0
written (f ∷ fs) c = written_of f c + written fs (captured f c)
