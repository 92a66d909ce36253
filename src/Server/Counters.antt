-- ===== src/Server/Counters.antt =====
-- The counters of the server, over datagrams, frames and the frames that the PCAP file took.
use tzsp_server.Prelude.{
  ℕ, ◌+◌, ◌%◌, ◌^◌, ◌<◌, ◌≡◌, ◌∙◌, List, [], ◌∷◌, Bytes, length, Option, arith,
}
use tzsp_server.Tzsp.{Packet, Time}
use tzsp_server.Decoder.{PacketInfo, Dissection}
use tzsp_server.Pcap.{Writer}
use tzsp_server.Server.{
  Server, Surroundings, increment, packet_time, write_pcap, deliver, process_frame,
}
use tzsp_server.Server.Streams.{Frame, frame_of, description, written, written_of}

-- The counters are values of a uint64.
pub record IsCounting (s : Server) : Type 0 where
  pub received_fits : s.packets_received < 2 ^ 64
  pub decoded_fits : s.packets_decoded < 2 ^ 64
  pub written_fits : s.packets_written < 2 ^ 64

-- From `s` to `s'`, `n` datagrams were received and the frames `fs` were decoded.
pub record Counted (n : ℕ) (fs : List Frame) (s s' : Server) : Type 0 where
  pub received_is : s'.packets_received ≡ (s.packets_received + n) % 2 ^ 64
  pub decoded_is : s'.packets_decoded ≡ (s.packets_decoded + length fs) % 2 ^ 64
  pub written_is :
      s'.packets_written ≡ (s.packets_written + written fs (s.pcap_writer, s.directory)) % 2 ^ 64

-- A delivery leaves the counters and the capture alone.
record SameCounts (s s' : Server) : Type 0 where
  same_received : s'.packets_received ≡ s.packets_received
  same_decoded : s'.packets_decoded ≡ s.packets_decoded
  same_written : s'.packets_written ≡ s.packets_written

deliver-SameCounts :
    (env : Surroundings) (p : PacketInfo × Option Bytes) (s : Server)
    → SameCounts s (deliver env p s)
unfolding deliver
deliver-SameCounts env p s = ground arith

write_pcap-written :
    (env : Surroundings) (pkt : Packet) (o : Option Writer) (s : Server)
    → s.packets_written < 2 ^ 64
    → (write_pcap env pkt.encap_packet (packet_time pkt) o s).packets_written
      ≡ (s.packets_written + written_of (frame_of env pkt) (o, s.directory)) % 2 ^ 64
write_pcap-written env pkt o s h = ground arith

write_pcap-received :
    (env : Surroundings) (frame : Bytes) (timestamp : Time) (o : Option Writer) (s : Server)
    → ((write_pcap env frame timestamp o s).packets_received ≡ s.packets_received)
      × ((write_pcap env frame timestamp o s).packets_decoded ≡ s.packets_decoded)
write_pcap-received env frame timestamp o s = ground arith

pub process_frame-Counted :
    (dissect : Bytes → Dissection) (env : Surroundings) (pkt : Packet) (s : Server)
    → IsCounting s
    → Counted 0 (frame_of env pkt ∷ []) s (process_frame dissect env pkt s)
unfolding process_frame written
process_frame-Counted dissect env pkt s h =
    let s1 = record s { packets_decoded = increment s.packets_decoded } in
    let s2 = write_pcap env pkt.encap_packet (packet_time pkt) s.pcap_writer s1 in
    let same = deliver-SameCounts env (description dissect (frame_of env pkt)) s2 in
    let (received, decoded) =
      write_pcap-received env pkt.encap_packet (packet_time pkt) s.pcap_writer s1 in
    record {
      received_is = same.same_received ∙ received ∙ omega (arith, h.received_fits);
      decoded_is = same.same_decoded ∙ decoded;
      written_is =
          same.same_written
          ∙ write_pcap-written env pkt s.pcap_writer s1 h.written_fits
          ∙ omega arith;
    }
