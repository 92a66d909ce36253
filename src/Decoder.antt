-- ===== src/Decoder.antt =====
-- internal/decoder/decoder.go: the metadata of an encapsulated frame. The frame is taken apart by the
-- package gopacket, which is a parameter here: `Dissection` holds what the decoder reads of a
-- gopacket packet, one field for each layer that it asks for.
pub mod Fields
mod Tests
use tzsp_server.Prelude.{
  ℕ, ◌+◌, Bool, true, false, Option, none, some, List, [], ◌∷◌, ◌++◌, Bytes, length, if◌then◌else◌,
}
use tzsp_server.Prelude.Int.{ℤ}
use tzsp_server.Prelude.Text.{codes, text_eq}
use tzsp_server.Net.{ip_string, mac_string}

pub record PacketInfo : Type 0 where
  pub timestamp : ℤ
  pub protocol : Bytes
  pub src_ip : Bytes
  pub dst_ip : Bytes
  pub src_port : ℕ
  pub dst_port : ℕ
  pub src_mac : Bytes
  pub dst_mac : Bytes
  pub len : ℕ
  pub payload_len : ℕ
  pub tcp_flags : Bytes
  pub packet_data : Bytes

-- The fields of gopacket's layers that the decoder reads. The protocol of an IP layer is its text,
-- as gopacket's `IPProtocol.String` gives it.
pub record Ethernet : Type 0 where
  pub src_mac : Bytes
  pub dst_mac : Bytes

pub record IpLayer : Type 0 where
  pub src_ip : Bytes
  pub dst_ip : Bytes
  pub protocol : Bytes

pub record TcpLayer : Type 0 where
  pub src_port : ℕ
  pub dst_port : ℕ
  pub syn : Bool
  pub ack : Bool
  pub fin : Bool
  pub rst : Bool
  pub psh : Bool
  pub urg : Bool
  pub ece : Bool
  pub cwr : Bool
  pub ns : Bool

pub record UdpLayer : Type 0 where
  pub src_port : ℕ
  pub dst_port : ℕ

pub record Dissection : Type 0 where
  pub ethernet : Option Ethernet
  pub ipv4 : Option IpLayer
  pub ipv6 : Option IpLayer
  pub tcp : Option TcpLayer
  pub udp : Option UdpLayer
  pub icmpv4 : Bool
  pub icmpv6 : Bool
  -- The payload of the application layer.
  pub application : Option Bytes
  -- The text of the error layer.
  pub error_layer : Option Bytes

-- `if b { flags += letter }`
abbrev add_letter : Bool → ℕ → Bytes → Bytes
add_letter b letter flags = if b then flags ++ letter ∷ [] else flags

abbrev or_dash : Bytes → Bytes
or_dash [] = codes "-"
or_dash flags = flags

unfoldable pub format_tcp_flags : TcpLayer → Bytes
format_tcp_flags tcp =
    let f1 = add_letter tcp.syn b'S' [] in
    let f2 = add_letter tcp.ack b'A' f1 in
    let f3 = add_letter tcp.fin b'F' f2 in
    let f4 = add_letter tcp.rst b'R' f3 in
    let f5 = add_letter tcp.psh b'P' f4 in
    let f6 = add_letter tcp.urg b'U' f5 in
    let f7 = add_letter tcp.ece b'E' f6 in
    let f8 = add_letter tcp.cwr b'C' f7 in or_dash (add_letter tcp.ns b'N' f8)

-- The blocks of `Decode`, one for each layer, in the order of the code.
abbrev extract_ethernet : Option Ethernet → PacketInfo → PacketInfo
extract_ethernet none info = info
extract_ethernet (some eth) info = record info {
  src_mac = mac_string eth.src_mac;
  dst_mac = mac_string eth.dst_mac;
}

abbrev extract_ip : Option IpLayer → PacketInfo → PacketInfo
extract_ip none info = info
extract_ip (some ip) info = record info {
  src_ip = ip_string ip.src_ip;
  dst_ip = ip_string ip.dst_ip;
  protocol = ip.protocol;
}

abbrev extract_payload : Option Bytes → PacketInfo → PacketInfo
extract_payload none info = info
extract_payload (some payload) info = record info { payload_len = length payload }

abbrev extract_tcp : Option TcpLayer → Option Bytes → PacketInfo → PacketInfo
extract_tcp none app info = info
extract_tcp (some tcp) app info = extract_payload app (record info {
  src_port = tcp.src_port;
  dst_port = tcp.dst_port;
  protocol = codes "TCP";
  tcp_flags = format_tcp_flags tcp;
})

abbrev extract_udp : Option UdpLayer → Option Bytes → PacketInfo → PacketInfo
extract_udp none app info = info
extract_udp (some udp) app info =
    extract_payload app
      (record info { src_port = udp.src_port; dst_port = udp.dst_port; protocol = codes "UDP" })

abbrev extract_icmp : Bool → Bytes → PacketInfo → PacketInfo
extract_icmp false name info = info
extract_icmp true name info = record info { protocol = name }

abbrev start_info : Bytes → ℤ → PacketInfo
start_info bytes timestamp = record {
  timestamp = timestamp;
  protocol = [];
  src_ip = [];
  dst_ip = [];
  src_port = 0;
  dst_port = 0;
  src_mac = [];
  dst_mac = [];
  len = length bytes;
  payload_len = 0;
  tcp_flags = [];
  packet_data = bytes;
}

-- `Decode` returns the metadata together with an error, if gopacket reports one.
module _ (dissect : Bytes → Dissection) where
  unfoldable pub decode_info : Bytes → ℤ → PacketInfo
  decode_info bytes timestamp =
      let packet = dissect bytes in
      let i0 = start_info bytes timestamp in
      let i1 = extract_ethernet packet.ethernet i0 in
      let i2 = extract_ip packet.ipv4 i1 in
      let i3 = extract_ip packet.ipv6 i2 in
      let i4 = extract_tcp packet.tcp packet.application i3 in
      let i5 = extract_udp packet.udp packet.application i4 in
      let i6 = extract_icmp packet.icmpv4 (codes "ICMPv4") i5 in
      extract_icmp packet.icmpv6 (codes "ICMPv6") i6

  unfoldable pub decode : Bytes → ℤ → PacketInfo × Option Bytes
  unfolding decode_info
  decode bytes timestamp = (decode_info bytes timestamp, (dissect bytes).error_layer)
