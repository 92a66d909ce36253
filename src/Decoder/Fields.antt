-- ===== src/Decoder/Fields.antt =====
-- What `Decode` makes of the layers of a frame.
use tzsp_server.Prelude.{ℕ, ◌≡◌, refl, Option, none, some, [], Bytes, length, if◌then◌else◌, arith}
use tzsp_server.Prelude.Int.{ℤ}
use tzsp_server.Prelude.Text.{codes}
use tzsp_server.Net.{ip_string}
use tzsp_server.Decoder.{
  PacketInfo, IpLayer, TcpLayer, UdpLayer, Dissection, format_tcp_flags, decode,
}

abbrev ip_protocol : Option IpLayer → Option IpLayer → Bytes
ip_protocol v4 (some v6) = v6.protocol
ip_protocol (some v4) none = v4.protocol
ip_protocol none none = []

abbrev transport : Option TcpLayer → Option UdpLayer → Bytes → Bytes
transport tcp (some udp) other = codes "UDP"
transport (some tcp) none other = codes "TCP"
transport none none other = other

-- The name of the innermost protocol that was found.
abbrev pub protocol_of : Dissection → Bytes
protocol_of d =
    if d.icmpv6
    then codes "ICMPv6"
    else if d.icmpv4
    then codes "ICMPv4"
    else transport d.tcp d.udp (ip_protocol d.ipv4 d.ipv6)

-- IPv6 is read behind IPv4, UDP behind TCP; what no layer sets is empty or 0.
abbrev pub address_of : (IpLayer → Bytes) → Option IpLayer → Option IpLayer → Bytes
address_of side v4 (some v6) = ip_string (side v6)
address_of side (some v4) none = ip_string (side v4)
address_of side none none = []

abbrev port_of : (TcpLayer → ℕ) → (UdpLayer → ℕ) → Option TcpLayer → Option UdpLayer → ℕ
port_of tcp_side udp_side tcp (some udp) = udp_side udp
port_of tcp_side udp_side (some tcp) none = tcp_side tcp
port_of tcp_side udp_side none none = 0

abbrev payload_of : Option TcpLayer → Option UdpLayer → Option Bytes → ℕ
payload_of none none app = 0
payload_of tcp udp (some payload) = length payload
payload_of tcp udp none = 0

abbrev flags_of : Option TcpLayer → Bytes
flags_of none = []
flags_of (some tcp) = format_tcp_flags tcp

-- The metadata `info` of a frame `bytes` with the layers `d`.
pub record Describes (d : Dissection) (bytes : Bytes) (timestamp : ℤ) (info : PacketInfo)
    : Type 0 where
  pub timestamp_is : info.timestamp ≡ timestamp
  pub len_is : info.len ≡ length bytes
  pub packet_data_is : info.packet_data ≡ bytes
  pub protocol_is : info.protocol ≡ protocol_of d
  pub src_ip_is : info.src_ip ≡ address_of (λ ip. ip.src_ip) d.ipv4 d.ipv6
  pub dst_ip_is : info.dst_ip ≡ address_of (λ ip. ip.dst_ip) d.ipv4 d.ipv6
  pub src_port_is : info.src_port ≡ port_of (λ t. t.src_port) (λ u. u.src_port) d.tcp d.udp
  pub dst_port_is : info.dst_port ≡ port_of (λ t. t.dst_port) (λ u. u.dst_port) d.tcp d.udp
  pub payload_len_is : info.payload_len ≡ payload_of d.tcp d.udp d.application
  pub tcp_flags_are : info.tcp_flags ≡ flags_of d.tcp

-- `Decode` describes the frame by its layers, in a fixed precedence: ICMPv6, ICMPv4, UDP, TCP, IPv6
-- and IPv4 for the protocol, IPv6 before IPv4 for the addresses, UDP before TCP for the ports; with the
-- length and the bytes of the whole frame, and an error exactly if gopacket has an error layer.
pub decode-Describes :
    (dissect : Bytes → Dissection) (bytes : Bytes) (timestamp : ℤ)
    → Describes (dissect bytes) bytes timestamp (decode dissect bytes timestamp).0
      × ((decode dissect bytes timestamp).1 ≡ (dissect bytes).error_layer)
unfolding decode
decode-Describes dissect bytes timestamp = (
  record {
    timestamp_is = ground arith;
    len_is = ground arith;
    packet_data_is = ground arith;
    protocol_is = ground arith;
    src_ip_is = ground arith;
    dst_ip_is = ground arith;
    src_port_is = ground arith;
    dst_port_is = ground arith;
    payload_len_is = ground arith;
    tcp_flags_are = ground arith;
  },
  refl,
)
