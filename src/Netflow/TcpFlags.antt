-- ===== src/Netflow/TcpFlags.antt =====
-- The letters of the TCP flags, as the NetFlow exporter reads them back.
use tzsp_server.Prelude.{ℕ, ◌+◌, ◌≡◌, Bool, if◌then◌else◌, arith}
use tzsp_server.Decoder.{TcpLayer, format_tcp_flags}
use tzsp_server.Netflow.{parse_tcp_flags, parse_tcp_flags_from}

abbrev weight : Bool → ℕ → ℕ
weight b w = if b then w else 0

-- The flag byte of a TCP header, without its two bits for congestion (ECE and CWR).
abbrev pub header_bits : TcpLayer → ℕ
header_bits tcp =
    weight tcp.urg 32
    + (weight tcp.ack 16
        + (weight tcp.psh 8 + (weight tcp.rst 4 + (weight tcp.syn 2 + weight tcp.fin 1))))

abbrev tcp_of : Bool → Bool → Bool → Bool → Bool → Bool → Bool → Bool → Bool → TcpLayer
tcp_of s a f r p u e c n = record {
  src_port = 0;
  dst_port = 0;
  syn = s;
  ack = a;
  fin = f;
  rst = r;
  psh = p;
  urg = u;
  ece = e;
  cwr = c;
  ns = n;
}

-- What `formatTCPFlags` writes is read by the exporter's `parseTCPFlags` as the flag byte of the TCP
-- header: FIN 1, SYN 2, RST 4, PSH 8, ACK 16 and URG 32; the letters of ECE, CWR and NS add nothing.
pub parse_tcp_flags-format :
    (tcp : TcpLayer) → parse_tcp_flags (format_tcp_flags tcp) ≡ header_bits tcp
unfolding format_tcp_flags parse_tcp_flags_from
parse_tcp_flags-format tcp = ground arith
