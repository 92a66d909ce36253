-- ===== src/Decoder/Tests.antt =====
-- A TCP segment over IPv4 in an Ethernet frame, as gopacket would take it apart.
use tzsp_server.Prelude.{◌≡◌, true, false, none, some, [], ◌∷◌, Bytes}
use tzsp_server.Prelude.Int.{pos}
use tzsp_server.Prelude.Text.{codes}
use tzsp_server.Decoder.{TcpLayer, Dissection, decode}
use tzsp_server.Decoder.Fields.{Describes, decode-Describes}

abbrev syn_ack : TcpLayer
syn_ack = record {
  src_port = 443;
  dst_port = 50000;
  syn = true;
  ack = true;
  fin = false;
  rst = false;
  psh = false;
  urg = false;
  ece = true;
  cwr = false;
  ns = false;
}

abbrev segment : Dissection
segment = record {
  ethernet = some (record { src_mac = 2 ∷ 0 ∷ []; dst_mac = 2 ∷ 1 ∷ [] });
  ipv4 = some (record {
    src_ip = 10 ∷ 0 ∷ 0 ∷ 1 ∷ [];
    dst_ip = 10 ∷ 0 ∷ 0 ∷ 2 ∷ [];
    protocol = codes "TCP";
  });
  ipv6 = none;
  tcp = some syn_ack;
  udp = none;
  icmpv4 = false;
  icmpv6 = false;
  application = some (1 ∷ 2 ∷ 3 ∷ []);
  error_layer = none;
}

abbrev dissect : Bytes → Dissection
dissect bytes = segment

decode-Describes_example :
    Describes segment (8 ∷ 9 ∷ []) (pos 7) (decode dissect (8 ∷ 9 ∷ []) (pos 7)).0
    × ((decode dissect (8 ∷ 9 ∷ []) (pos 7)).1 ≡ segment.error_layer)
decode-Describes_example = decode-Describes dissect (8 ∷ 9 ∷ []) (pos 7)
