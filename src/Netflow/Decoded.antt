-- ===== src/Netflow/Decoded.antt =====
-- From the packet decoder to the flow: the packets that it describes have keys that tell flows apart,
-- and the datagram of a flow shows the addresses of the IPv4 header.
use tzsp_server.Prelude.{
  ℕ, ◌<◌, ◌≡◌, ◌↔◌, sym, ap, ◌∙◌, subst, Option, none, some, [], ◌∷◌, Bytes, take, drop,
}
use tzsp_server.Prelude.Int.{ℤ}
use tzsp_server.Prelude.Separators.{Without}
use tzsp_server.Net.{to4, ip_string}
use tzsp_server.Net.Parse.{parse_ip}
use tzsp_server.Net.RoundTrip.{to4-parse_ip}
use tzsp_server.Net.Dashless.{ip_string-Without}
use tzsp_server.Decoder.{IpLayer, Dissection, decode}
use tzsp_server.Decoder.Fields.{address_of, decode-Describes}
use tzsp_server.Netflow.{Flow, Moment, make_flow_key, datagram}
use tzsp_server.Netflow.Key.{HasPlainIps, SameFlow, make_flow_key-injective}
use tzsp_server.Netflow.Datagram.{shown, datagram_shows}

address_of-Without :
    (side : IpLayer → Bytes) (v4 v6 : Option IpLayer) → Without b'-' (address_of side v4 v6)
address_of-Without side none none = tt
address_of-Without side (some v4) none = ip_string-Without (side v4)
address_of-Without side none (some v6) = ip_string-Without (side v6)
address_of-Without side (some v4) (some v6) = ip_string-Without (side v6)

decode-HasPlainIps :
    (dissect : Bytes → Dissection) (bytes : Bytes) (timestamp : ℤ)
    → HasPlainIps (decode dissect bytes timestamp).0
decode-HasPlainIps dissect bytes timestamp =
    let d = (decode-Describes dissect bytes timestamp).0 in
    let layers = dissect bytes in
    record {
      plain_src =
          subst (Without b'-') (sym d.src_ip_is)
            (address_of-Without (λ ip. ip.src_ip) layers.ipv4 layers.ipv6);
      plain_dst =
          subst (Without b'-') (sym d.dst_ip_is)
            (address_of-Without (λ ip. ip.dst_ip) layers.ipv4 layers.ipv6);
    }

-- Two frames, whatever gopacket finds in them, are counted under one flow key exactly if the packet
-- decoder gives them the same addresses, ports and protocol: the text of the key is never ambiguous.
pub make_flow_key-decode :
    (dissect : Bytes → Dissection) (b1 b2 : Bytes) (t1 t2 : ℤ)
    → (make_flow_key (decode dissect b1 t1).0 ≡ make_flow_key (decode dissect b2 t2).0)
      ↔ SameFlow (decode dissect b1 t1).0 (decode dissect b2 t2).0
make_flow_key-decode dissect b1 b2 t1 t2 =
    make_flow_key-injective (decode dissect b1 t1).0 (decode dissect b2 t2).0
      (decode-HasPlainIps dissect b1 t1) (decode-HasPlainIps dissect b2 t2)

-- The four bytes of an IPv4 address.
pub record IsIp4 (ip : Bytes) : Type 0 where
  pub a : ℕ
  pub b : ℕ
  pub c : ℕ
  pub d : ℕ
  pub bytes_are : ip ≡ a ∷ b ∷ c ∷ d ∷ []
  pub are_bytes : (a < 256) × (b < 256) × (c < 256) × (d < 256)

ip4_kept : (ip : Bytes) → IsIp4 ip → shown (to4 (parse_ip (ip_string ip))) ≡ ip
ip4_kept ip h =
    let (ha, hb, hc, hd) = h.are_bytes in
    rw h.bytes_are (ap shown (to4-parse_ip h.a h.b h.c h.d ha hb hc hd))

-- If a frame has an IPv4 layer and no IPv6 layer, then the datagram of a flow that was made from its
-- description has the source and the destination address of the IPv4 header, byte for byte, where the
-- NetFlow v5 format has them: the way of an address through its text loses nothing.
pub datagram-addresses :
    (dissect : Bytes → Dissection) (bytes : Bytes) (timestamp : ℤ) (ip : IpLayer) (now : Moment)
    (sequence : ℕ) (flow : Flow)
    → (dissect bytes).ipv4 ≡ some ip
    → (dissect bytes).ipv6 ≡ none
    → IsIp4 ip.src_ip
    → IsIp4 ip.dst_ip
    → flow.src_ip ≡ parse_ip (decode dissect bytes timestamp).0.src_ip
    → flow.dst_ip ≡ parse_ip (decode dissect bytes timestamp).0.dst_ip
    → (take 4 (drop 24 (datagram now sequence flow)) ≡ ip.src_ip)
      × (take 4 (drop 28 (datagram now sequence flow)) ≡ ip.dst_ip)
datagram-addresses dissect bytes timestamp ip now sequence flow v4 v6 src dst is_src is_dst =
    let d = (decode-Describes dissect bytes timestamp).0 in
    let side_is = λ (side : IpLayer → Bytes).
      ap (λ (o : Option IpLayer). address_of side o (dissect bytes).ipv6) v4
      ∙ ap (λ (o : Option IpLayer). address_of side (some ip) o) v6 in
    let (src_shown, dst_shown) = datagram_shows now sequence flow in
    (
      src_shown
          ∙ ap (λ (s : Bytes). shown (to4 s))
              (is_src ∙ ap parse_ip (d.src_ip_is ∙ side_is (λ i. i.src_ip)))
          ∙ ip4_kept ip.src_ip src,
      dst_shown
          ∙ ap (λ (s : Bytes). shown (to4 s))
              (is_dst ∙ ap parse_ip (d.dst_ip_is ∙ side_is (λ i. i.dst_ip)))
          ∙ ip4_kept ip.dst_ip dst,
    )
