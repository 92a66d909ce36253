-- ===== src/Qingping/Matching.antt =====
-- The packet filter as the conjunction of its criteria.
use tzsp_server.Prelude.{
  ◌≡◌, ◌≢◌, ◌↔◌, ◌⊎◌, inl, inr, sym, ap, ◌∙◌, true, false, Bytes, [], Bool-cases, arith,
}
use tzsp_server.Prelude.Text.{codes, text_eq_iff, to_lower}
use tzsp_server.Prelude.Int.{ℤ}
use tzsp_server.Decoder.{PacketInfo, Dissection, decode}
use tzsp_server.Decoder.Fields.{decode-Describes, protocol_of}
use tzsp_server.Qingping.{Filter, matches_filter}

-- Each criterion is absent, or the packet has it.
pub record Meets (filter : Filter) (pkt : PacketInfo) : Type 0 where
  pub src : (filter.src_ip ≡ []) ⊎ (pkt.src_ip ≡ filter.src_ip)
  pub dst : (filter.dst_ip ≡ []) ⊎ (pkt.dst_ip ≡ filter.dst_ip)
  pub port : (filter.dst_port ≡ 0) ⊎ (pkt.dst_port ≡ filter.dst_port)
  pub proto : (filter.protocol ≡ []) ⊎ (to_lower filter.protocol ≡ to_lower pkt.protocol)

module _ (filter : Filter) (pkt : PacketInfo) where
  matches_filter-Meets : matches_filter filter pkt ≡ true → Meets filter pkt
  unfolding matches_filter
  matches_filter-Meets h = ground (
    arith,
    text_eq_iff filter.src_ip [],
    text_eq_iff pkt.src_ip filter.src_ip,
    text_eq_iff filter.dst_ip [],
    text_eq_iff pkt.dst_ip filter.dst_ip,
    text_eq_iff filter.protocol [],
    text_eq_iff (to_lower filter.protocol) (to_lower pkt.protocol),
  )

  Meets-matches_filter : Meets filter pkt → matches_filter filter pkt ≡ true
  unfolding matches_filter
  Meets-matches_filter m = ground (
    arith,
    text_eq_iff filter.src_ip [],
    text_eq_iff pkt.src_ip filter.src_ip,
    text_eq_iff filter.dst_ip [],
    text_eq_iff pkt.dst_ip filter.dst_ip,
    text_eq_iff filter.protocol [],
    text_eq_iff (to_lower filter.protocol) (to_lower pkt.protocol),
  )

  -- A packet matches exactly if it meets each criterion that is configured: equal addresses, the equal
  -- destination port, and the equal protocol up to case.
  pub matches_filter_iff : (matches_filter filter pkt ≡ true) ↔ Meets filter pkt
  matches_filter_iff = (matches_filter-Meets, Meets-matches_filter)

icmp_ne :
    (n : Bytes) → (n ≡ codes "ICMPv4") ⊎ (n ≡ codes "ICMPv6") → to_lower (codes "icmp") ≢ to_lower n
unfolding to_lower
icmp_ne n (inl e) p = cc
icmp_ne n (inr e) p = cc

icmp_protocol :
    (d : Dissection)
    → (d.icmpv4 ≡ true) ⊎ (d.icmpv6 ≡ true)
    → (protocol_of d ≡ codes "ICMPv4") ⊎ (protocol_of d ≡ codes "ICMPv6")
icmp_protocol d h = ground arith

-- The protocol "icmp", which the configuration names as a choice, matches no decoded ICMP packet: the
-- decoder names them ICMPv4 and ICMPv6.
pub icmp_never_matches :
    (dissect : Bytes → Dissection) (bytes : Bytes) (timestamp : ℤ) (filter : Filter)
    → ((dissect bytes).icmpv4 ≡ true) ⊎ ((dissect bytes).icmpv6 ≡ true)
    → filter.protocol ≡ codes "icmp"
    → matches_filter filter (decode dissect bytes timestamp).0 ≡ false
icmp_never_matches dissect bytes timestamp filter icmp is_icmp =
    elim (Bool-cases (matches_filter filter info)) [
      | inr refused ↦ refused
      | inl matched ↦ elim (matches_filter-Meets filter info matched).proto [
        | inl unset ↦ absurd (cc (unset, is_icmp))
        | inr same ↦ absurd (
            icmp_ne info.protocol (rw (← named) at (icmp_protocol (dissect bytes) icmp))
              (ap to_lower (sym is_icmp) ∙ same))
      ]
    ]
  where
    info : PacketInfo
    info = (decode dissect bytes timestamp).0

    named : info.protocol ≡ protocol_of (dissect bytes)
    named = (decode-Describes dissect bytes timestamp).0.protocol_is
