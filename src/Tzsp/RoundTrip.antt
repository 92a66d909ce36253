-- ===== src/Tzsp/RoundTrip.antt =====
-- An encoder of TZSP packets, independent of the decoder, and what the decoder makes of its bytes.
use tzsp_server.Prelude.{
  ℕ, ◌/◌, ◌%◌, ◌≡◌, refl, sym, ap, subst, List, [], ◌∷◌, ◌++◌, Bytes, length, All, arith, ok,
}
use tzsp_server.Tzsp.{Tag, Packet, version, tag_end, decode}
use tzsp_server.Tzsp.Rounds.{IsLong}
use tzsp_server.Tzsp.Grammar.{Tagged, end, long_tag}
use tzsp_server.Tzsp.Decode.{decode_iff}

-- A tag that the format can carry with a length byte.
pub record IsCarried (tag : Tag) : Type 0 where
  pub long_type : IsLong tag.typ
  pub len_is : tag.len ≡ length tag.content

unfoldable pub encode_tags : List Tag → Bytes → Bytes
encode_tags [] encap = tag_end ∷ encap
encode_tags (tag ∷ tags) encap = tag.typ ∷ tag.len ∷ (tag.content ++ encode_tags tags encap)

unfoldable pub encode : Packet → Bytes
unfolding encode_tags
encode p =
    p.version ∷ p.typ ∷ (p.protocol / 256) ∷ p.protocol % 256 ∷ encode_tags p.tags p.encap_packet

encode_tags-Tagged :
    (tags : List Tag) (encap : Bytes)
    → All IsCarried tags
    → Tagged (encode_tags tags encap) tags encap
unfolding encode_tags
encode_tags-Tagged [] encap h = end refl
encode_tags-Tagged (tag ∷ tags) encap h =
    subst
      (λ (n : ℕ).
        Tagged (tag.typ ∷ n ∷ (tag.content ++ encode_tags tags encap))
          ((record { typ = tag.typ; len = n; content = tag.content }) ∷ tags) encap)
      (sym h.0.len_is)
      (long_tag tag.typ tag.content h.0.long_type refl (encode_tags-Tagged tags encap h.1))

-- A version 1 packet whose tags have a length byte that is right is encoded to bytes from which `Decode`
-- gives the packet back, with its tags in order and its encapsulated packet.
pub decode-encode :
    (p : Packet)
    → p.version ≡ version
    → All IsCarried p.tags
    → decode (encode p) p.source_addr p.received_time ≡ ok p
unfolding encode
decode-encode p v h = (decode_iff (encode p) p.source_addr p.received_time p).1 (record {
  high = p.protocol / 256;
  low = p.protocol % 256;
  body = encode_tags p.tags p.encap_packet;
  layout =
      ap
        (λ (n : ℕ).
          n ∷ p.typ ∷ (p.protocol / 256) ∷ p.protocol % 256 ∷ encode_tags p.tags p.encap_packet)
        v;
  version_is = v;
  protocol_is = omega arith;
  tagged = encode_tags-Tagged p.tags p.encap_packet h;
  time_is = refl;
  source_is = refl;
})
