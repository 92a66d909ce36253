-- ===== src/Tzsp/Decode.antt =====
-- `Decode` as a whole: it returns on every input, accepts exactly the packets of the grammar with a
-- version 1 header, and reports the first tag that does not fit.
use tzsp_server.Prelude.{
  ℕ, suc, ◌+◌, ◌*◌, ◌≤◌, ◌<◌, ◌≡◌, ◌≢◌, ◌↔◌, refl, sym, ap, subst, ◌∙◌, true, false, List, [], ◌∷◌,
  Bytes, length, drop, drop-length, ltb, leb, ◌==◌, ==_iff, arith, Bool-cases, inl, inr, Result, ok,
  err, slice_to_end, Returns,
}
use tzsp_server.Tzsp.{
  Tag, Packet, Time, DecodeError, too_short, unsupported_version, incomplete_tag,
  tag_exceeds_packet, version, tag_loop, remainder, decode,
}
use tzsp_server.Tzsp.Grammar.{Tagged, Behind}
use tzsp_server.Tzsp.Rounds.{IsLong}
use tzsp_server.Tzsp.Accepts.{
  Verdict, accepted, cut_short, overrun, loop-Verdict, tag_loop_complete,
}

remainder_lem : (bytes : Bytes) (o : ℕ) → remainder bytes o ≡ ok (drop o bytes)
unfolding remainder
remainder_lem bytes o = elim (Bool-cases (ltb o (length bytes))) [
  | inl inner ↦ rw inner (slice_to_end bytes o (ground arith))
  | inr outer ↦ rw outer (ap ok (sym (drop-length o bytes (ground arith))))
]

-- The bytes of `p`: a version 1 header, then tags and an encapsulated packet by the grammar.
pub record Decodes (bytes source_addr : Bytes) (now : Time) (p : Packet) : Type 0 where
  pub high : ℕ
  pub low : ℕ
  pub body : Bytes
  pub layout : bytes ≡ version ∷ p.typ ∷ high ∷ low ∷ body
  pub version_is : p.version ≡ version
  pub protocol_is : p.protocol ≡ high * 256 + low
  pub tagged : Tagged body p.tags p.encap_packet
  pub time_is : p.received_time ≡ now
  pub source_is : p.source_addr ≡ source_addr

abbrev built : ℕ → ℕ → ℕ → List Tag → Bytes → Time → Bytes → Packet
built typ high low tags encap now source_addr = record {
  version = version;
  typ = typ;
  protocol = high * 256 + low;
  tags = tags;
  encap_packet = encap;
  received_time = now;
  source_addr = source_addr;
}

long_enough : (n : ℕ) → ltb (suc (suc (suc (suc n)))) 4 ≡ false
long_enough n = ground arith

four_fit : (n : ℕ) → leb 4 (suc (suc (suc (suc n)))) ≡ true
four_fit n = ground arith

module _ (typ high low : ℕ) (body source_addr : Bytes) (now : Time) where
  abbrev whole : Bytes
  whole = version ∷ typ ∷ high ∷ low ∷ body

  decode_ok :
      (o : ℕ) (tags : List Tag)
      → tag_loop (length whole) whole 4 [] ≡ ok (o, tags)
      → decode whole source_addr now ≡ ok (built typ high low tags (drop o whole) now source_addr)
  unfolding decode
  decode_ok o tags e = rw (long_enough (length body), four_fit (length body), e, remainder_lem)

  decode_err :
      (why : DecodeError)
      → tag_loop (length whole) whole 4 [] ≡ err why
      → decode whole source_addr now ≡ err why
  unfolding decode
  decode_err why e = rw (long_enough (length body), four_fit (length body), e)

  verdict : Verdict whole 4 [] (tag_loop (length whole) whole 4 [])
  verdict = loop-Verdict whole (length whole) 4 [] (omega arith)

-- The answers of `Decode`, each with the inputs that get it.
pub data Answer (bytes source_addr : Bytes) (now : Time) (r : Result DecodeError Packet)
    : Type 0 where
  short : length bytes < 4 → r ≡ err (too_short (length bytes)) → Answer bytes source_addr now r
  other_version :
      (v : ℕ) (rest : Bytes)
      → 4 ≤ length bytes
      → bytes ≡ v ∷ rest
      → v ≢ version
      → r ≡ err (unsupported_version v)
      → Answer bytes source_addr now r
  packet :
      (p : Packet) → Decodes bytes source_addr now p → r ≡ ok p → Answer bytes source_addr now r
  bad_last :
      (typ high low : ℕ) (body : Bytes) (n t : ℕ)
      → bytes ≡ version ∷ typ ∷ high ∷ low ∷ body
      → Behind body n (t ∷ [])
      → IsLong t
      → r ≡ err (incomplete_tag (4 + n))
      → Answer bytes source_addr now r
  bad_length :
      (typ high low : ℕ) (body : Bytes) (n t len : ℕ) (rest : Bytes)
      → bytes ≡ version ∷ typ ∷ high ∷ low ∷ body
      → Behind body n (t ∷ len ∷ rest)
      → IsLong t
      → length rest < len
      → r ≡ err tag_exceeds_packet
      → Answer bytes source_addr now r

decode_short :
    (bytes source_addr : Bytes) (now : Time)
    → length bytes < 4
    → decode bytes source_addr now ≡ err (too_short (length bytes))
unfolding decode
decode_short bytes source_addr now h = let e : ltb (length bytes) 4 ≡ true = ground arith in rw e

decode_version :
    (v typ high low : ℕ) (body source_addr : Bytes) (now : Time)
    → (v == version) ≡ false
    → decode (v ∷ typ ∷ high ∷ low ∷ body) source_addr now ≡ err (unsupported_version v)
unfolding decode
decode_version v typ high low body source_addr now h =
    rw (long_enough (length body), four_fit (length body), h)

answer_version1 :
    (typ high low : ℕ) (body source_addr : Bytes) (now : Time)
    → Answer
        (version ∷ typ ∷ high ∷ low ∷ body)
        source_addr
        now
        (decode (version ∷ typ ∷ high ∷ low ∷ body) source_addr now)
answer_version1 typ high low body source_addr now =
    elim (verdict typ high low body source_addr now) [
      | accepted o ts e tagged ↦
          packet (built typ high low ts _ now source_addr)
            (record {
              high = high;
              low = low;
              body = body;
              layout = refl;
              version_is = refl;
              protocol_is = refl;
              tagged = tagged;
              time_is = refl;
              source_is = refl;
            })
            (decode_ok typ high low body source_addr now o ts e)
      | cut_short o n t e l at d ↦ bad_last typ high low body n t refl d l (
          decode_err typ high low body source_addr now (incomplete_tag o) e
          ∙ ap (λ (k : ℕ). err (incomplete_tag k)) at)
      | overrun n t len rest e l d h ↦
          bad_length typ high low body n t len rest refl d l h
            (decode_err typ high low body source_addr now tag_exceeds_packet e)
    ]

-- On every input `Decode` gives one of its five answers, and each answer tells what the input is:
-- shorter than four bytes; of another version; a packet of the grammar; or, of version 1, with whole
-- tags behind the header and then a bad one, which is the last byte, at the reported offset, or has a
-- length past the end.
pub decode_answers :
    (bytes source_addr : Bytes) (now : Time)
    → Answer bytes source_addr now (decode bytes source_addr now)
decode_answers (v ∷ typ ∷ high ∷ low ∷ body) source_addr now = elim (Bool-cases (v == version)) [
  | inl same ↦
      let e : version ≡ v = sym ((==_iff v version).0 same) in
      rw e at (answer_version1 typ high low body source_addr now)
  | inr other ↦
      other_version v (typ ∷ high ∷ low ∷ body) (omega arith) refl (ground arith)
        (decode_version v typ high low body source_addr now other)
]
decode_answers [] source_addr now =
    short (omega arith) (decode_short [] source_addr now (omega arith))
decode_answers (a ∷ []) source_addr now =
    short (omega arith) (decode_short (a ∷ []) source_addr now (omega arith))
decode_answers (a ∷ b ∷ []) source_addr now =
    short (omega arith) (decode_short (a ∷ b ∷ []) source_addr now (omega arith))
decode_answers (a ∷ b ∷ c ∷ []) source_addr now =
    short (omega arith) (decode_short (a ∷ b ∷ c ∷ []) source_addr now (omega arith))

-- `Decode` never indexes or slices out of range, and its loop ends.
pub decode-Returns :
    (bytes source_addr : Bytes) (now : Time) → Returns (decode bytes source_addr now)
decode-Returns bytes source_addr now = elim (decode_answers bytes source_addr now) [
  | short h e ↦ rw e ((λ q. cc), (λ q. cc))
  | other_version v rest h l n e ↦ rw e ((λ q. cc), (λ q. cc))
  | packet p d e ↦ rw e ((λ q. cc), (λ q. cc))
  | bad_last typ high low body n t l d k e ↦ rw e ((λ q. cc), (λ q. cc))
  | bad_length typ high low body n t len rest l d k h e ↦ rw e ((λ q. cc), (λ q. cc))
]

Decodes-decode :
    (bytes source_addr : Bytes) (now : Time) (p : Packet)
    → decode bytes source_addr now ≡ ok p
    → Decodes bytes source_addr now p
Decodes-decode bytes source_addr now p r = elim (decode_answers bytes source_addr now) [
  | short h e ↦ absurd (cc (r, e))
  | other_version v rest h l n e ↦ absurd (cc (r, e))
  | packet q d e ↦ subst (Decodes bytes source_addr now) (cc (r, e)) d
  | bad_last typ high low body n t l d k e ↦ absurd (cc (r, e))
  | bad_length typ high low body n t len rest l d k h e ↦ absurd (cc (r, e))
]

decode-Decodes :
    (bytes source_addr : Bytes) (now : Time) (p : Packet)
    → Decodes bytes source_addr now p
    → decode bytes source_addr now ≡ ok p
decode-Decodes bytes source_addr now p d =
    let w = whole p.typ d.high d.low d.body source_addr now in
    let (o, run, at) = tag_loop_complete w (length w) 4 [] d.tagged refl (omega arith) in
    rw d.layout (
      decode_ok p.typ d.high d.low d.body source_addr now o p.tags run
      ∙ rw at (ap ok (ground arith)))

-- `Decode` succeeds with packet `p` exactly when the bytes are a version 1 header followed by the
-- tags and the encapsulated packet of `p`, by the grammar.
pub decode_iff :
    (bytes source_addr : Bytes) (now : Time) (p : Packet)
    → (decode bytes source_addr now ≡ ok p) ↔ Decodes bytes source_addr now p
decode_iff bytes source_addr now p =
    (Decodes-decode bytes source_addr now p, decode-Decodes bytes source_addr now p)
