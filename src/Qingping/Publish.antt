-- ===== src/Qingping/Publish.antt =====
-- A frame that carries an MQTT publication: some bytes with no slash, the topic behind its length, and
-- the JSON text behind its length, as the comment of `extractJSON` lays it out.
use tzsp_server.Prelude.{
  ℕ, suc, ◌+◌, ◌-◌, ◌*◌, ◌/◌, ◌%◌, ◌<◌, ◌≡◌, ◌≢◌, refl, ap, ◌∙◌, Bool, true, false, ◌&&◌, some, [],
  ◌∷◌, ◌++◌, Bytes, length, drop, take-length-append, get_elem?-drop, All-append, ltb, lt→ltb,
  arith, ok, index, index-drop, slice, slice_lem,
}
use tzsp_server.Prelude.Separators.{Without}
use tzsp_server.Qingping.{
  ExtractError, index_byte, is_printable, all_printable, prefixed_topic, find_topic, extract_json,
}
use tzsp_server.Qingping.Layout.{
  u16_prefix, publication, payload, front, start, regroup, length-front, length-payload,
  behind_front, at_msb, found_json,
}
use tzsp_server.Qingping.Search.{index_byte-first}

-- A topic that its length prefix finds: it starts with the slash, is printable and short.
pub record IsTopic (topic : Bytes) : Type 0 where
  pub rest : Bytes
  pub slash : topic ≡ b'/' ∷ rest
  pub short : length topic < 256
  -- The length byte is not itself taken for the slash.
  pub not_slash : length topic ≢ b'/'
  pub printable : all_printable (length topic) topic ≡ true

all_printable-append :
    (s r : Bytes) → all_printable (length s) (s ++ r) ≡ all_printable (length s) s
unfolding all_printable
all_printable-append [] r = refl
all_printable-append (b ∷ s) r = ap (λ (x : Bool). is_printable b && x) (all_printable-append s r)

module _ (header topic body : Bytes) (plain : Without b'/' header) (t : IsTopic topic)
    (h : 0 < length body) where
  abbrev whole : Bytes
  whole = payload header topic body

  abbrev until_topic : Bytes
  until_topic = front header topic body

  abbrev behind : ℕ
  behind = start header topic body

  front-plain : Without b'/' until_topic
  front-plain =
      All-append (λ b. b ≢ b'/') header (u16_prefix topic) plain
        ((λ e. omega (arith, t.short)), ((λ e. t.not_slash (omega (arith, t.short))), tt))

  slash_at : index_byte whole b'/' ≡ some (length until_topic)
  slash_at =
      ap (λ (s : Bytes). index_byte s b'/')
        ((regroup header topic body) ∙ ap (λ (x : Bytes). until_topic ++ (x ++ body)) t.slash)
      ∙ index_byte-first until_topic (t.rest ++ body) b'/' front-plain

  read_msb : index {E = ExtractError} whole (length until_topic - 2) ≡ ok (length topic / 256)
  read_msb =
      let e : length until_topic - 2 ≡ length header =
        omega (arith, (length-front header topic body)) in
      rw e (index-drop whole (length header) _ _ (at_msb header topic body))

  read_lsb : index {E = ExtractError} whole (length until_topic - 1) ≡ ok (length topic % 256)
  read_lsb =
      let e : length until_topic - 1 ≡ suc (length header) =
        omega (arith, (length-front header topic body)) in
      rw e (
        index-drop whole (suc (length header)) _ _
          (get_elem?-drop whole (length header) (at_msb header topic body)).1)

  topic-length : length topic / 256 * 256 + length topic % 256 ≡ length topic
  topic-length = omega arith

  not_empty : ltb 0 (length topic) ≡ true
  not_empty = lt→ltb 0 (length topic) (omega (arith, ap length t.slash))

  room : ltb behind (length whole) ≡ true
  room = lt→ltb behind (length whole) (omega (arith, (length-payload header topic body)))

  topic-printable : all_printable (length topic) (drop (length until_topic) whole) ≡ true
  topic-printable =
      rw (behind_front header topic body) (all_printable-append topic body ∙ t.printable)

  cut_topic : slice {E = ExtractError} whole (length until_topic) behind ≡ ok topic
  cut_topic =
      let width : behind - length until_topic ≡ length topic = omega arith in
      slice_lem whole (length until_topic) behind (omega arith)
        (omega (arith, (length-payload header topic body)))
      ∙ rw (width, (behind_front header topic body)) (ap ok (take-length-append topic body))

  read_topic : prefixed_topic whole (length until_topic) ≡ ok (some (topic, behind))
  unfolding prefixed_topic
  read_topic =
      rw
        (
          read_msb,
          read_lsb,
          topic-length,
          not_empty,
          lt→ltb (length topic) 256 t.short,
          room,
          topic-printable,
          cut_topic,
        )
        refl

  found_topic : find_topic whole (index_byte whole b'/') ≡ ok (topic, behind)
  unfolding find_topic
  found_topic =
      let late : ltb (length until_topic) 2 ≡ false =
        ground (arith, (length-front header topic body)) in
      rw (slash_at, find_topic, late, read_topic) refl

  extract_behind :
      (junk json inner : Bytes)
      → body ≡ junk ++ json
      → Without b'{' junk
      → json ≡ b'{' ∷ (inner ++ b'}' ∷ [])
      → extract_json whole ≡ ok (json, topic)
  unfolding extract_json
  extract_behind junk json inner split clean shape =
      rw (found_topic, found_json header topic body junk json inner split clean shape topic) refl

abbrev pub closed : Bytes → Bytes
closed inner = b'{' ∷ (inner ++ b'}' ∷ [])

closed-length : (inner : Bytes) → 0 < length (closed inner)
closed-length inner = omega arith

-- From a frame that is some bytes with no slash, a topic behind its length, and a JSON text behind its
-- length, to the end of the frame, `extractJSON` returns the topic and the text, exactly, if the topic
-- starts with a slash, is printable, has fewer than 256 bytes and not 47 (the byte of '/'), and the
-- text, from '{' to '}', has no length byte that is 123 (that of '{').
pub extract_json-publication :
    (header topic inner : Bytes)
    → Without b'/' header
    → IsTopic topic
    → Without b'{' (u16_prefix (closed inner))
    → extract_json (publication header topic (u16_prefix (closed inner) ++ closed inner))
      ≡ ok (closed inner, topic)
extract_json-publication header topic inner plain t clean =
    extract_behind header topic (u16_prefix (closed inner) ++ closed inner) plain t (omega arith)
      (u16_prefix (closed inner)) (closed inner) inner refl clean refl

-- From such a frame (some bytes with no slash, a topic behind its length, and a text from '{' to '}'
-- behind its length, to the end of the frame), where the topic starts with a slash, is printable, and
-- has fewer than 256 bytes and not 47: if the low byte of the text's length is 123, the byte of '{', and
-- the high byte is not, then the length byte is taken for the start of the JSON text and is returned in
-- front of it.
pub extract_json-length_byte :
    (header topic inner : Bytes)
    → Without b'/' header
    → IsTopic topic
    → length (closed inner) % 256 ≡ b'{'
    → length (closed inner) / 256 ≢ b'{'
    → extract_json (publication header topic (u16_prefix (closed inner) ++ closed inner))
      ≡ ok (b'{' ∷ closed inner, topic)
extract_json-length_byte header topic inner plain t low high =
    extract_behind header topic (u16_prefix (closed inner) ++ closed inner) plain t (omega arith)
      ((length (closed inner) / 256) ∷ []) (b'{' ∷ closed inner) (b'{' ∷ inner)
      (ap (λ (b : ℕ). (length (closed inner) / 256) ∷ b ∷ closed inner) low) (high, tt) refl
