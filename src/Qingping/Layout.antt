-- ===== src/Qingping/Layout.antt =====
-- A frame that carries an MQTT publication, as the comment of `extractJSON` lays it out: some bytes, the
-- topic behind its length, and a body; and the JSON text that is cut out behind the topic.
use mathlib.Core.List.{append_assoc}
use native.Mathlib.Nat.{add_comm}
use tzsp_server.Prelude.{
  ℕ, suc, ◌+◌, ◌/◌, ◌%◌, ◌≤◌, ◌≡◌, refl, sym, ap, ◌∙◌, false, some, [], ◌∷◌, ◌++◌, Bytes, length,
  length-append, drop, drop-length-append, drop-drop, leb, arith, ok, slice, slice_to_end,
}
use tzsp_server.Prelude.Separators.{Without}
use tzsp_server.Qingping.{ExtractError, index_byte, last_index_byte, cut_json}
use tzsp_server.Qingping.Search.{index_byte-first, last_index_byte-last}

abbrev pub u16_prefix : Bytes → Bytes
u16_prefix s = (length s / 256) ∷ length s % 256 ∷ []

abbrev pub publication : Bytes → Bytes → Bytes → Bytes
publication header topic body = header ++ (u16_prefix topic ++ (topic ++ body))

module _ (header topic body : Bytes) where
  abbrev pub payload : Bytes
  payload = publication header topic body

  abbrev pub front : Bytes
  front = header ++ u16_prefix topic

  abbrev pub start : ℕ
  start = length front + length topic

  pub regroup : payload ≡ front ++ (topic ++ body)
  regroup = sym (append_assoc header (u16_prefix topic) (topic ++ body))

  pub length-front : length front ≡ length header + 2
  length-front = omega (arith, length-append header (u16_prefix topic))

  pub length-payload : length payload ≡ length front + (length topic + length body)
  length-payload =
      ap length regroup
      ∙ omega (arith, length-append front (topic ++ body), length-append topic body)

  pub behind_front : drop (length front) payload ≡ topic ++ body
  behind_front = ap (drop (length front)) regroup ∙ drop-length-append front (topic ++ body)

  pub behind_topic : drop start payload ≡ body
  behind_topic =
      sym (drop-drop (length topic) (length front) payload)
      ∙ rw behind_front (drop-length-append topic body)

  pub at_msb :
      drop (length header) payload ≡ (length topic / 256) ∷ length topic % 256 ∷ (topic ++ body)
  at_msb = drop-length-append header (u16_prefix topic ++ (topic ++ body))

  module _ (junk json inner : Bytes) (split : body ≡ junk ++ json) (clean : Without b'{' junk)
      (shape : json ≡ b'{' ∷ (inner ++ b'}' ∷ [])) where
    abbrev before : Bytes
    before = front ++ (topic ++ (junk ++ b'{' ∷ inner))

    closes : payload ≡ before ++ b'}' ∷ []
    closes =
        regroup
        ∙ ap (λ (b : Bytes). front ++ (topic ++ b)) (split ∙ ap (λ (j : Bytes). junk ++ j) shape)
        ∙ simp append_assoc

    last_at : last_index_byte payload b'}' ≡ some (length before)
    last_at =
        ap (λ (s : Bytes). last_index_byte s b'}') closes ∙ last_index_byte-last before [] b'}' tt

    length-before : suc (length before) ≡ length payload
    length-before = omega (arith, ap length closes, length-append before (b'}' ∷ []))

    length-json : length json ≡ length inner + 2
    length-json = omega (arith, ap length shape, length-append inner (b'}' ∷ []))

    opens_at : index_byte (drop start payload) b'{' ≡ some (length junk)
    opens_at =
        ap (λ (s : Bytes). index_byte s b'{')
          (behind_topic ∙ split ∙ ap (λ (j : Bytes). junk ++ j) shape)
        ∙ index_byte-first junk (inner ++ b'}' ∷ []) b'{' clean

    at_json : drop (length junk + start) payload ≡ json
    at_json =
        ap (λ (n : ℕ). drop n payload) (add_comm (length junk) start)
        ∙ sym (drop-drop (length junk) start payload)
        ∙ ap (drop (length junk)) (behind_topic ∙ split)
        ∙ drop-length-append junk json

    apart : leb (length before) (length junk + start) ≡ false
    apart = ground (
      arith,
      length-before,
      length-payload,
      length-json,
      ap length split,
      length-append junk json,
    )

    cut_at : slice {E = ExtractError} payload (length junk + start) (length before + 1) ≡ ok json
    cut_at =
        let end : length before + 1 ≡ length payload = omega (arith, length-before) in
        let fits : length junk + start ≤ length payload =
          omega (arith, length-payload, ap length split, length-append junk json) in
        rw end (slice_to_end payload (length junk + start) fits ∙ ap ok at_json)

    pub found_json : (shown : Bytes) → cut_json payload shown start ≡ ok json
    unfolding cut_json
    found_json shown =
        let fits : start ≤ length payload = omega (arith, length-payload) in
        rw (slice_to_end {E = ExtractError} payload start fits, opens_at, last_at, apart, cut_at)
          refl
