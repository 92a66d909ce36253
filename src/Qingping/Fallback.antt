-- ===== src/Qingping/Fallback.antt =====
-- A publication whose topic has 47 bytes: its length byte is the byte of '/', so the length prefix is read
-- one byte too early, and the fallback of `extractJSON` finds the topic.
use mathlib.Core.List.{append_assoc}
use tzsp_server.Prelude.{
  ℕ, ◌+◌, ◌-◌, ◌*◌, ◌/◌, ◌%◌, ◌<◌, ◌≡◌, ◌≢◌, refl, sym, ap, ◌∙◌, Bool, true, false, ◌&&◌, none,
  some, [], ◌∷◌, ◌++◌, Bytes, length, length-append, drop, take-length-append, drop-length-append,
  All-append, Bool-cases, inl, inr, ltb, arith, ok, index, index-drop, index-lt, slice, slice_lem,
}
use tzsp_server.Prelude.Separators.{Without}
use tzsp_server.Qingping.{
  ExtractError, index_byte, is_printable, all_printable, prefixed_topic, printable_end, topic_to,
  scanned_topic, or_scanned, find_topic, extract_json,
}
use tzsp_server.Qingping.Search.{index_byte-first}
use tzsp_server.Qingping.Layout.{u16_prefix, publication, payload, start, length-front, found_json}
use tzsp_server.Qingping.Publish.{closed}

-- A printable text that another byte ends.
printable_end-append :
    (i : ℕ) (s : Bytes) (b : ℕ) (r : Bytes)
    → all_printable (length s) s ≡ true
    → is_printable b ≡ false
    → printable_end i (s ++ (b ∷ r)) ≡ some (i + length s)
unfolding printable_end all_printable
printable_end-append i [] b r h k = rw k (ap some (omega arith))
printable_end-append i (c ∷ s) b r h k = elim (Bool-cases (is_printable c)) [
  | inl fine ↦ rw fine (printable_end-append (i + 1) s b r (rw fine at h) k ∙ ap some (omega arith))
  | inr other ↦ absurd (cc (rw other at h))
]

-- No length is read from a byte and a zero byte behind it.
no_length : (x : ℕ) (a b : Bool) → (ltb 0 (x * 256 + 0) && ltb (x * 256 + 0) 256 && a && b) ≡ false
no_length x a b = ground arith

module _ (header topic : Bytes) (b : ℕ) (more : Bytes) (plain : Without b'/' header)
    (some_header : 0 < length header) (is_47 : length topic ≡ b'/')
    (printable : all_printable (length topic) topic ≡ true) (ends : is_printable b ≡ false) where
  abbrev whole : Bytes
  whole = payload header topic (b ∷ more)

  -- The bytes before the length byte that is taken for the slash.
  abbrev low : Bytes
  low = header ++ (0 ∷ [])

  abbrev shown : Bytes
  shown = b'/' ∷ topic

  prefix_is : u16_prefix topic ≡ 0 ∷ b'/' ∷ []
  prefix_is = ap (λ n. (n / 256) ∷ n % 256 ∷ []) is_47

  whole-header : whole ≡ header ++ (0 ∷ (shown ++ (b ∷ more)))
  whole-header = ap (λ p. header ++ (p ++ (topic ++ (b ∷ more)))) prefix_is

  whole-low : whole ≡ low ++ (shown ++ (b ∷ more))
  whole-low = whole-header ∙ sym (append_assoc header (0 ∷ []) (shown ++ (b ∷ more)))

  length-low : length low ≡ length header + 1
  length-low = length-append header (0 ∷ [])

  length-whole : length whole ≡ length low + (length shown + (1 + length more))
  length-whole = omega (
    arith,
    ap length whole-low,
    length-append low (shown ++ (b ∷ more)),
    length-append shown (b ∷ more),
  )

  slash_at : index_byte whole b'/' ≡ some (length low)
  slash_at =
      ap (λ s. index_byte s b'/') whole-low
      ∙ index_byte-first low (topic ++ (b ∷ more)) b'/'
          (All-append (λ x. x ≢ b'/') header (0 ∷ []) plain ((λ (e : 0 ≡ b'/'). omega arith), tt))

  behind_low : drop (length low) whole ≡ shown ++ (b ∷ more)
  behind_low = ap (drop (length low)) whole-low ∙ drop-length-append low (shown ++ (b ∷ more))

  read_lsb : index {E = ExtractError} whole (length low - 1) ≡ ok 0
  read_lsb =
      let e : length low - 1 ≡ length header = omega (arith, length-low) in
      rw e (
        index-drop whole (length header) 0 (shown ++ (b ∷ more)) (
          ap (drop (length header)) whole-header
          ∙ drop-length-append header (0 ∷ (shown ++ (b ∷ more)))))

  not_prefixed : prefixed_topic whole (length low) ≡ ok none
  unfolding prefixed_topic
  not_prefixed =
      let (x, read_msb) =
        index-lt {E = ExtractError} whole (length low - 2) (omega (arith, length-whole)) in
      rw (read_msb, read_lsb, no_length x) refl

  shown-printable : all_printable (length shown) shown ≡ true
  unfolding all_printable
  shown-printable = printable

  end_at : printable_end (length low) (drop (length low) whole) ≡ some (length low + length shown)
  end_at = rw behind_low (printable_end-append (length low) shown b more shown-printable ends)

  cut_shown : slice {E = ExtractError} whole (length low) (length low + length shown) ≡ ok shown
  cut_shown =
      let width : length low + length shown - length low ≡ length shown = omega arith in
      slice_lem whole (length low) (length low + length shown) (omega arith)
        (omega (arith, length-whole))
      ∙ rw (width, behind_low) (ap ok (take-length-append shown (b ∷ more)))

  scanned : scanned_topic whole (length low) ≡ ok (shown, length low + length shown)
  unfolding scanned_topic topic_to
  scanned =
      let longer : ltb (length low) (length low + length shown) ≡ true = ground arith in
      rw (end_at, longer, cut_shown) refl

  start_is : length low + length shown ≡ start header topic (b ∷ more)
  start_is = omega (arith, length-low, length-front header topic (b ∷ more))

  found_topic : find_topic whole (index_byte whole b'/') ≡ ok (shown, start header topic (b ∷ more))
  unfolding find_topic or_scanned
  found_topic =
      let late : ltb (length low) 2 ≡ false = ground (arith, length-low) in
      rw (slash_at, late, not_prefixed, scanned) (ap (λ n. ok (shown, n)) start_is)

-- If the topic of a publication has 47 bytes, all printable, behind a header with no slash that is not
-- empty, and its JSON text is shorter than 8192 bytes and no length byte of it is that of '{', then
-- `extractJSON` returns the JSON text, and the topic with one slash too many in front.
pub extract_json-topic_of_47 :
    (header topic inner : Bytes)
    → Without b'/' header
    → 0 < length header
    → length topic ≡ b'/'
    → all_printable (length topic) topic ≡ true
    → length (closed inner) < 8192
    → Without b'{' (u16_prefix (closed inner))
    → extract_json (publication header topic (u16_prefix (closed inner) ++ closed inner))
      ≡ ok (closed inner, b'/' ∷ topic)
unfolding extract_json
extract_json-topic_of_47 header topic inner plain some_header is_47 printable short clean =
    let json = closed inner in
    let ends : is_printable (length json / 256) ≡ false = ground arith in
    let topic_at =
      found_topic header topic (length json / 256) (length json % 256 ∷ json) plain some_header
        is_47 printable ends in
    let json_at =
      found_json header topic (u16_prefix json ++ json) (u16_prefix json) json inner refl clean refl
        (b'/' ∷ topic) in
    rw (topic_at, json_at) refl
