-- ===== src/Qingping/Extract.antt =====
-- `extractJSON` on any frame: it never panics, and what it returns is a part of the frame.
use tzsp_server.Prelude.{
  ℕ, suc, ◌+◌, ◌-◌, ◌*◌, ◌≤◌, ◌<◌, ◌≡◌, refl, sym, subst, ap, ◌∙◌, inl, inr, ◌&&◌, Option, none,
  some, [], ◌∷◌, Bytes, length, take, drop, length-drop, drop-drop, ltb, leb, Bool-cases,
  Option-cases, arith, Result, ok, err, index-lt, slice_lem, slice_to_end,
}
use tzsp_server.Qingping.{
  ExtractError, no_json, incomplete_json, Topic, index_byte, last_index_byte, all_printable,
  printable_end, prefixed_topic, scanned_topic, or_scanned, find_topic, json_range, json_from,
  cut_json, extract_json,
}
use native.Mathlib.Nat.{add_comm}
use tzsp_server.Qingping.Search.{
  Without-drop, Without-later, index_byte-drop, index_byte-Without, index_byte-before,
  last_index_byte-drop, last_index_byte-Without,
}
use tzsp_server.Prelude.Separators.{Without}

-- A search start within the frame.
abbrev Within : Bytes → Option Topic → Type 0
Within payload none = Unit
Within payload (some t) = t.1 ≤ length payload

prefixed_topic-Within :
    (payload : Bytes) (s : ℕ)
    → s < length payload
    → (o : Option Topic) × (prefixed_topic payload s ≡ ok o) × Within payload o
unfolding prefixed_topic
prefixed_topic-Within payload s h =
    let (msb, em) = index-lt {E = ExtractError} payload (s - 2) (omega arith) in
    let (lsb, el) = index-lt {E = ExtractError} payload (s - 1) (omega arith) in
    let n = msb * 256 + lsb in
    elim (Bool-cases
      (ltb 0 n && ltb n 256 && ltb (s + n) (length payload) && all_printable n (drop s payload))) [
        | inl fits ↦
            let room : s + n ≤ length payload = ground arith in
            (
              some (take (s + n - s) (drop s payload), s + n),
              rw (em, el, fits, slice_lem payload s (s + n) (omega arith) room) refl,
              room,
            )
        | inr unfit ↦ (none, rw (em, el, unfit) refl, tt)
      ]

printable_end-le :
    (i : ℕ) (s : Bytes) (j : ℕ) → printable_end i s ≡ some j → (i ≤ j) × (j ≤ i + length s)
unfolding printable_end
printable_end-le i [] j h = absurd (cc)
printable_end-le i (b ∷ s) j h = ground (arith, printable_end-le (i + 1) s j)

scanned_topic-Within :
    (payload : Bytes) (s : ℕ)
    → s < length payload
    → (t : Topic) × (scanned_topic payload s ≡ ok t) × (t.1 ≤ length payload)
unfolding scanned_topic
scanned_topic-Within payload s h = elim (Option-cases (printable_end s (drop s payload))) [
  | inl no_end ↦ (([], 0), rw no_end refl, omega arith)
  | inr (e, at) ↦
      let (lo, hi) = printable_end-le s (drop s payload) e at in
      let room : e ≤ length payload = omega (arith, length-drop s payload) in
      elim (Bool-cases (ltb s e)) [
        | inl more ↦ (
          (take (e - s) (drop s payload), e),
          rw (at, more, slice_lem payload s e lo room) refl,
          room,
        )
        | inr empty ↦ (([], 0), rw (at, empty) refl, omega arith)
      ]
]

or_scanned-Within :
    (payload : Bytes) (s : ℕ) (o : Option Topic)
    → s < length payload
    → Within payload o
    → (t : Topic) × (or_scanned payload s o ≡ ok t) × (t.1 ≤ length payload)
unfolding or_scanned
or_scanned-Within payload s none h w = scanned_topic-Within payload s h
or_scanned-Within payload s (some t) h w = (t, refl, w)

find_topic-Within :
    (payload : Bytes) (o : Option ℕ)
    → index_byte payload b'/' ≡ o
    → (t : Topic) × (find_topic payload o ≡ ok t) × (t.1 ≤ length payload)
unfolding find_topic
find_topic-Within payload none h = (([], 0), refl, omega arith)
find_topic-Within payload (some s) h = elim (Bool-cases (ltb s 2)) [
  | inl early ↦ (([], 0), rw early refl, omega arith)
  | inr late ↦
      let inside = (index_byte-drop payload b'/' s h).0 in
      let (o, ep, w) = prefixed_topic-Within payload s inside in
      let (t, eo, w') = or_scanned-Within payload s o inside w in (t, rw (late, ep) eo, w')
]

-- What a JSON text is of the frame: it starts with the first '{' from `search_start` on, and ends with
-- the last '}' of the frame.
pub record IsCut (payload topic json : Bytes) (search_start : ℕ) : Type 0 where
  pub first : ℕ
  pub last : ℕ
  pub behind_topic : search_start ≤ first
  pub inside : (first < last) × (last < length payload)
  pub json_is : json ≡ take (last + 1 - first) (drop first payload)
  pub opens : drop first payload ≡ b'{' ∷ drop (suc first) payload
  pub first_brace : Without b'{' (take (first - search_start) (drop search_start payload))
  pub last_brace : Without b'}' (drop (suc last) payload)
  pub closes : drop last payload ≡ b'}' ∷ drop (suc last) payload

-- The first '{' from `search_start` on has no '}' behind it.
pub record Unclosed (payload : Bytes) (search_start first : ℕ) : Type 0 where
  pub behind_topic : search_start ≤ first
  pub first_brace : Without b'{' (take (first - search_start) (drop search_start payload))
  pub opens : drop first payload ≡ b'{' ∷ drop (suc first) payload
  pub unclosed : Without b'}' (drop first payload)

-- The answers of the search for JSON.
pub data Cut (payload topic : Bytes) (search_start : ℕ) (r : Result ExtractError Bytes)
    : Type 0 where
  found :
      (json : Bytes)
      → r ≡ ok json
      → IsCut payload topic json search_start
      → Cut payload topic search_start r
  nothing :
      r ≡ err (no_json topic)
      → Without b'{' (drop search_start payload)
      → Cut payload topic search_start r
  incomplete :
      (first : ℕ)
      → r ≡ err (incomplete_json topic)
      → Unclosed payload search_start first
      → Cut payload topic search_start r

json_range-Cut :
    (payload topic : Bytes) (search_start first : ℕ) (o : Option ℕ)
    → last_index_byte payload b'}' ≡ o
    → search_start ≤ first
    → drop first payload ≡ b'{' ∷ drop (suc first) payload
    → Without b'{' (take (first - search_start) (drop search_start payload))
    → Cut payload topic search_start (json_range payload topic first o)
unfolding json_range
json_range-Cut payload topic search_start first none e h d f = incomplete first refl (record {
  behind_topic = h;
  first_brace = f;
  opens = d;
  unclosed = Without-drop b'}' first payload (last_index_byte-Without payload b'}' e);
})
json_range-Cut payload topic search_start first (some last) e h d f =
    let (lt, at, after) = last_index_byte-drop payload b'}' last e in
    elim (Bool-cases (leb last first)) [
      | inl crossed ↦ incomplete first (rw crossed refl) (record {
        behind_topic = h;
        first_brace = f;
        opens = d;
        unclosed = rw d (
          (λ q. omega (arith, q)),
          Without-later b'}' (suc last) (suc first) payload (ground arith) after,
        );
      })
      | inr apart ↦
          let ordered : first < last = ground arith in
          found (take (last + 1 - first) (drop first payload))
            (rw apart (slice_lem payload first (last + 1) (omega arith) (omega arith)))
            (record {
              first = first;
              last = last;
              behind_topic = h;
              inside = (ordered, lt);
              json_is = refl;
              opens = d;
              closes = at;
              first_brace = f;
              last_brace = after;
            })
    ]

json_from-Cut :
    (payload topic : Bytes) (search_start : ℕ) (o : Option ℕ)
    → index_byte (drop search_start payload) b'{' ≡ o
    → Cut payload topic search_start (json_from payload topic search_start o)
unfolding json_from
json_from-Cut payload topic search_start none e =
    nothing refl (index_byte-Without (drop search_start payload) b'{' e)
json_from-Cut payload topic search_start (some i) e =
    let (lt, at) = index_byte-drop (drop search_start payload) b'{' i e in
    json_range-Cut payload topic search_start (i + search_start) (last_index_byte payload b'}') refl
      (omega arith)
      (moved i
        ∙ at
        ∙ ap (◌∷◌ b'{') (sym (moved (suc i)) ∙ ap (λ (k : ℕ). drop k payload) (shifted i)))
      (subst (λ (k : ℕ). Without b'{' (take k (drop search_start payload))) (back i)
        (index_byte-before (drop search_start payload) b'{' i e))
  where
    moved : (k : ℕ) → drop (k + search_start) payload ≡ drop k (drop search_start payload)
    moved k =
        ap (λ (n : ℕ). drop n payload) (add_comm k search_start)
        ∙ sym (drop-drop k search_start payload)

    back : (k : ℕ) → k ≡ k + search_start - search_start
    back k = omega arith

    shifted : (k : ℕ) → suc k + search_start ≡ suc (k + search_start)
    shifted k = omega arith

cut_json-Cut :
    (payload topic : Bytes) (search_start : ℕ)
    → search_start ≤ length payload
    → Cut payload topic search_start (cut_json payload topic search_start)
unfolding cut_json
cut_json-Cut payload topic search_start h =
    rw (slice_to_end {E = ExtractError} payload search_start h)
      (json_from-Cut payload topic search_start (index_byte (drop search_start payload) b'{') refl)

-- The answers of `extractJSON`, each with the topic that is returned beside it; the search for the text
-- starts where `find_topic` puts it.
pub data Extraction (payload : Bytes) (r : Result ExtractError (Bytes × Bytes)) : Type 0 where
  extracted :
      (json topic : Bytes) (search_start : ℕ)
      → find_topic payload (index_byte payload b'/') ≡ ok (topic, search_start)
      → IsCut payload topic json search_start
      → r ≡ ok (json, topic)
      → Extraction payload r
  no_opening :
      (topic : Bytes) (search_start : ℕ)
      → find_topic payload (index_byte payload b'/') ≡ ok (topic, search_start)
      → Without b'{' (drop search_start payload)
      → r ≡ err (no_json topic)
      → Extraction payload r
  no_closing :
      (topic : Bytes) (search_start first : ℕ)
      → find_topic payload (index_byte payload b'/') ≡ ok (topic, search_start)
      → Unclosed payload search_start first
      → r ≡ err (incomplete_json topic)
      → Extraction payload r

-- On every frame `extractJSON` returns with no panic, and each answer tells what the frame is, from the
-- place on where the search for the topic ends: the part from the first '{' to the last '}', which
-- stands behind it; or that there is no '{'; or that there is one, and no '}' behind it.
pub extract_json_answers : (payload : Bytes) → Extraction payload (extract_json payload)
unfolding extract_json
extract_json_answers payload =
    let ((topic, start), et, w) = find_topic-Within payload (index_byte payload b'/') refl in
    elim (cut_json-Cut payload topic start w) [
      | found json e cut ↦ extracted json topic start et cut (rw (et, e) refl)
      | nothing e clear ↦ no_opening topic start et clear (rw (et, e) refl)
      | incomplete first e u ↦ no_closing topic start first et u (rw (et, e) refl)
    ]
