-- ===== src/Tzsp/Rounds.antt =====
-- One round of the tag loop, by what the bytes from `offset` on look like.
use tzsp_server.Prelude.{
  ℕ, suc, ◌+◌, ◌-◌, ◌≤◌, ◌<◌, ◌≡◌, ◌≢◌, refl, sym, ap, ◌∙◌, inl, inr, false, some, List, [], ◌∷◌,
  ◌++◌, Bytes, length, get_elem?, take, drop, length-append, length-take, length-drop,
  take-append-drop, take-length-append, drop-length-append, get_elem?-drop, drop-drop, ltb, ◌==◌,
  ==_iff, arith, ok, err, Bool-cases,
}
use tzsp_server.Tzsp.{
  Tag, incomplete_tag, tag_exceeds_packet, break_at, continue_at, tag_end, tag_pad, long_tag,
  tag_round,
}

-- The tag types with a length byte.
pub record IsLong (t : ℕ) : Type 0 where
  pub not_end : t ≢ tag_end
  pub not_pad : t ≢ tag_pad

abbrev pub long : ℕ → Bytes → Tag
long t content = record { typ = t; len = length content; content = content }

-- The ways in which the unread bytes may start.
pub data View (src : Bytes) : Type 0 where
  at_nothing : src ≡ [] → View src
  at_end : (rest : Bytes) → src ≡ tag_end ∷ rest → View src
  at_pad : (rest : Bytes) → src ≡ tag_pad ∷ rest → View src
  at_last : (t : ℕ) → IsLong t → src ≡ t ∷ [] → View src
  at_overrun :
      (t len : ℕ) (rest : Bytes) → IsLong t → src ≡ t ∷ len ∷ rest → length rest < len → View src
  at_long :
      (t : ℕ) (content rest : Bytes)
      → IsLong t
      → src ≡ t ∷ length content ∷ (content ++ rest)
      → View src

View-long : (t : ℕ) (src : Bytes) → IsLong t → View (t ∷ src)
View-long t [] h = at_last t h refl
View-long t (len ∷ rest) h = elim (Bool-cases (ltb (length rest) len)) [
  | inl short ↦ at_overrun t len rest h refl (ground arith)
  | inr fits ↦
      let e : length (take len rest) ≡ len = omega (arith, length-take len rest, not-ltb fits) in
      at_long t (take len rest) (drop len rest) h (
        ap (λ bs. t ∷ len ∷ bs) (sym (take-append-drop len rest))
        ∙ ap (λ k. t ∷ k ∷ (take len rest ++ drop len rest)) (sym e))
]
  where
    not-ltb : ltb (length rest) len ≡ false → len ≤ length rest
    not-ltb e = ground arith

pub view : (src : Bytes) → View src
view [] = at_nothing refl
view (t ∷ src) = elim (Bool-cases (t == tag_end)) [
  | inl e ↦ at_end src (ap (λ k. k ∷ src) ((==_iff t tag_end).0 e))
  | inr ne ↦ elim (Bool-cases (t == tag_pad)) [
    | inl e ↦ at_pad src (ap (λ k. k ∷ src) ((==_iff t tag_pad).0 e))
    | inr np ↦ View-long t src (ground arith)
  ]
]

module _ (bytes : Bytes) (offset : ℕ) (tags : List Tag) where
  pub round_end :
      (rest : Bytes)
      → drop offset bytes ≡ tag_end ∷ rest
      → tag_round bytes offset tags ≡ ok (break_at (offset + 1) tags)
  unfolding tag_round
  round_end rest e = ground (arith, (get_elem?-drop bytes offset e).0)

  pub round_pad :
      (rest : Bytes)
      → drop offset bytes ≡ tag_pad ∷ rest
      → tag_round bytes offset tags ≡ ok (continue_at (offset + 1) tags)
  unfolding tag_round
  round_pad rest e = ground (arith, (get_elem?-drop bytes offset e).0)

  to_long_tag :
      (t : ℕ) (rest : Bytes)
      → IsLong t
      → drop offset bytes ≡ t ∷ rest
      → tag_round bytes offset tags ≡ long_tag bytes t (offset + 1) tags
  unfolding tag_round
  to_long_tag t rest h e = ground (arith, (get_elem?-drop bytes offset e).0)

  pub round_last :
      (t : ℕ)
      → IsLong t
      → drop offset bytes ≡ t ∷ []
      → tag_round bytes offset tags ≡ err (incomplete_tag offset)
  round_last t h e = to_long_tag t [] h e ∙ unfold long_tag in ground (arith, ends, back)
    where
      ends : length bytes ≤ offset + 1
      ends = omega (arith, length-drop offset bytes, ap length e)

      back : offset + 1 - 1 ≡ offset
      back = omega arith

  -- The suffix behind the tag's type byte, and the length byte that it starts with.
  second :
      {t len : ℕ} {rest : Bytes}
      → drop offset bytes ≡ t ∷ len ∷ rest
      → (get_elem? bytes (offset + 1) ≡ some len) × (drop (offset + 1 + 1) bytes ≡ rest)
  second {t} {len} {rest} e =
      let p : suc offset ≡ offset + 1 = omega arith in
      let q : suc (offset + 1) ≡ offset + 1 + 1 = omega arith in
      let tail : drop (offset + 1) bytes ≡ len ∷ rest =
        rw p at ((get_elem?-drop bytes offset e).1) in
      let (read, beyond) = get_elem?-drop bytes (offset + 1) tail in (read, rw q at beyond)

  pub round_overrun :
      (t len : ℕ) (rest : Bytes)
      → IsLong t
      → drop offset bytes ≡ t ∷ len ∷ rest
      → length rest < len
      → tag_round bytes offset tags ≡ err tag_exceeds_packet
  round_overrun t len rest h e short =
      to_long_tag t (len ∷ rest) h e ∙ unfold long_tag in ground (arith, size, (second e).0)
    where
      size : length bytes ≡ offset + 2 + length rest
      size = omega (arith, length-drop offset bytes, ap length e)

  pub round_long :
      (t : ℕ) (content rest : Bytes)
      → IsLong t
      → drop offset bytes ≡ t ∷ length content ∷ (content ++ rest)
      → tag_round bytes offset tags
        ≡ ok (continue_at (offset + 1 + 1 + length content) (tags ++ long t content ∷ []))
  round_long t content rest h e =
      to_long_tag t (length content ∷ (content ++ rest)) h e
      ∙ unfold long_tag in ground (arith, size, (second e).0, cut)
    where
      size : length bytes ≡ offset + 2 + (length content + length rest)
      size = omega (arith, length-drop offset bytes, ap length e, length-append content rest)

      width : offset + 1 + 1 + length content - (offset + 1 + 1) ≡ length content
      width = omega arith

      cut :
          take (offset + 1 + 1 + length content - (offset + 1 + 1)) (drop (offset + 1 + 1) bytes)
          ≡ content
      cut = rw (width, (second e).1) (take-length-append content rest)

  -- Where the loop goes on after such a tag.
  pub drop_long :
      (t : ℕ) (content rest : Bytes)
      → drop offset bytes ≡ t ∷ length content ∷ (content ++ rest)
      → drop (offset + 1 + 1 + length content) bytes ≡ rest
  drop_long t content rest e =
      sym (drop-drop (length content) (offset + 1 + 1) bytes)
      ∙ rw (second e).1 (drop-length-append content rest)
