-- ===== src/Net/RoundTrip.antt =====
-- An IPv4 address that is printed and parsed again.
use tzsp_server.Prelude.{
  ℕ, ◌+◌, ◌-◌, ◌*◌, ◌/◌, ◌%◌, ◌≤◌, ◌<◌, ◌≡◌, refl, sym, ap, ◌∙◌, true, false, ◌&&◌, Option, some,
  [], ◌∷◌, ◌++◌, append-nil, Bytes, length, All, ltb, leb, ◌==◌, ltb→lt, arith, Bool-cases, inl,
  inr,
}
use tzsp_server.Prelude.Text.{text_eq}
use tzsp_server.Prelude.Decimal.{decimal, decimal_step, decimal_digit, decimal-IsDigit, IsDigit}
use tzsp_server.Net.{dotted, to4, ip_string}
use tzsp_server.Net.Parse.{ip4_fields, parse_ip, parse_ip_from, v4_in_v6}

decimal_two : (a : ℕ) → 10 ≤ a → a < 100 → decimal a ≡ (48 + a / 10) ∷ (48 + a % 10) ∷ []
decimal_two a h k =
    decimal_step a h
    ∙ ap (λ (s : Bytes). s ++ (48 + a % 10) ∷ []) (decimal_digit (a / 10) (omega arith))

decimal_three :
    (a : ℕ)
    → 100 ≤ a
    → a < 1000
    → decimal a ≡ (48 + a / 10 / 10) ∷ (48 + a / 10 % 10) ∷ (48 + a % 10) ∷ []
decimal_three a h k =
    decimal_step a (omega arith)
    ∙ ap (λ (s : Bytes). s ++ (48 + a % 10) ∷ []) (decimal_two (a / 10) (omega arith) (omega arith))

module _ (out : Bytes) where
  -- One digit, for the values that the field and its width come to.
  digit_step :
      (s : Bytes) (d acc width acc' width' : ℕ)
      → d < 10
      → (width == 1 && acc == 0) ≡ false
      → acc * 10 + d ≡ acc'
      → width + 1 ≡ width'
      → acc' < 256
      → ip4_fields ((48 + d) ∷ s) acc width out ≡ ip4_fields s acc' width' out
  unfolding ip4_fields
  digit_step s d acc width acc' width' h lead value wide fits =
      let digit : (leb 48 (48 + d) && leb (48 + d) 57) ≡ true = ground arith in
      let is_value : acc * 10 + (48 + d - 48) ≡ acc' = omega arith in
      let small : ltb 255 acc' ≡ false = ground arith in
      rw (digit, lead, is_value, wide, small) refl

  dot_step :
      (s : Bytes) (acc width : ℕ)
      → (width == 0) ≡ false
      → length out < 3
      → ip4_fields (b'.' ∷ s) acc width out ≡ ip4_fields s 0 0 (out ++ acc ∷ [])
  unfolding ip4_fields
  dot_step s acc width some_digit h =
      let room : leb 3 (length out) ≡ false = ground arith in rw (some_digit, room) refl

  last_step :
      (acc width : ℕ)
      → (width == 0) ≡ false
      → length out ≡ 3
      → ip4_fields [] acc width out ≡ some (out ++ acc ∷ [])
  unfolding ip4_fields
  last_step acc width some_digit h = rw (some_digit, h) refl

  -- The digits of a byte are one field.
  Field : Bytes → ℕ → Type 0
  Field s a =
      (width : ℕ) × ((width == 0) ≡ false)
      × (ip4_fields (decimal a ++ s) 0 0 out ≡ ip4_fields s a width out)

  abbrev from_digits : Bytes → Bytes → Option Bytes
  from_digits s t = ip4_fields (t ++ s) 0 0 out

  field : (s : Bytes) (a : ℕ) → a < 256 → Field s a
  unfolding Field
  field s a h = elim (Bool-cases (ltb a 10)) [
    | inl one ↦ (
      1,
      refl,
      ap (from_digits s) (decimal_digit a (ltb→lt a 10 one))
          ∙ digit_step s a 0 0 a 1 (ltb→lt a 10 one) refl (omega arith) refl h,
    )
    | inr more ↦ elim (Bool-cases (ltb a 100)) [
      | inl two ↦ (
        2,
        refl,
        ap (from_digits s) (decimal_two a (ground arith) (ltb→lt a 100 two))
            ∙ digit_step ((48 + a % 10) ∷ s) (a / 10) 0 0 (a / 10) 1 (ground arith) refl
                (omega arith) refl (omega arith)
            ∙ digit_step s (a % 10) (a / 10) 1 a 2 (omega arith) (ground arith) (omega arith) refl
                h,
      )
      | inr three ↦ (
        3,
        refl,
        ap (from_digits s) (decimal_three a (ground arith) (omega arith))
            ∙ digit_step ((48 + a / 10 % 10) ∷ (48 + a % 10) ∷ s) (a / 10 / 10) 0 0 (a / 10 / 10) 1
                (omega arith) refl (omega arith) refl (omega arith)
            ∙ digit_step ((48 + a % 10) ∷ s) (a / 10 % 10) (a / 10 / 10) 1 (a / 10) 2 (omega arith)
                (ground arith) (omega arith) refl (omega arith)
            ∙ digit_step s (a % 10) (a / 10) 2 a 3 (omega arith) refl (omega arith) refl h,
      )
    ]
  ]

  -- A byte and the dot behind it.
  field_dot :
      (s : Bytes) (a : ℕ)
      → a < 256
      → length out < 3
      → ip4_fields (decimal a ++ b'.' ∷ s) 0 0 out ≡ ip4_fields s 0 0 (out ++ a ∷ [])
  unfolding Field
  field_dot s a h room =
      let (width, some_digit, e) = field (b'.' ∷ s) a h in e ∙ dot_step s a width some_digit room

module _ (a b c d : ℕ) (ha : a < 256) (hb : b < 256) (hc : c < 256) (hd : d < 256) where
  four_fields : ip4_fields (dotted a b c d) 0 0 [] ≡ some (a ∷ b ∷ c ∷ d ∷ [])
  unfolding dotted Field
  four_fields =
      let tail_c = decimal c ++ b'.' ∷ decimal d in
      let tail_b = decimal b ++ b'.' ∷ tail_c in
      let (width, some_digit, e) = field (a ∷ b ∷ c ∷ []) [] d hd in
      field_dot [] tail_b a ha (omega arith)
      ∙ field_dot (a ∷ []) tail_c b hb (omega arith)
      ∙ field_dot (a ∷ b ∷ []) (decimal d) c hc (omega arith)
      ∙ ap (λ (s : Bytes). ip4_fields s 0 0 (a ∷ b ∷ c ∷ [])) (sym (append-nil (decimal d)))
      ∙ e
      ∙ last_step (a ∷ b ∷ c ∷ []) d width some_digit refl

  -- The first dot of the text is found behind its first digits.
  first_dot :
      (digits s whole : Bytes)
      → All IsDigit digits
      → parse_ip_from (digits ++ b'.' ∷ s) whole ≡ parse_ip_from (b'.' ∷ s) whole
  unfolding parse_ip_from
  first_dot [] s whole h = refl
  first_dot (x ∷ digits) s whole h =
      let no_dot : (x == b'.') ≡ false = ground (arith, h.0) in
      let no_colon : (x == b':') ≡ false = ground (arith, h.0) in
      let no_percent : (x == b'%') ≡ false = ground (arith, h.0) in
      rw (no_dot, no_colon, no_percent) (first_dot digits s whole h.1)

  parse_ip-dotted : parse_ip (dotted a b c d) ≡ v4_in_v6 (a ∷ b ∷ c ∷ d ∷ [])
  unfolding parse_ip_from dotted
  parse_ip-dotted =
      first_dot (decimal a) (decimal b ++ b'.' ∷ (decimal c ++ b'.' ∷ decimal d)) (dotted a b c d)
        (decimal-IsDigit a)
      ∙ rw four_fields refl

  ip_string-dotted : ip_string (a ∷ b ∷ c ∷ d ∷ []) ≡ dotted a b c d
  unfolding ip_string to4
  ip_string-dotted = refl

  -- An IPv4 address that `IP.String` prints is the address that `ParseIP` reads and `To4` shortens.
  pub to4-parse_ip : to4 (parse_ip (ip_string (a ∷ b ∷ c ∷ d ∷ []))) ≡ a ∷ b ∷ c ∷ d ∷ []
  unfolding to4 text_eq
  to4-parse_ip = rw (ip_string-dotted, parse_ip-dotted) refl
