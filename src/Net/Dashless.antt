-- ===== src/Net/Dashless.antt =====
-- The text of an address has no dash.
use tzsp_server.Prelude.{
  ℕ, ◌+◌, ◌/◌, ◌%◌, ◌≢◌, true, false, List, [], ◌∷◌, ◌++◌, Bytes, length, drop, All, All-append,
  ltb, ◌==◌, arith, Bool, if◌then◌else◌,
}
use tzsp_server.Prelude.Text.{codes}
use tzsp_server.Prelude.Separators.{Without}
use tzsp_server.Prelude.Decimal.{decimal, decimal-IsDigit, IsDigit}
use tzsp_server.Net.{
  hex_digit, hex_byte, hex_group, colon_groups, take_groups, longest_run, groups, ip6_string,
  hex_string, dotted, to4, ip_string_by, ip_string,
}

abbrev Plain : Bytes → Type 0
Plain = Without b'-'

append-Plain : (s r : Bytes) → Plain s → Plain r → Plain (s ++ r)
append-Plain = All-append (λ b. b ≢ b'-')

digits-Plain : (s : Bytes) → All IsDigit s → Plain s
digits-Plain [] d = tt
digits-Plain (x ∷ s) d = (ground arith, digits-Plain s d.1)

decimal-Plain : (n : ℕ) → Plain (decimal n)
decimal-Plain n = digits-Plain (decimal n) (decimal-IsDigit n)

hex_digit-ne : (n : ℕ) → hex_digit n ≢ b'-'
hex_digit-ne n = ground arith

hex_byte-Plain : (b : ℕ) → Plain (hex_byte b)
hex_byte-Plain b = (hex_digit-ne (b / 16), (hex_digit-ne (b % 16), tt))

if-Plain : (s r : Bytes) (b : Bool) → Plain s → Plain r → Plain (if b then s else r)
if-Plain s r true h k = h
if-Plain s r false h k = k

hex_group-Plain : (g : ℕ) → Plain (hex_group g)
unfolding hex_group
hex_group-Plain g =
    if-Plain _ _ (ltb g 16) (hex_digit-ne g, tt)
      (if-Plain _ _ (ltb g 256) (hex_byte-Plain g) (
        if-Plain _ _ (ltb g 4096) (hex_digit-ne (g / 256), hex_byte-Plain (g % 256))
          (append-Plain (hex_byte (g / 256)) (hex_byte (g % 256)) (hex_byte-Plain (g / 256))
            (hex_byte-Plain (g % 256)))))

colon_groups-Plain : (gs : List ℕ) → Plain (colon_groups gs)
unfolding colon_groups
colon_groups-Plain [] = tt
colon_groups-Plain (g ∷ []) = hex_group-Plain g
colon_groups-Plain (g ∷ h ∷ gs) =
    append-Plain (hex_group g) (b':' ∷ colon_groups (h ∷ gs)) (hex_group-Plain g)
      (ground arith, colon_groups-Plain (h ∷ gs))

ip6_string-Plain : (ip : Bytes) → Plain (ip6_string ip)
unfolding ip6_string
ip6_string-Plain ip =
    let (start, width) = longest_run 0 (groups ip) (0, 0) in
    if-Plain _ _ (ltb width 2) (colon_groups-Plain (groups ip)) (
      append-Plain (colon_groups (take_groups start (groups ip)))
        (b':' ∷ b':' ∷ colon_groups (drop (start + width) (groups ip)))
        (colon_groups-Plain (take_groups start (groups ip)))
        (ground arith, (ground arith, colon_groups-Plain (drop (start + width) (groups ip)))))

hex_string-Plain : (ip : Bytes) → Plain (hex_string ip)
unfolding hex_string
hex_string-Plain [] = tt
hex_string-Plain (b ∷ ip) =
    append-Plain (hex_byte b) (hex_string ip) (hex_byte-Plain b) (hex_string-Plain ip)

dotted-Plain : (a b c d : ℕ) → Plain (dotted a b c d)
unfolding dotted
dotted-Plain a b c d = append-Plain (decimal a) _ (decimal-Plain a) (
  ground arith,
  append-Plain (decimal b) _ (decimal-Plain b)
      (ground arith, append-Plain (decimal c) _ (decimal-Plain c) (ground arith, decimal-Plain d)),
)

other_string-Plain :
    (ip : Bytes)
    → Plain (
        if length ip == 16
        then ip6_string ip
        else if length ip == 0
        then codes "<nil>"
        else codes "?" ++ hex_string ip)
other_string-Plain ip = if-Plain _ _ (length ip == 16) (ip6_string-Plain ip) (
    if-Plain _ _ (length ip == 0) (ground arith)
      (append-Plain (codes "?") (hex_string ip) (ground arith) (hex_string-Plain ip)))

ip_string_by-Plain : (short ip : Bytes) → Plain (ip_string_by short ip)
unfolding ip_string_by
ip_string_by-Plain [] ip = other_string-Plain ip
ip_string_by-Plain (a ∷ []) ip = other_string-Plain ip
ip_string_by-Plain (a ∷ b ∷ []) ip = other_string-Plain ip
ip_string_by-Plain (a ∷ b ∷ c ∷ []) ip = other_string-Plain ip
ip_string_by-Plain (a ∷ b ∷ c ∷ d ∷ []) ip = dotted-Plain a b c d
ip_string_by-Plain (a ∷ b ∷ c ∷ d ∷ e ∷ s) ip = other_string-Plain ip

pub ip_string-Without : (ip : Bytes) → Without b'-' (ip_string ip)
unfolding ip_string
ip_string-Without ip = ip_string_by-Plain (to4 ip) ip
