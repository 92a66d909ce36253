-- ===== src/Net/Parse.antt =====
-- `net.ParseIP`, as `netip.ParseAddr` parses; an address with a zone is refused.
use tzsp_server.Prelude.{
  ℕ, zero, suc, ◌+◌, ◌-◌, ◌*◌, ◌/◌, ◌%◌, Bool, false, not, ◌&&◌, Option, none, some, [], ◌∷◌, ◌++◌,
  Bytes, length, take, drop, replicate, ltb, leb, ◌==◌, if◌then◌else◌,
}

abbrev pub digit? : ℕ → Bool
digit? c = leb 48 c && leb c 57

-- `parseIPv4Fields`: `acc` is the field so far and `width` the count of its digits; `out` is what is
-- parsed. A field has no leading zero and is at most 255, and there are four.
unfoldable pub ip4_fields : Bytes → ℕ → ℕ → Bytes → Option Bytes
ip4_fields [] acc width out =
    if width == 0 then none else if length out == 3 then some (out ++ acc ∷ []) else none
ip4_fields (c ∷ s) acc width out =
    let digit = ip4_fields s (acc * 10 + (c - 48)) (width + 1) out in
    let dot = ip4_fields s 0 0 (out ++ acc ∷ []) in
    if digit? c
    then if width == 1 && acc == 0
      then none
      else if ltb 255 (acc * 10 + (c - 48))
      then none
      else digit
    else if c == b'.'
    then if width == 0 then none else if leb 3 (length out) then none else dot
    else none

abbrev hex_value : ℕ → Option ℕ
hex_value c =
    if digit? c
    then some (c - 48)
    else if leb b'a' c && leb c b'f'
    then some (c - 87)
    else if leb b'A' c && leb c b'F'
    then some (c - 55)
    else none

-- A hexadecimal group: its value, its digits and the rest; `none` if it has more than four digits.
hex_field : Bytes → ℕ → ℕ → Option (ℕ × ℕ × Bytes)
hex_field [] acc width = some (acc, width, [])
hex_field (c ∷ s) acc width = elim (hex_value c) [
  | none ↦ some (acc, width, c ∷ s)
  | some v ↦ if ltb 3 width then none else hex_field s (acc * 16 + v) (width + 1)
]

-- The place of `::`, if one was read.
abbrev expand : Bytes → Option ℕ → Option Bytes
expand out none = if length out == 16 then some out else none
expand out (some at) =
    if ltb (length out) 16
    then some (take at out ++ (replicate (16 - length out) 0 ++ drop at out))
    else none

abbrev starts_dot : Bytes → Bool
starts_dot [] = false
starts_dot (c ∷ s) = c == b'.'

-- The trailing IPv4 part of an IPv6 text.
abbrev trailing_ip4 : Bytes → Bytes → Option ℕ → Option Bytes
trailing_ip4 s out ellipsis =
    let fits : Bool = elim ellipsis [
      | none ↦ length out == 12
      | some at ↦ leb (length out + 4) 16
    ] in
    if fits
    then elim (ip4_fields s 0 0 []) [ none ↦ none | some ip ↦ expand (out ++ ip) ellipsis ]
    else none

-- What follows a group: the end, or a colon and more, perhaps a second colon.
abbrev after_group :
    (Bytes → Bytes → Option ℕ → Option Bytes) → Bytes → Bytes → Option ℕ → Option Bytes
after_group more [] out ellipsis = expand out ellipsis
after_group more (c ∷ []) out ellipsis = none
after_group more (c ∷ d ∷ s) out ellipsis =
    if not (c == b':')
    then none
    else if not (d == b':')
    then more (d ∷ s) out ellipsis
    else elim ellipsis [
      | some at ↦ none
      | none ↦ elim s [
        | [] ↦ expand out (some (length out))
        | e ∷ r ↦ more (e ∷ r) out (some (length out))
      ]
    ]

-- The loop of `parseIPv6` over the groups; each round writes two bytes of sixteen.
ip6_groups : ℕ → Bytes → Bytes → Option ℕ → Option Bytes
unfolding hex_field
ip6_groups zero s out ellipsis = none
ip6_groups (suc rounds) s out ellipsis = elim (hex_field s 0 0) [
  | none ↦ none
  | some (acc, width, rest) ↦
      if width == 0
      then none
      else if starts_dot rest
      then trailing_ip4 s out ellipsis
      else after_group (ip6_groups rounds) rest (out ++ (acc / 256) ∷ acc % 256 ∷ []) ellipsis
]

unfoldable pub parse_ip6 : Bytes → Option Bytes
unfolding ip6_groups
parse_ip6 (c ∷ d ∷ s) =
    if c == b':' && d == b':'
    then elim s [ [] ↦ some (replicate 16 0) | e ∷ r ↦ ip6_groups 8 (e ∷ r) [] (some 0) ]
    else ip6_groups 8 (c ∷ d ∷ s) [] none
parse_ip6 s = ip6_groups 8 s [] none

-- The 16-byte form of an IPv4 address.
abbrev pub v4_in_v6 : Bytes → Bytes
v4_in_v6 ip = replicate 10 0 ++ (255 ∷ 255 ∷ ip)

abbrev or_nil : Option Bytes → Bytes
or_nil none = []
or_nil (some ip) = ip

abbrev mapped : Option Bytes → Bytes
mapped none = []
mapped (some ip) = v4_in_v6 ip

-- The first '.', ':' or '%' decides which form the text has; nil, the empty slice, if it has none.
unfoldable pub parse_ip_from : Bytes → Bytes → Bytes
unfolding ip4_fields parse_ip6
parse_ip_from [] whole = []
parse_ip_from (c ∷ s) whole =
    if c == b'.'
    then mapped (ip4_fields whole 0 0 [])
    else if c == b':'
    then or_nil (parse_ip6 whole)
    else if c == b'%'
    then []
    else parse_ip_from s whole

abbrev pub parse_ip : Bytes → Bytes
parse_ip s = parse_ip_from s s
