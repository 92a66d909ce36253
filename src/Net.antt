-- ===== src/Net.antt =====
-- What the program uses of Go's `net` package: `IP.String`, `ParseIP`, `IP.To4` and
-- `HardwareAddr.String`. Addresses are byte slices.
pub mod Parse
pub mod RoundTrip
pub mod Dashless
use tzsp_server.Prelude.{
  ℕ, zero, suc, ◌+◌, ◌-◌, ◌*◌, ◌/◌, ◌%◌, Bool, true, false, ◌&&◌, List, [], ◌∷◌, ◌++◌, Bytes,
  length, take, drop, ltb, leb, ◌==◌, if◌then◌else◌,
}
use tzsp_server.Prelude.Text.{codes, text_eq}
use tzsp_server.Prelude.Decimal.{decimal}

abbrev pub hex_digit : ℕ → ℕ
hex_digit n = if ltb n 10 then 48 + n else 87 + n

abbrev pub hex_byte : ℕ → Bytes
hex_byte b = hex_digit (b / 16) ∷ hex_digit (b % 16) ∷ []

-- A 16-bit group in hexadecimal, with no leading zeros.
unfoldable pub hex_group : ℕ → Bytes
hex_group n =
    if ltb n 16
    then hex_digit n ∷ []
    else if ltb n 256
    then hex_byte n
    else if ltb n 4096
    then hex_digit (n / 256) ∷ hex_byte (n % 256)
    else hex_byte (n / 256) ++ hex_byte (n % 256)

unfoldable pub mac_string : Bytes → Bytes
mac_string [] = []
mac_string (b ∷ []) = hex_byte b
mac_string (b ∷ c ∷ mac) = hex_byte b ++ (b':' ∷ mac_string (c ∷ mac))

unfoldable pub dotted : ℕ → ℕ → ℕ → ℕ → Bytes
dotted a b c d = decimal a ++ (b'.' ∷ (decimal b ++ (b'.' ∷ (decimal c ++ (b'.' ∷ decimal d)))))

-- The 16-bit groups of an address.
abbrev groups : Bytes → List ℕ
groups (a ∷ b ∷ ip) = (a * 256 + b) ∷ groups ip
groups _ = []

-- The length of the run of zero groups at the head.
zero_run : List ℕ → ℕ
zero_run [] = 0
zero_run (g ∷ gs) = if g == 0 then 1 + zero_run gs else 0

-- The longest run of zero groups, the first of such: its start and length. Shorter than two is none.
pub longest_run : ℕ → List ℕ → ℕ × ℕ → ℕ × ℕ
unfolding zero_run
longest_run i [] best = best
longest_run i (g ∷ gs) (start, width) =
    let run = zero_run (g ∷ gs) in
    longest_run (i + 1) gs (if leb 2 run && ltb width run then (i, run) else (start, width))

colon_groups : List ℕ → Bytes
unfolding hex_group
colon_groups [] = []
colon_groups (g ∷ []) = hex_group g
colon_groups (g ∷ h ∷ gs) = hex_group g ++ (b':' ∷ colon_groups (h ∷ gs))

take_groups : ℕ → List ℕ → List ℕ
take_groups zero gs = []
take_groups (suc n) [] = []
take_groups (suc n) (g ∷ gs) = g ∷ take_groups n gs

pub ip6_string : Bytes → Bytes
unfolding longest_run colon_groups take_groups
ip6_string ip =
    let gs = groups ip in
    let (start, width) = longest_run 0 gs (0, 0) in
    if ltb width 2
    then colon_groups gs
    else colon_groups (take_groups start gs)
      ++ (b':' ∷ b':' ∷ colon_groups (drop (start + width) gs))

-- The prefix of an IPv4 address in its 16-byte form.
abbrev pub v4_prefix : Bytes
v4_prefix = 0 ∷ 0 ∷ 0 ∷ 0 ∷ 0 ∷ 0 ∷ 0 ∷ 0 ∷ 0 ∷ 0 ∷ 255 ∷ 255 ∷ []

-- `IP.To4`: nil, the empty slice, for what is no IPv4 address.
unfoldable pub to4 : Bytes → Bytes
to4 ip =
    if length ip == 4
    then ip
    else if length ip == 16 && text_eq (take 12 ip) v4_prefix
    then drop 12 ip
    else []

hex_string : Bytes → Bytes
hex_string [] = []
hex_string (b ∷ ip) = hex_byte b ++ hex_string ip

ip_string_by : Bytes → Bytes → Bytes
unfolding ip6_string hex_string dotted
ip_string_by (a ∷ b ∷ c ∷ d ∷ []) ip = dotted a b c d
ip_string_by _ ip =
    if length ip == 16
    then ip6_string ip
    else if length ip == 0
    then codes "<nil>"
    else codes "?" ++ hex_string ip

unfoldable pub ip_string : Bytes → Bytes
unfolding ip_string_by to4 text_eq
ip_string ip = ip_string_by (to4 ip) ip
