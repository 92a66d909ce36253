-- ===== src/Netflow/Datagram.antt =====
-- An independent reader of NetFlow v5 finds the flow in the datagram.
use tzsp_server.Prelude.{
  ℕ, zero, suc, ◌+◌, ◌*◌, ◌^◌, ◌<◌, ◌≡◌, refl, sym, ap, ◌∙◌, ◌⊎◌, inl, inr, [], ◌∷◌, Bytes, length,
  take, drop, length-drop, arith,
}
use tzsp_server.Prelude.Int.{to_u32, to_u32-lt}
use tzsp_server.Net.{to4}
use tzsp_server.Netflow.{Flow, Moment, unix, datagram}

abbrev pub byte_at : Bytes → ℕ → ℕ
byte_at [] i = 0
byte_at (b ∷ d) zero = b
byte_at (b ∷ d) (suc i) = byte_at d i

abbrev pub u16_at : Bytes → ℕ → ℕ
u16_at d i = byte_at d i * 256 + byte_at d (i + 1)

abbrev pub u32_at : Bytes → ℕ → ℕ
u32_at d i = u16_at d i * 65536 + u16_at d (i + 2)

four_bytes : (s : Bytes) → length s ≡ 4 → (a b c d : ℕ) × (s ≡ a ∷ b ∷ c ∷ d ∷ [])
four_bytes (a ∷ b ∷ c ∷ d ∷ []) h = (a, b, c, d, refl)
four_bytes [] h = absurd (omega arith)
four_bytes (a ∷ []) h = absurd (omega arith)
four_bytes (a ∷ b ∷ []) h = absurd (omega arith)
four_bytes (a ∷ b ∷ c ∷ []) h = absurd (omega arith)
four_bytes (a ∷ b ∷ c ∷ d ∷ e ∷ s) h = absurd (omega arith)

to4_shape : (ip : Bytes) → (to4 ip ≡ []) ⊎ (length (to4 ip) ≡ 4)
unfolding to4
to4_shape ip = ground (arith, length-drop 12 ip)

-- What the code finds of the two addresses of a flow: each is an IPv4 address or not.
pub data Shapes (src dst : Bytes) : Type 0 where
  neither : to4 src ≡ [] → to4 dst ≡ [] → Shapes src dst
  only_src : (a b c d : ℕ) → to4 src ≡ a ∷ b ∷ c ∷ d ∷ [] → to4 dst ≡ [] → Shapes src dst
  only_dst : (a b c d : ℕ) → to4 src ≡ [] → to4 dst ≡ a ∷ b ∷ c ∷ d ∷ [] → Shapes src dst
  both :
      (a b c d p q r s : ℕ)
      → to4 src ≡ a ∷ b ∷ c ∷ d ∷ []
      → to4 dst ≡ p ∷ q ∷ r ∷ s ∷ []
      → Shapes src dst

pub shapes : (src dst : Bytes) → Shapes src dst
shapes src dst = elim (to4_shape src) [
  | inl e ↦ elim (to4_shape dst) [
    | inl f ↦ neither e f
    | inr n ↦ let (a, b, c, d, f) = four_bytes (to4 dst) n in only_dst a b c d e f
  ]
  | inr m ↦
      let (a, b, c, d, e) = four_bytes (to4 src) m in
      elim (to4_shape dst) [
        | inl f ↦ only_src a b c d e f
        | inr n ↦ let (p, q, r, s, f) = four_bytes (to4 dst) n in both a b c d p q r s e f
      ]
]

-- The numbers of a flow fit their fields in Go: uint16, uint32 and uint8.
pub record FitsFields (flow : Flow) : Type 0 where
  pub src_port_fits : flow.src_port < 2 ^ 16
  pub dst_port_fits : flow.dst_port < 2 ^ 16
  pub packets_fit : flow.packets < 2 ^ 32
  pub bytes_fit : flow.bytes < 2 ^ 32

-- What a reader of NetFlow v5 finds in a datagram `d`, by the offsets of the format.
pub record Reads (sequence : ℕ) (flow : Flow) (d : Bytes) : Type 0 where
  pub size : length d ≡ 72
  pub version_is : u16_at d 0 ≡ 5
  pub count_is : u16_at d 2 ≡ 1
  pub sequence_is : u32_at d 16 ≡ sequence
  pub packets_are : u32_at d 40 ≡ flow.packets
  pub bytes_are : u32_at d 44 ≡ flow.bytes
  pub first_is : u32_at d 48 ≡ to_u32 (unix flow.first_seen)
  pub last_is : u32_at d 52 ≡ to_u32 (unix flow.last_seen)
  pub src_port_is : u16_at d 56 ≡ flow.src_port
  pub dst_port_is : u16_at d 58 ≡ flow.dst_port
  pub tcp_flags_are : byte_at d 61 ≡ flow.tcp_flags
  pub protocol_is : byte_at d 62 ≡ flow.protocol

-- An address as the format shows it: an IPv4 address, and zeros for any other.
abbrev pub shown : Bytes → Bytes
shown [] = 0 ∷ 0 ∷ 0 ∷ 0 ∷ []
shown (b ∷ ip) = b ∷ ip

module _ (now : Moment) (sequence : ℕ) (flow : Flow) (few : sequence < 2 ^ 32)
    (fits : FitsFields flow) where
  abbrev first_lt : to_u32 (unix flow.first_seen) < 2 ^ 32
  first_lt = to_u32-lt (unix flow.first_seen)

  abbrev last_lt : to_u32 (unix flow.last_seen) < 2 ^ 32
  last_lt = to_u32-lt (unix flow.last_seen)

  -- The datagram for each shape of the two addresses.
  Reads-none :
      to4 flow.src_ip ≡ [] → to4 flow.dst_ip ≡ [] → Reads sequence flow (datagram now sequence flow)
  unfolding datagram
  Reads-none e f = rw (e, f) (omega (arith, first_lt, last_lt))

  Reads-src :
      (a b c d : ℕ)
      → to4 flow.src_ip ≡ a ∷ b ∷ c ∷ d ∷ []
      → to4 flow.dst_ip ≡ []
      → Reads sequence flow (datagram now sequence flow)
  unfolding datagram
  Reads-src a b c d e f = rw (e, f) (omega (arith, first_lt, last_lt))

  Reads-dst :
      (a b c d : ℕ)
      → to4 flow.src_ip ≡ []
      → to4 flow.dst_ip ≡ a ∷ b ∷ c ∷ d ∷ []
      → Reads sequence flow (datagram now sequence flow)
  unfolding datagram
  Reads-dst a b c d e f = rw (e, f) (omega (arith, first_lt, last_lt))

  Reads-both :
      (a b c d p q r s : ℕ)
      → to4 flow.src_ip ≡ a ∷ b ∷ c ∷ d ∷ []
      → to4 flow.dst_ip ≡ p ∷ q ∷ r ∷ s ∷ []
      → Reads sequence flow (datagram now sequence flow)
  unfolding datagram
  Reads-both a b c d p q r s e f = rw (e, f) (omega (arith, first_lt, last_lt))

module _ (now : Moment) (sequence : ℕ) (flow : Flow) where
  src_none : to4 flow.src_ip ≡ [] → take 4 (drop 24 (datagram now sequence flow)) ≡ shown []
  unfolding datagram
  src_none e = rw e refl

  src_some :
      (a b c d : ℕ)
      → to4 flow.src_ip ≡ a ∷ b ∷ c ∷ d ∷ []
      → take 4 (drop 24 (datagram now sequence flow)) ≡ a ∷ b ∷ c ∷ d ∷ []
  unfolding datagram
  src_some a b c d e = rw e refl

  dst_none_none :
      to4 flow.src_ip ≡ []
      → to4 flow.dst_ip ≡ []
      → take 4 (drop 28 (datagram now sequence flow)) ≡ shown []
  unfolding datagram
  dst_none_none e f = rw (e, f) refl

  dst_none_some :
      (p q r s : ℕ)
      → to4 flow.src_ip ≡ []
      → to4 flow.dst_ip ≡ p ∷ q ∷ r ∷ s ∷ []
      → take 4 (drop 28 (datagram now sequence flow)) ≡ p ∷ q ∷ r ∷ s ∷ []
  unfolding datagram
  dst_none_some p q r s e f = rw (e, f) refl

  dst_some_none :
      (a b c d : ℕ)
      → to4 flow.src_ip ≡ a ∷ b ∷ c ∷ d ∷ []
      → to4 flow.dst_ip ≡ []
      → take 4 (drop 28 (datagram now sequence flow)) ≡ shown []
  unfolding datagram
  dst_some_none a b c d e f = rw (e, f) refl

  dst_some_some :
      (a b c d p q r s : ℕ)
      → to4 flow.src_ip ≡ a ∷ b ∷ c ∷ d ∷ []
      → to4 flow.dst_ip ≡ p ∷ q ∷ r ∷ s ∷ []
      → take 4 (drop 28 (datagram now sequence flow)) ≡ p ∷ q ∷ r ∷ s ∷ []
  unfolding datagram
  dst_some_some a b c d p q r s e f = rw (e, f) refl

-- The addresses of the datagram, whatever its numbers.
pub datagram_shows :
    (now : Moment) (sequence : ℕ) (flow : Flow)
    → (take 4 (drop 24 (datagram now sequence flow)) ≡ shown (to4 flow.src_ip))
      × (take 4 (drop 28 (datagram now sequence flow)) ≡ shown (to4 flow.dst_ip))
datagram_shows now sequence flow = elim (shapes flow.src_ip flow.dst_ip) [
  | neither e f ↦ (
    src_none now sequence flow e ∙ ap shown (sym e),
    dst_none_none now sequence flow e f ∙ ap shown (sym f),
  )
  | only_dst p q r s e f ↦ (
    src_none now sequence flow e ∙ ap shown (sym e),
    dst_none_some now sequence flow p q r s e f ∙ ap shown (sym f),
  )
  | only_src a b c d e f ↦ (
    src_some now sequence flow a b c d e ∙ ap shown (sym e),
    dst_some_none now sequence flow a b c d e f ∙ ap shown (sym f),
  )
  | both a b c d p q r s e f ↦ (
    src_some now sequence flow a b c d e ∙ ap shown (sym e),
    dst_some_some now sequence flow a b c d p q r s e f ∙ ap shown (sym f),
  )
]

numbers-Reads :
    (now : Moment) (sequence : ℕ) (flow : Flow)
    → sequence < 2 ^ 32
    → FitsFields flow
    → Reads sequence flow (datagram now sequence flow)
numbers-Reads now sequence flow few fits = elim (shapes flow.src_ip flow.dst_ip) [
  | neither e f ↦ Reads-none now sequence flow few fits e f
  | only_dst p q r s e f ↦ Reads-dst now sequence flow few fits p q r s e f
  | only_src a b c d e f ↦ Reads-src now sequence flow few fits a b c d e f
  | both a b c d p q r s e f ↦ Reads-both now sequence flow few fits a b c d p q r s e f
]

-- Where the numbers of a flow fit their fields, the datagram is 72 bytes long, and at the places of the
-- NetFlow v5 format it has version 5, one record, the sequence number, and the addresses, ports, counts,
-- TCP flags and protocol of the flow; an address that is not IPv4 is shown as zeros. At the places of
-- First and Last it has the flow's times in Unix seconds, not in the milliseconds of the exporter's
-- uptime that the format has there.
pub datagram-Reads :
    (now : Moment) (sequence : ℕ) (flow : Flow)
    → sequence < 2 ^ 32
    → FitsFields flow
    → Reads sequence flow (datagram now sequence flow)
      × (take 4 (drop 24 (datagram now sequence flow)) ≡ shown (to4 flow.src_ip))
      × (take 4 (drop 28 (datagram now sequence flow)) ≡ shown (to4 flow.dst_ip))
datagram-Reads now sequence flow few fits =
    let (src_shown, dst_shown) = datagram_shows now sequence flow in
    (numbers-Reads now sequence flow few fits, src_shown, dst_shown)
