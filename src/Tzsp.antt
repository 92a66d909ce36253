-- ===== src/Tzsp.antt =====
-- internal/tzsp/decoder.go: the TZSP packet, its decoder and the accessors of its tags.
-- A slice is a list of bytes; the decoder copies what it keeps, so no aliasing is modelled.
pub mod Grammar
pub mod Rounds
pub mod Accepts
pub mod Decode
pub mod Accessors
pub mod RoundTrip
mod Tests
use tzsp_server.Prelude.{
  ℕ, zero, suc, ◌+◌, ◌-◌, ◌*◌, ◌^◌, Bool, true, false, Option, none, some, List, [], ◌∷◌, ◌++◌,
  Bytes, length, take, drop, ltb, ◌==◌, leb, not, if◌then◌else◌, Result, ok, err, panic, stuck,
  ◌>>=◌, index, slice,
}
use tzsp_server.Prelude.Int.{ℤ, pos, negsuc}
use tzsp_server.Prelude.Text.{codes}
use tzsp_server.Prelude.Decimal.{decimal}

-- The constants of the protocol that the decoder and the accessors use.
abbrev pub version : ℕ
version = 1

abbrev pub tag_pad : ℕ
tag_pad = 0

abbrev pub tag_end : ℕ
tag_end = 1

abbrev pub tag_raw_rssi : ℕ
tag_raw_rssi = 10

abbrev pub tag_timestamp : ℕ
tag_timestamp = 13

-- `time.Time` as the nanoseconds since the Unix epoch.
abbrev pub Time : Type 0
Time = ℤ

-- `time.Unix(sec, 0)` of a count of seconds that is not negative.
abbrev pub unix_seconds : ℕ → Time
unix_seconds sec = pos (sec * 10 ^ 9)

pub record Tag : Type 0 where
  pub typ : ℕ
  pub len : ℕ
  pub content : Bytes

pub record Packet : Type 0 where
  pub version : ℕ
  pub typ : ℕ
  pub protocol : ℕ
  pub tags : List Tag
  pub encap_packet : Bytes
  pub received_time : Time
  pub source_addr : Bytes

-- The errors of `Decode`, with the values that their messages print.
pub data DecodeError : Type 0 where
  too_short : ℕ → DecodeError
  unsupported_version : ℕ → DecodeError
  incomplete_tag : ℕ → DecodeError
  tag_exceeds_packet : DecodeError

-- `binary.BigEndian.Uint16` and `Uint32`; they panic on a shorter slice.
abbrev pub be_u16 : {E : Type 0} → Bytes → Result E ℕ
be_u16 (a ∷ b ∷ _) = ok (a * 256 + b)
be_u16 _ = panic

abbrev pub be_u32 : {E : Type 0} → Bytes → Result E ℕ
be_u32 (a ∷ b ∷ c ∷ d ∷ _) = ok (((a * 256 + b) * 256 + c) * 256 + d)
be_u32 _ = panic

-- How a round of the tag loop ends: the loop's variables, after `break` or `continue`.
pub data Round : Type 0 where
  break_at : ℕ → List Tag → Round
  continue_at : ℕ → List Tag → Round

-- The body of `for offset < len(data)`, from a tag's length byte on.
pub long_tag : Bytes → ℕ → ℕ → List Tag → Result DecodeError Round
unfolding index slice
long_tag bytes tag_type offset tags =
    if leb (length bytes) offset then err (incomplete_tag (offset - 1)) else (do
      tag_len ← index bytes offset
      if ltb (length bytes) (offset + 1 + tag_len) then err tag_exceeds_packet else (do
        tag_data ← slice bytes (offset + 1) (offset + 1 + tag_len)
        ok (
            continue_at (offset + 1 + tag_len)
              (tags ++ (record { typ = tag_type; len = tag_len; content = tag_data }) ∷ []))))

-- The body of `for offset < len(data)`.
unfoldable pub tag_round : Bytes → ℕ → List Tag → Result DecodeError Round
unfolding long_tag index
tag_round bytes offset tags = do
  tag_type ← index bytes offset
  if tag_type == tag_end
      then ok (break_at (offset + 1) tags)
      else if tag_type == tag_pad
      then ok (continue_at (offset + 1) tags)
      else long_tag bytes tag_type (offset + 1) tags

-- The tag loop on fuel: each round moves `offset` by one at least.
unfoldable pub tag_loop : ℕ → Bytes → ℕ → List Tag → Result DecodeError (ℕ × List Tag)
tag_loop zero bytes offset tags = stuck
tag_loop (suc fuel) bytes offset tags = elim (ltb offset (length bytes)) [
  | false ↦ ok (offset, tags)
  | true ↦ tag_round bytes offset tags >>= λ r. elim r [
    | break_at o ts ↦ ok (o, ts)
    | continue_at o ts ↦ tag_loop fuel bytes o ts
  ]
]

-- The remaining bytes, from `offset` on.
unfoldable pub remainder : Bytes → ℕ → Result DecodeError Bytes
remainder bytes offset =
    if ltb offset (length bytes) then slice bytes offset (length bytes) else ok []

-- `Decode`: `received_time` is what `time.Now()` returns.
unfoldable pub decode : Bytes → Bytes → Time → Result DecodeError Packet
unfolding index slice
decode bytes source_addr received_time =
    if ltb (length bytes) 4 then err (too_short (length bytes)) else (do
      packet_version ← index bytes 0
      packet_type ← index bytes 1
      protocol_bytes ← slice bytes 2 4
      protocol ← be_u16 protocol_bytes
      if not (packet_version == version) then err (unsupported_version packet_version) else (do
        (offset, tags) ← tag_loop (length bytes) bytes 4 []
        encap ← remainder bytes offset
        ok (record {
          version = packet_version;
          typ = packet_type;
          protocol = protocol;
          tags = tags;
          encap_packet = encap;
          received_time = received_time;
          source_addr = source_addr;
        })))

-- The loop of `GetTag` over the tags.
unfoldable pub find_tag : ℕ → List Tag → Option Tag
find_tag tag_type [] = none
find_tag tag_type (t ∷ ts) = if t.typ == tag_type then some t else find_tag tag_type ts

abbrev pub get_tag : Packet → ℕ → Option Tag
get_tag p tag_type = find_tag tag_type p.tags

-- A result that is nil if the tag is missing or short. `binary.BigEndian.Uint32` cannot panic
-- behind the length test, so that case is not reached.
unfoldable pub timestamp_of : Option Tag → Option Time
timestamp_of none = none
timestamp_of (some tag) =
    if ltb (length tag.content) 4
    then none
    else elim (be_u32 {E = DecodeError} tag.content) [ ok ts ↦ some (unix_seconds ts) | _ ↦ none ]

unfoldable pub get_timestamp : Packet → Option Time
unfolding timestamp_of
get_timestamp p = timestamp_of (get_tag p tag_timestamp)

-- `int8(b)`
abbrev pub to_i8 : ℕ → ℤ
to_i8 b = if ltb b 128 then pos b else negsuc (255 - b)

rssi_of_bytes : Bytes → Option ℤ
rssi_of_bytes [] = none
rssi_of_bytes (b ∷ _) = some (to_i8 b)

rssi_of : Option Tag → Option ℤ
unfolding rssi_of_bytes
rssi_of none = none
rssi_of (some tag) = rssi_of_bytes tag.content

unfoldable pub get_rssi : Packet → Option ℤ
unfolding rssi_of
get_rssi p = rssi_of (get_tag p tag_raw_rssi)

unfoldable pub protocol_name : Packet → Bytes
protocol_name p =
    if p.protocol == 1
    then codes "Ethernet"
    else if p.protocol == 2
    then codes "802.11"
    else if p.protocol == 3
    then codes "Prism"
    else if p.protocol == 18
    then codes "IEEE 802.11 + RadioTap"
    else codes "Unknown(" ++ (decimal p.protocol ++ codes ")")
