-- ===== src/Server/Timestamp.antt =====
-- The timestamp under which a frame goes to the outputs.
use tzsp_server.Prelude.{
  ℕ, ◌*◌, ◌^◌, ◌<◌, ◌≡◌, refl, ap, ◌∙◌, some, ◌++◌, Bytes, length, ltb, arith, false,
}
use tzsp_server.Prelude.Int.{wrap_i64, wrap_i64-fits}
use tzsp_server.Tzsp.{
  Tag, Packet, tag_timestamp, unix_seconds, get_tag, get_timestamp, timestamp_of,
}
use tzsp_server.Netflow.{u32_bytes}
use tzsp_server.Server.{packet_time}

seconds_fit : (n : ℕ) → n < 2 ^ 32 → wrap_i64 (unix_seconds n) ≡ unix_seconds n
seconds_fit n h = wrap_i64-fits (n * 10 ^ 9) (omega arith)

timestamp_carried :
    (tag : Tag) (n : ℕ) (more : Bytes)
    → tag.content ≡ u32_bytes n ++ more
    → n < 2 ^ 32
    → timestamp_of (some tag) ≡ some (unix_seconds n)
unfolding timestamp_of
timestamp_carried tag n more c h =
    let long : ltb (length (u32_bytes n ++ more)) 4 ≡ false = ground arith in
    simp (c, long) (ap (λ (k : ℕ). some (unix_seconds k)) (omega arith))

packet_time_tagged :
    (pkt : Packet) (tag : Tag) (n : ℕ) (more : Bytes)
    → get_tag pkt tag_timestamp ≡ some tag
    → tag.content ≡ u32_bytes n ++ more
    → n < 2 ^ 32
    → packet_time pkt ≡ unix_seconds n
unfolding packet_time get_timestamp
packet_time_tagged pkt tag n more e c h = rw (e, timestamp_carried tag n more c h) refl

-- If the first timestamp tag of a packet carries the seconds `n`, a 32-bit number, big-endian in its
-- first four bytes, then the packet's time is `n` seconds after the epoch, whatever time it was
-- received; and its nanoseconds, which the packet decoder is given, are exact in 64 bits.
pub packet_time-unix_seconds :
    (pkt : Packet) (tag : Tag) (n : ℕ) (more : Bytes)
    → get_tag pkt tag_timestamp ≡ some tag
    → tag.content ≡ u32_bytes n ++ more
    → n < 2 ^ 32
    → (packet_time pkt ≡ unix_seconds n) × (wrap_i64 (packet_time pkt) ≡ unix_seconds n)
packet_time-unix_seconds pkt tag n more e c h =
    let t = packet_time_tagged pkt tag n more e c h in (t, ap wrap_i64 t ∙ seconds_fit n h)
