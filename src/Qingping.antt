-- ===== src/Qingping.antt =====
-- internal/qingping/exporter.go, lines 78-210: the packet filter and the search for a topic and a JSON
-- text in a frame. The export itself is in the child Export.
pub mod Search
pub mod Matching
pub mod Extract
pub mod Layout
pub mod Publish
pub mod Fallback
pub mod Export
pub mod Outcomes
mod Tests
use tzsp_server.Prelude.{
  ℕ, zero, suc, ◌+◌, ◌-◌, ◌*◌, Bool, true, false, not, ◌&&◌, ◌||◌, Option, none, some, List, [],
  ◌∷◌, ◌++◌, Bytes, length, drop, ltb, leb, ◌==◌, if◌then◌else◌, Result, ok, err, ◌>>=◌, index,
  slice,
}
use tzsp_server.Prelude.Text.{text_eq, to_lower}
use tzsp_server.Decoder.{PacketInfo}

pub record Filter : Type 0 where
  pub src_ip : Bytes
  pub dst_ip : Bytes
  pub dst_port : ℕ
  pub protocol : Bytes

-- `matchesFilter`; an empty text and the port 0 stand for no criterion.
unfoldable pub matches_filter : Filter → PacketInfo → Bool
matches_filter filter pkt =
    if not (text_eq filter.src_ip []) && not (text_eq pkt.src_ip filter.src_ip)
    then false
    else if not (text_eq filter.dst_ip []) && not (text_eq pkt.dst_ip filter.dst_ip)
    then false
    else if not (filter.dst_port == 0) && not (pkt.dst_port == filter.dst_port)
    then false
    else if not (text_eq filter.protocol [])
        && not (text_eq (to_lower filter.protocol) (to_lower pkt.protocol))
    then false
    else true

-- `bytes.IndexByte` and `bytes.LastIndexByte`; `none` is -1.
unfoldable pub index_byte : Bytes → ℕ → Option ℕ
index_byte [] c = none
index_byte (b ∷ s) c =
    if b == c then some 0 else elim (index_byte s c) [ none ↦ none | some i ↦ some (suc i) ]

unfoldable pub last_index_byte : Bytes → ℕ → Option ℕ
last_index_byte [] c = none
last_index_byte (b ∷ s) c = elim (last_index_byte s c) [
  | some i ↦ some (suc i)
  | none ↦ if b == c then some 0 else none
]

-- The errors of `extractJSON`, each with the topic that is returned beside it.
pub data ExtractError : Type 0 where
  no_json incomplete_json : Bytes → ExtractError

abbrev pub is_printable : ℕ → Bool
is_printable b = leb 0x20 b && leb b 0x7e

-- The loop that tests a topic of `n` bytes from `j` on.
unfoldable pub all_printable : ℕ → Bytes → Bool
all_printable zero s = true
all_printable (suc n) [] = true
all_printable (suc n) (b ∷ s) = is_printable b && all_printable n s

-- The loop that looks for the first byte from `i` on that is not printable; `none` if there is none.
unfoldable pub printable_end : ℕ → Bytes → Option ℕ
printable_end i [] = none
printable_end i (b ∷ s) = if is_printable b then printable_end (i + 1) s else some i

-- The topic with its end, where the search for JSON starts.
abbrev pub Topic : Type 0
Topic = Bytes × ℕ

-- The topic by its length prefix; `none` leaves `topicStart` at -1.
unfoldable pub prefixed_topic : Bytes → ℕ → Result ExtractError (Option Topic)
prefixed_topic payload first_slash = do
  msb ← index payload (first_slash - 2)
  lsb ← index payload (first_slash - 1)
  let topic_length = msb * 256 + lsb
  if ltb 0 topic_length
        && ltb topic_length 256
        && ltb (first_slash + topic_length) (length payload)
        && all_printable topic_length (drop first_slash payload)
      then (do
        topic ← slice payload first_slash (first_slash + topic_length)
        ok (some (topic, first_slash + topic_length)))
      else ok none

-- The fallback: the topic is what is printable from the slash on, if something else follows.
unfoldable pub topic_to : Bytes → ℕ → Option ℕ → Result ExtractError Topic
topic_to payload first_slash none = ok ([], 0)
topic_to payload first_slash (some topic_end) =
    if ltb first_slash topic_end
    then (do topic ← slice payload first_slash topic_end; ok (topic, topic_end))
    else ok ([], 0)

unfoldable pub scanned_topic : Bytes → ℕ → Result ExtractError Topic
unfolding topic_to
scanned_topic payload first_slash =
    topic_to payload first_slash (printable_end first_slash (drop first_slash payload))

unfoldable pub or_scanned : Bytes → ℕ → Option Topic → Result ExtractError Topic
or_scanned payload first_slash (some topic) = ok topic
or_scanned payload first_slash none = scanned_topic payload first_slash

-- The topic, if one is found; else no topic, and the search starts at 0.
unfoldable pub find_topic : Bytes → Option ℕ → Result ExtractError Topic
unfolding or_scanned
find_topic payload none = ok ([], 0)
find_topic payload (some first_slash) =
    if ltb first_slash 2
    then ok ([], 0)
    else prefixed_topic payload first_slash >>= or_scanned payload first_slash

-- The JSON text from `json_start` to the last '}', inclusive.
unfoldable pub json_range : Bytes → Bytes → ℕ → Option ℕ → Result ExtractError Bytes
json_range payload topic json_start none = err (incomplete_json topic)
json_range payload topic json_start (some json_end) =
    if leb json_end json_start
    then err (incomplete_json topic)
    else slice payload json_start (json_end + 1)

-- The index of the first '{' is counted from `search_start`.
unfoldable pub json_from : Bytes → Bytes → ℕ → Option ℕ → Result ExtractError Bytes
unfolding json_range
json_from payload topic search_start none = err (no_json topic)
json_from payload topic search_start (some i) =
    json_range payload topic (i + search_start) (last_index_byte payload b'}')

unfoldable pub cut_json : Bytes → Bytes → ℕ → Result ExtractError Bytes
unfolding json_from
cut_json payload topic search_start = do
  tail ← slice payload search_start (length payload)
  json_from payload topic search_start (index_byte tail b'{')

-- `extractJSON`: the JSON text and the topic.
unfoldable pub extract_json : Bytes → Result ExtractError (Bytes × Bytes)
extract_json payload = do
  (topic, search_start) ← find_topic payload (index_byte payload b'/')
  json ← cut_json payload topic search_start
  ok (json, topic)
