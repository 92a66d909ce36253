-- ===== src/Qingping/Tests.antt =====
-- A frame with an MQTT publication, and what the theorems say of it.
use tzsp_server.Prelude.{
  ◌≡◌, ◌↔◌, ◌⊎◌, inl, inr, refl, true, false, Option, none, some, [], ◌∷◌, ◌++◌, Bytes, replicate,
  arith, ok, if◌then◌else◌,
}
use tzsp_server.Prelude.Int.{pos}
use tzsp_server.Prelude.Text.{codes}
use tzsp_server.Decoder.{PacketInfo, Dissection, decode}
use tzsp_server.Qingping.{Filter, matches_filter, extract_json}
use tzsp_server.Qingping.Matching.{Meets, matches_filter_iff, icmp_never_matches}
use tzsp_server.Qingping.Extract.{Extraction, extract_json_answers}
use tzsp_server.Qingping.Layout.{publication, u16_prefix}
use tzsp_server.Qingping.Publish.{
  IsTopic, closed, extract_json-publication, extract_json-length_byte,
}
use tzsp_server.Qingping.Fallback.{extract_json-topic_of_47}
use tzsp_server.Qingping.Export.{Config, Environment, answered, export}
use tzsp_server.Qingping.Export.{Request}
use tzsp_server.Qingping.Outcomes.{
  IsPost, IsSuccess, Posted, export_posts_at_most_once, export_submits,
}

abbrev topic : Bytes
topic = codes "/q/up"

abbrev inner : Bytes
inner = codes "\"a\":1"

abbrev frame : Bytes
frame = publication (48 ∷ 16 ∷ []) topic (u16_prefix (closed inner) ++ closed inner)

topic-IsTopic : IsTopic topic
unfolding tzsp_server.Qingping.all_printable
topic-IsTopic = record {
  rest = codes "q/up";
  slash = refl;
  short = omega arith;
  not_slash = omega arith;
  printable = refl;
}

extract_json_answers_example : Extraction frame (extract_json frame)
extract_json_answers_example = extract_json_answers frame

extract_json-publication_example : extract_json frame ≡ ok (closed inner, topic)
extract_json-publication_example =
    extract_json-publication (48 ∷ 16 ∷ []) topic inner (ground arith) topic-IsTopic (ground arith)

-- 121 letters between the braces.
abbrev long_inner : Bytes
long_inner = replicate 121 97

extract_json-length_byte_example :
    extract_json
      (publication (48 ∷ 16 ∷ []) topic (u16_prefix (closed long_inner) ++ closed long_inner))
    ≡ ok (b'{' ∷ closed long_inner, topic)
extract_json-length_byte_example =
    extract_json-length_byte (48 ∷ 16 ∷ []) topic long_inner (ground arith) topic-IsTopic refl
      (omega arith)

abbrev long_topic : Bytes
long_topic = b'/' ∷ replicate 46 97

long_topic-printable : tzsp_server.Qingping.all_printable 47 long_topic ≡ true
unfolding tzsp_server.Qingping.all_printable
long_topic-printable = refl

extract_json-topic_of_47_example :
    extract_json (publication (48 ∷ 57 ∷ []) long_topic (u16_prefix (closed inner) ++ closed inner))
    ≡ ok (closed inner, b'/' ∷ long_topic)
extract_json-topic_of_47_example =
    extract_json-topic_of_47 (48 ∷ 57 ∷ []) long_topic inner (ground arith) (omega arith) refl
      long_topic-printable (omega arith) (ground arith)

abbrev filter : Bytes → Filter
filter protocol = record {
  src_ip = codes "10.0.0.1";
  dst_ip = [];
  dst_port = 1883;
  protocol = protocol;
}

abbrev pkt : PacketInfo
pkt = record {
  timestamp = pos 5;
  protocol = codes "TCP";
  src_ip = codes "10.0.0.1";
  dst_ip = codes "10.0.0.2";
  src_port = 50000;
  dst_port = 1883;
  src_mac = [];
  dst_mac = [];
  len = 10;
  payload_len = 0;
  tcp_flags = codes "A";
  packet_data = frame;
}

matches_filter_iff_example :
    (matches_filter (filter (codes "tcp")) pkt ≡ true) ↔ Meets (filter (codes "tcp")) pkt
matches_filter_iff_example = matches_filter_iff (filter (codes "tcp")) pkt

abbrev ping : Bytes → Dissection
ping bytes = record {
  ethernet = none;
  ipv4 = none;
  ipv6 = none;
  tcp = none;
  udp = none;
  icmpv4 = true;
  icmpv6 = false;
  application = none;
  error_layer = none;
}

icmp_never_matches_example :
    matches_filter (filter (codes "icmp")) (decode ping (8 ∷ []) (pos 7)).0 ≡ false
icmp_never_matches_example =
    icmp_never_matches ping (8 ∷ []) (pos 7) (filter (codes "icmp")) (inl refl) refl

abbrev config : Config
config = record {
  enabled = true;
  filter = filter (codes "tcp");
  strict_json = true;
  upstream_url = codes "http://upstream";
  ignore_ssl = false;
  ignore_http_errors = false;
}

abbrev env : Environment
env = record {
  json_error = λ json. none;
  request_error = λ url. none;
  respond = λ request. answered 503 [];
}

export_posts_at_most_once_example : Posted env config pkt (export env config pkt).requests
export_posts_at_most_once_example = export_posts_at_most_once env config pkt

pkt-matched : matches_filter config.filter pkt ≡ true
unfolding matches_filter tzsp_server.Prelude.Text.text_eq tzsp_server.Prelude.Text.to_lower
pkt-matched = refl

export_submits_example :
    (request : Request) × IsPost config (closed inner) request
    × ((export env config pkt).requests ≡ request ∷ [])
    × (((export env config pkt).error ≡ none)
        ↔ ((config.ignore_http_errors ≡ true) ⊎ IsSuccess (env.respond request)))
export_submits_example =
    export_submits env config pkt (closed inner) topic
      (record {
        matched = pkt-matched;
        found = extract_json-publication_example;
        accepted = inl refl;
      })
      refl
