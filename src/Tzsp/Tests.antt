-- ===== src/Tzsp/Tests.antt =====
-- A packet with padding, two tags and an encapsulated packet, and what the theorems say of it.
use tzsp_server.Prelude.{◌≡◌, refl, ◌↔◌, List, [], ◌∷◌, Bytes, ok}
use tzsp_server.Prelude.Int.{pos}
use tzsp_server.Tzsp.{Tag, Packet, Time, decode, find_tag}
use tzsp_server.Tzsp.Decode.{Decodes, Answer, decode_answers, decode_iff}

abbrev frame : Bytes
frame = 1 ∷ 0 ∷ 0 ∷ 1 ∷ 0 ∷ 10 ∷ 1 ∷ 200 ∷ 13 ∷ 4 ∷ 0 ∷ 0 ∷ 1 ∷ 2 ∷ 1 ∷ 170 ∷ 187 ∷ []

abbrev sender : Bytes
sender = 10 ∷ 0 ∷ 0 ∷ 1 ∷ []

abbrev frame_tags : List Tag
frame_tags =
    record { typ = 10; len = 1; content = 200 ∷ [] }
    ∷ record { typ = 13; len = 4; content = 0 ∷ 0 ∷ 1 ∷ 2 ∷ [] }
    ∷ []

abbrev frame_packet : Packet
frame_packet = record {
  version = 1;
  typ = 0;
  protocol = 1;
  tags = frame_tags;
  encap_packet = 170 ∷ 187 ∷ [];
  received_time = pos 5;
  source_addr = sender;
}

decode_runs : decode frame sender (pos 5) ≡ ok frame_packet
unfolding decode tzsp_server.Tzsp.tag_loop tzsp_server.Tzsp.tag_round tzsp_server.Tzsp.remainder
decode_runs = refl

decode_iff_example :
    (decode frame sender (pos 5) ≡ ok frame_packet) ↔ Decodes frame sender (pos 5) frame_packet
decode_iff_example = decode_iff frame sender (pos 5) frame_packet

decode_answers_example : Answer frame sender (pos 5) (decode frame sender (pos 5))
decode_answers_example = decode_answers frame sender (pos 5)
