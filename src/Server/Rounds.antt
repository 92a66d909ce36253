-- ===== src/Server/Rounds.antt =====
-- One round of the receive loop on a datagram, and the composition of rounds.
use mathlib.Core.Option
use tzsp_server.Prelude.{
  ◌≡◌, refl, ap, ◌∙◌, Option, none, some, List, [], ◌∷◌, ◌++◌, Bytes, length, take, Bool-cases, inl,
  inr, append_assoc, ◌==◌,
}
use tzsp_server.Tzsp
use tzsp_server.Tzsp.{Packet}
use tzsp_server.Tzsp.Decode.{decode_answers, short, other_version, packet, bad_last, bad_length}
use tzsp_server.Decoder.{PacketInfo, Dissection}
use tzsp_server.Netflow.{Exporter}
use tzsp_server.Netflow.Ops.{Op, run_ops}
use tzsp_server.Output.{FileWriter}
use tzsp_server.Qingping.Export.{Config}
use tzsp_server.Server.{
  room, Server, Surroundings, increment, process_frame, process_packet, receive,
}
use tzsp_server.Server.Streams.{
  Frame, Sighting, frame_of, with_frame, description, sightings, with_info, with_arrival,
  cons_arrival, uploads_of, write_all, capture_all,
}
use tzsp_server.Server.Outputs.{Outputs}

abbrev pub counted : Server → Server
counted s = record s { packets_received = increment s.packets_received }

module _ (dissect : Bytes → Dissection) (env : Surroundings) (bytes source_addr : Bytes)
    (s : Server) where
  -- A datagram is counted only, or its frame is processed too.
  pub data Round : Type 1 where
    no_frame :
        receive dissect env bytes source_addr s ≡ some (counted s)
        → ((A : Type 0) (add : Frame → A → A) (rest : A)
            → with_frame add env
                (Tzsp.decode (take (room s.buffer_size) bytes) source_addr env.received_time)
                rest
              ≡ rest)
        → Round
    one_frame :
        (pkt : Packet)
        → receive dissect env bytes source_addr s ≡ some (process_frame dissect env pkt (counted s))
        → ((A : Type 0) (add : Frame → A → A) (rest : A)
            → with_frame add env
                (Tzsp.decode (take (room s.buffer_size) bytes) source_addr env.received_time)
                rest
              ≡ add (frame_of env pkt) rest)
        → Round

  pub round : Round
  unfolding receive process_packet tzsp_server.Server.process_decoded
  round = elim (decode_answers (take (room s.buffer_size) bytes) source_addr env.received_time) [
    | short h e ↦ no_frame (rw e refl) (λ A add rest. rw e refl)
    | other_version v r h l n e ↦ no_frame (rw e refl) (λ A add rest. rw e refl)
    | bad_last typ high low body n t l d k e ↦ no_frame (rw e refl) (λ A add rest. rw e refl)
    | bad_length typ high low body n t len r l d k h e ↦
        no_frame (rw e refl) (λ A add rest. rw e refl)
    | packet pkt d e ↦ elim (Bool-cases (length pkt.encap_packet == 0)) [
      | inl empty ↦ no_frame (rw (e, empty) refl) (λ A add rest. rw (e, empty) refl)
      | inr frame ↦ one_frame pkt (rw (e, frame) refl) (λ A add rest. rw (e, frame) refl)
    ]
  ]

module _ (env : Surroundings) where
  run_ops-with_arrival :
      (p : PacketInfo × Option Bytes) (ops : List Op) (o : Option Exporter)
      → Option.map (run_ops ops) (Option.map (run_ops (with_arrival env p [])) o)
        ≡ Option.map (run_ops (with_arrival env p ops)) o
  unfolding run_ops
  run_ops-with_arrival (info, some why) ops none = refl
  run_ops-with_arrival (info, some why) ops (some e) = refl
  run_ops-with_arrival (info, none) ops none = refl
  run_ops-with_arrival (info, none) ops (some e) = refl

  write_all-with_info :
      (p : PacketInfo × Option Bytes) (xs : List Sighting) (o : Option FileWriter)
      → Option.map (write_all xs) (Option.map (write_all (with_info env p [])) o)
        ≡ Option.map (write_all (with_info env p xs)) o
  unfolding write_all
  write_all-with_info (info, some why) xs none = refl
  write_all-with_info (info, some why) xs (some w) = refl
  write_all-with_info (info, none) xs none = refl
  write_all-with_info (info, none) xs (some w) = refl

  uploads_of-with_info :
      (p : PacketInfo × Option Bytes) (xs : List Sighting) (q : Option Config)
      → uploads_of q (with_info env p []) ++ uploads_of q xs ≡ uploads_of q (with_info env p xs)
  unfolding uploads_of
  uploads_of-with_info (info, some why) xs none = refl
  uploads_of-with_info (info, some why) xs (some config) = refl
  uploads_of-with_info (info, none) xs none = refl
  uploads_of-with_info (info, none) xs (some config) = refl

module _ (dissect : Bytes → Dissection) where
  pub Outputs-cons :
      (f : Frame) (fs : List Frame) (ops : List Op) (s s1 s2 : Server)
      → Outputs dissect (f ∷ []) (cons_arrival dissect f []) s s1
      → Outputs dissect fs ops s1 s2
      → Outputs dissect (f ∷ fs) (cons_arrival dissect f ops) s s2
  unfolding sightings capture_all
  Outputs-cons f fs ops s s1 s2 a b =
      let p = description dissect f in
      let xs = sightings dissect fs in
      record {
        netflow_is =
            b.netflow_is
            ∙ ap (Option.map (run_ops ops)) a.netflow_is
            ∙ run_ops-with_arrival f.env p ops s.netflow_exp;
        capture_is = b.capture_is ∙ ap (capture_all fs) a.capture_is;
        uploads_are =
            b.uploads_are
            ∙ rw (a.uploads_are, a.same_qingping)
                (append_assoc s.uploads (uploads_of s.qingping_exp (with_info f.env p []))
                    (uploads_of s.qingping_exp xs)
                  ∙ ap (λ us. s.uploads ++ us) (uploads_of-with_info f.env p xs s.qingping_exp));
        metadata_is =
            b.metadata_is
            ∙ ap (Option.map (write_all xs)) a.metadata_is
            ∙ write_all-with_info f.env p xs s.file_writer;
        same_qingping = b.same_qingping ∙ a.same_qingping;
        same_size = b.same_size ∙ a.same_size;
      }
