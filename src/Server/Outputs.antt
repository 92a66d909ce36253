-- ===== src/Server/Outputs.antt =====
-- Each output sees its own stream of a run of the receive loop, whatever happens to the others.
use mathlib.Core.Option
use tzsp_server.Prelude.{
  ◌≡◌, refl, sym, ◌∙◌, Option, none, some, List, [], ◌∷◌, ◌++◌, Bytes, arith, append-nil,
}
use tzsp_server.Tzsp.{Packet, Time}
use tzsp_server.Decoder.{PacketInfo, Dissection}
use tzsp_server.Qingping.Export.{Config}
use tzsp_server.Netflow.Ops.{Op, run_ops}
use tzsp_server.Netflow.{Exporter}
use tzsp_server.Output.{FileWriter}
use tzsp_server.Pcap.{Writer}
use tzsp_server.Server.{
  increment, packet_time, export_netflow, write_metadata, write_pcap, Server, Surroundings,
  process_frame, deliver, export_qingping,
}
use tzsp_server.Server.Streams.{
  Frame, frame_of, description, sightings, with_info, cons_arrival, uploads_of, write_all,
  capture_all,
}

-- The state that the outputs reach from `s` on the frames `fs`, of which the decoded ones are counted;
-- the NetFlow exporter sees the packets and the ticks `ops`.
pub record Outputs (dissect : Bytes → Dissection) (fs : List Frame) (ops : List Op) (s s' : Server)
    : Type 0 where
  pub netflow_is : s'.netflow_exp ≡ Option.map (run_ops ops) s.netflow_exp
  pub capture_is : (s'.pcap_writer, s'.directory) ≡ capture_all fs (s.pcap_writer, s.directory)
  pub uploads_are : s'.uploads ≡ s.uploads ++ uploads_of s.qingping_exp (sightings dissect fs)
  pub metadata_is : s'.file_writer ≡ Option.map (write_all (sightings dissect fs)) s.file_writer
  pub same_qingping : s'.qingping_exp ≡ s.qingping_exp
  pub same_size : s'.buffer_size ≡ s.buffer_size

pub uploads_of-nil : (q : Option Config) → uploads_of q [] ≡ []
unfolding uploads_of
uploads_of-nil none = refl
uploads_of-nil (some config) = refl

-- The uploads of one frame.
export_qingping-uploads :
    (env : Surroundings) (info : PacketInfo) (q : Option Config) (s : Server)
    → (export_qingping env info q s).uploads
      ≡ s.uploads ++ uploads_of q ((record { env = env; info = info }) ∷ [])
unfolding uploads_of
export_qingping-uploads env info none s = sym (append-nil s.uploads)
export_qingping-uploads env info (some config) s = refl

-- The two fields of an upload, which the other outputs leave.
record SameUploads (s s' : Server) : Type 0 where
  same_uploads : s'.uploads ≡ s.uploads
  same_config : s'.qingping_exp ≡ s.qingping_exp

export_netflow-SameUploads :
    (env : Surroundings) (info : PacketInfo) (o : Option Exporter) (s : Server)
    → SameUploads s (export_netflow env info o s)
export_netflow-SameUploads env info none s = record { same_uploads = refl; same_config = refl }
export_netflow-SameUploads env info (some e) s = record { same_uploads = refl; same_config = refl }

write_metadata-SameUploads :
    (info : PacketInfo) (o : Option FileWriter) (s : Server)
    → SameUploads s (write_metadata info o s)
write_metadata-SameUploads info none s = record { same_uploads = refl; same_config = refl }
write_metadata-SameUploads info (some w) s = record { same_uploads = refl; same_config = refl }

write_pcap-SameUploads :
    (env : Surroundings) (frame : Bytes) (timestamp : Time) (o : Option Writer) (s : Server)
    → SameUploads s (write_pcap env frame timestamp o s)
write_pcap-SameUploads env frame timestamp o s = ground arith

deliver-uploads :
    (env : Surroundings) (p : PacketInfo × Option Bytes) (s : Server)
    → (deliver env p s).uploads ≡ s.uploads ++ uploads_of s.qingping_exp (with_info env p [])
unfolding deliver
deliver-uploads env (info, some why) s =
    rw (uploads_of-nil s.qingping_exp) (sym (append-nil s.uploads))
deliver-uploads env (info, none) s =
    let s1 = export_netflow env info s.netflow_exp s in
    let s2 = export_qingping env info s1.qingping_exp s1 in
    let same = export_netflow-SameUploads env info s.netflow_exp s in
    (write_metadata-SameUploads info s2.file_writer s2).same_uploads
    ∙ export_qingping-uploads env info s1.qingping_exp s1
    ∙ rw (same.same_uploads, same.same_config) refl

module _ (dissect : Bytes → Dissection) where
  pub process_frame-Outputs :
      (env : Surroundings) (pkt : Packet) (s : Server)
      → Outputs dissect
          (frame_of env pkt ∷ [])
          (cons_arrival dissect (frame_of env pkt) [])
          s
          (process_frame dissect env pkt s)
  unfolding process_frame sightings uploads_of write_all capture_all run_ops
  process_frame-Outputs env pkt s = record {
    netflow_is = ground arith;
    capture_is = ground arith;
    uploads_are =
        let s1 = record s { packets_decoded = increment s.packets_decoded } in
        let same = write_pcap-SameUploads env pkt.encap_packet (packet_time pkt) s.pcap_writer s1 in
        deliver-uploads env (description dissect (frame_of env pkt))
          (write_pcap env pkt.encap_packet (packet_time pkt) s.pcap_writer s1)
        ∙ rw (same.same_uploads, same.same_config) refl;
    metadata_is = ground arith;
    same_qingping = ground arith;
    same_size = ground arith;
  }
