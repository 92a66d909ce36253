-- ===== src/Netflow/Late.antt =====
-- A packet that comes behind the close.
use tzsp_server.Prelude.{◌≡◌, refl, ap, ◌∙◌, true, false, Option, List, [], ◌∷◌, Bytes}
use tzsp_server.Prelude.Int.{leb_ℤ}
use tzsp_server.Tzsp.{Time}
use tzsp_server.Decoder.{PacketInfo}
use tzsp_server.Netflow.{
  Flow, Exporter, Moment, lookup, insert, since, make_flow_key, new_flow, update_flow,
  process_packet, close,
}
use tzsp_server.Netflow.Table.{is_ip, touched, process-keep, export_flow-SameTable}
use tzsp_server.Netflow.Steps.{next, shutdown, reach_keeps}
use tzsp_server.Netflow.Ops.{Op, run_ops, run_ops-Reach}

pub close-active_timeout :
    (now : Bytes → Moment) (keys : List Bytes) (close_error : Option Bytes) (ops : List Op)
    (e : Exporter)
    → (close now keys close_error (run_ops ops e)).0.active_timeout ≡ e.active_timeout
close-active_timeout now keys close_error ops e =
    reach_keeps (λ x. x.active_timeout ≡ e.active_timeout)
      (λ m f x h. (export_flow-SameTable m f x).same_active_timeout ∙ h) (λ m x h. h) (λ x h. h)
      refl (next (run_ops-Reach ops e) (shutdown now keys close_error))

-- The flow of a single packet.
abbrev pub alone : PacketInfo → List (Bytes × Flow)
alone info = (make_flow_key info, update_flow info (new_flow info)) ∷ []

-- A packet that meets an empty table and is not older than the active timeout stays there, alone.
pub process_packet-alone :
    (clock : Time) (now : Moment) (info : PacketInfo) (e : Exporter)
    → e.flows ≡ []
    → is_ip info ≡ true
    → leb_ℤ e.active_timeout (since clock info.timestamp) ≡ false
    → ((process_packet clock now info e).flows ≡ alone info)
      × ((process_packet clock now info e).sent ≡ e.sent)
unfolding lookup insert
process_packet-alone clock now info e empty ip young =
    let fresh : touched clock now info e ≡ update_flow info (new_flow info) = simp empty refl in
    let not_due = ap (λ f. leb_ℤ e.active_timeout (since clock f.first_seen)) fresh ∙ young in
    let kept = process-keep clock now info e ip not_due in
    (ap (λ (x : Exporter). x.flows) kept ∙ simp empty refl, ap (λ (x : Exporter). x.sent) kept)
