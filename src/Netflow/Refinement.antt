-- ===== src/Netflow/Refinement.antt =====
-- The exporter as one automaton for each flow key, which knows of no other flow.
use tzsp_server.Prelude.{
  ◌≡◌, refl, ap, ◌∙◌, inl, inr, Bool-cases, ◌&&◌, if◌then◌else◌, Option, List, [], ◌∷◌, Bytes,
}
use tzsp_server.Prelude.Int.{ℤ}
use tzsp_server.Prelude.Text.{text_eq}
use tzsp_server.Tzsp.{Time}
use tzsp_server.Netflow.{Flow, Exporter, lookup, make_flow_key}
use tzsp_server.Netflow.Table.{
  Arrival, is_ip, flow_step, lookup-process_packet, export_flow-SameTable,
}
use tzsp_server.Netflow.Steps.{reach_keeps}
use tzsp_server.Netflow.Sweep.{visited, survivor}
use tzsp_server.Netflow.Expiry.{is_idle, lookup-expire_flows}
use tzsp_server.Netflow.Ops.{Op, arrive, tick, run_ops, apply, run_ops-Reach}

-- What one flow sees: its packets, and the times at which the sweeper looked at it.
pub data Sight : Type 0 where
  packet : Arrival → Sight
  looked_at : Time → Sight

-- What the flow of a key sees of a run.
unfoldable pub seen_by : Bytes → List Op → List Sight
seen_by k [] = []
seen_by k (arrive a ∷ ops) =
    let rest = seen_by k ops in
    if is_ip a.info && text_eq (make_flow_key a.info) k then packet a ∷ rest else rest
seen_by k (tick t ∷ ops) =
    let rest = seen_by k ops in if visited k t.keys then looked_at t.clock ∷ rest else rest

-- The timeouts that the automaton of a flow goes by.
pub record Timeouts : Type 0 where
  pub active : ℤ
  pub idle : ℤ

abbrev pub timeouts_of : Exporter → Timeouts
timeouts_of e = record { active = e.active_timeout; idle = e.flow_timeout }

-- The automaton of one flow: a packet updates it, or makes it; it ends when a packet finds it active for
-- too long, or the sweeper finds it idle for too long.
abbrev pub flow_sees : Timeouts → Sight → Option Flow → Option Flow
flow_sees t (packet a) flow = flow_step t.active a.clock a.info flow
flow_sees t (looked_at clock) flow = survivor (is_idle t.idle clock) flow

unfoldable pub flow_life : Timeouts → List Sight → Option Flow → Option Flow
flow_life t [] flow = flow
flow_life t (x ∷ xs) flow = flow_life t xs (flow_sees t x flow)

-- The timeouts stay as they were made.
apply-timeouts : (op : Op) (e : Exporter) → timeouts_of (apply op e) ≡ timeouts_of e
unfolding run_ops
apply-timeouts op e =
    reach_keeps (λ x. timeouts_of x ≡ timeouts_of e)
      (λ now f x h.
        let same = export_flow-SameTable now f x in
        rw (same.same_active_timeout, same.same_flow_timeout) h)
      (λ m x h. h) (λ x h. h) refl (run_ops-Reach (op ∷ []) e)

-- After any packets and ticks, in any order, the table holds under each key what that key's automaton
-- makes of the packets of the key and of the times at which the sweeper looked at it, in their order:
-- no flow depends on another, and none on the order in which a tick visits the table.
pub run_ops-refines :
    (ops : List Op) (e : Exporter) (k : Bytes)
    → lookup k (run_ops ops e).flows ≡ flow_life (timeouts_of e) (seen_by k ops) (lookup k e.flows)
unfolding run_ops seen_by flow_life
run_ops-refines [] e k = refl
run_ops-refines (arrive a ∷ ops) e k =
    let step = lookup-process_packet a.clock a.now a.info e k in
    let rest = run_ops-refines ops (apply (arrive a) e) k in
    let same = apply-timeouts (arrive a) e in
    elim (Bool-cases (is_ip a.info && text_eq (make_flow_key a.info) k)) [
      | inl mine ↦
          rest ∙ rw (same, mine) (ap (flow_life (timeouts_of e) (seen_by k ops)) (rw mine at step))
      | inr other ↦
          rest
          ∙ rw (same, other) (ap (flow_life (timeouts_of e) (seen_by k ops)) (rw other at step))
    ]
run_ops-refines (tick t ∷ ops) e k =
    let step = lookup-expire_flows t.clock t.now t.keys e k in
    let rest = run_ops-refines ops (apply (tick t) e) k in
    let same = apply-timeouts (tick t) e in
    elim (Bool-cases (visited k t.keys)) [
      | inl mine ↦
          rest ∙ rw (same, mine) (ap (flow_life (timeouts_of e) (seen_by k ops)) (rw mine at step))
      | inr other ↦
          rest
          ∙ rw (same, other) (ap (flow_life (timeouts_of e) (seen_by k ops)) (rw other at step))
    ]
