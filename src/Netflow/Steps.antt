-- ===== src/Netflow/Steps.antt =====
-- What happens to an exporter, as a step relation, and the rule for what every step keeps.
use tzsp_server.Prelude.{true, Option, none, some, List, [], ◌∷◌, Bytes, Bool-cases, inl, inr}
use tzsp_server.Prelude.Int.{leb_ℤ}
use tzsp_server.Tzsp.{Time}
use tzsp_server.Decoder.{PacketInfo}
use tzsp_server.Netflow.{
  Flow, Flows, Exporter, Moment, lookup, since, export_flow, process_packet, expire_flows,
  expire_one, close_one, close_flows, close,
}
use tzsp_server.Netflow.Table.{
  is_ip, touched, stored, expired, process-skip, process-keep, process-export,
}

-- A packet, a tick of the sweeper, the close; under the mutex, so one at a time, in any order.
pub data Step : Exporter → Exporter → Type 0 where
  packet :
      (clock : Time) (now : Moment) (info : PacketInfo) {e : Exporter}
      → Step e (process_packet clock now info e)
  tick :
      (clock : Time) (now : Bytes → Moment) (keys : List Bytes) {e : Exporter}
      → Step e (expire_flows clock now keys e)
  shutdown :
      (now : Bytes → Moment) (keys : List Bytes) (close_error : Option Bytes) {e : Exporter}
      → Step e (close now keys close_error e).0

pub data Reach (start : Exporter) : Exporter → Type 0 where
  here : Reach start start
  next : {e e' : Exporter} → Reach start e → Step e e' → Reach start e'

-- A property that exports, changes of the table and the close keep is kept by every step.
module _ (P : Exporter → Type 0)
    (exports : (now : Moment) (f : Flow) (e : Exporter) → P e → P (export_flow now f e).0)
    (flows : (m : Flows) (e : Exporter) → P e → P (record e { flows = m }))
    (closes : (e : Exporter) → P e → P (record e { closed = true })) where
  process_packet_keeps :
      (clock : Time) (now : Moment) (info : PacketInfo) (e : Exporter)
      → P e
      → P (process_packet clock now info e)
  process_packet_keeps clock now info e h = elim (Bool-cases (is_ip info)) [
    | inr no_ip ↦ rw (process-skip clock now info e no_ip) h
    | inl ip ↦ elim (Bool-cases (expired clock now info e)) [
      | inr young ↦ rw (process-keep clock now info e ip young) (flows _ e h)
      | inl old ↦ rw (process-export clock now info e ip old) (
          flows _ _
            (exports now (touched clock now info e) (stored clock now info e) (flows _ e h)))
    ]
  ]

  expire_one_keeps :
      (clock : Time) (now : Moment) (key : Bytes) (o : Option Flow) (e : Exporter)
      → P e
      → P (expire_one clock now key o e)
  unfolding expire_one
  expire_one_keeps clock now key none e h = h
  expire_one_keeps clock now key (some f) e h =
      elim (Bool-cases (leb_ℤ e.flow_timeout (since clock f.last_seen))) [
        | inl idle ↦ rw idle (flows _ _ (exports now f e h))
        | inr busy ↦ rw busy h
      ]

  expire_flows_keeps :
      (clock : Time) (now : Bytes → Moment) (keys : List Bytes) (e : Exporter)
      → P e
      → P (expire_flows clock now keys e)
  unfolding expire_flows
  expire_flows_keeps clock now [] e h = h
  expire_flows_keeps clock now (key ∷ keys) e h =
      expire_flows_keeps clock now keys _
        (expire_one_keeps clock (now key) key (lookup key e.flows) e h)

  close_one_keeps :
      (now : Moment) (key : Bytes) (o : Option Flow) (e : Exporter)
      → P e
      → P (close_one now key o e)
  unfolding close_one
  close_one_keeps now key none e h = h
  close_one_keeps now key (some f) e h = flows _ _ (exports now f e h)

  close_flows_keeps :
      (now : Bytes → Moment) (keys : List Bytes) (e : Exporter) → P e → P (close_flows now keys e)
  unfolding close_flows
  close_flows_keeps now [] e h = h
  close_flows_keeps now (key ∷ keys) e h =
      close_flows_keeps now keys _ (close_one_keeps (now key) key (lookup key e.flows) e h)

  step_keeps : {e e' : Exporter} → Step e e' → P e → P e'
  unfolding close
  step_keeps (packet clock now info {e}) h = process_packet_keeps clock now info e h
  step_keeps (tick clock now keys {e}) h = expire_flows_keeps clock now keys e h
  step_keeps (shutdown now keys close_error {e}) h = closes _ (close_flows_keeps now keys e h)

  pub reach_keeps : {start e : Exporter} → P start → Reach start e → P e
  reach_keeps h here = h
  reach_keeps h (next r s) = step_keeps s (reach_keeps h r)
