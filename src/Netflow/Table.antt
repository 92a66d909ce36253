-- ===== src/Netflow/Table.antt =====
-- The flow table refines one automaton for each flow key: packets of other keys, whatever their
-- number and order, do not show in a flow.
use tzsp_server.Prelude.{
  ◌≡◌, refl, ap, subst, ◌∙◌, Bool, true, false, not, ◌&&◌, ◌||◌, Option, none, some, List, [], ◌∷◌,
  Bytes, arith, if◌then◌else◌, not-eq_true, Bool-cases, inl, inr,
}
use tzsp_server.Prelude.Int.{ℤ, leb_ℤ}
use tzsp_server.Prelude.Text.{text_eq, text_eq_iff, text_eq_refl}
use tzsp_server.Tzsp.{Time}
use tzsp_server.Decoder.{PacketInfo}
use tzsp_server.Netflow.{
  Flow, Flows, Exporter, Moment, lookup, insert, delete, make_flow_key, get_or_new, update_flow,
  drop_exported, since, export_flow, process_packet,
}

pub lookup-insert :
    (key k : Bytes) (f : Flow) (m : Flows)
    → lookup k (insert key f m) ≡ (if text_eq key k then some f else lookup k m)
unfolding lookup insert
lookup-insert key k f [] = refl
lookup-insert key k f ((j, g) ∷ m) =
    ground (arith, text_eq_iff j key, text_eq_iff j k, text_eq_iff key k, lookup-insert key k f m)

pub lookup-delete :
    (key k : Bytes) (m : Flows)
    → lookup k (delete key m) ≡ (if text_eq key k then none else lookup k m)
unfolding lookup delete
lookup-delete key k [] = ground arith
lookup-delete key k ((j, g) ∷ m) =
    ground (arith, text_eq_iff j key, text_eq_iff j k, text_eq_iff key k, lookup-delete key k m)

-- An export leaves the table and the settings alone.
pub record SameTable (e e' : Exporter) : Type 0 where
  pub same_flows : e'.flows ≡ e.flows
  pub same_version : e'.version ≡ e.version
  pub same_flow_timeout : e'.flow_timeout ≡ e.flow_timeout
  pub same_active_timeout : e'.active_timeout ≡ e.active_timeout

pub export_flow-SameTable :
    (now : Moment) (f : Flow) (e : Exporter) → SameTable e (export_flow now f e).0
unfolding export_flow
export_flow-SameTable now f e = ground arith

-- The packets that the exporter keeps: both addresses are known.
unfoldable pub is_ip : PacketInfo → Bool
is_ip info = not (text_eq info.src_ip [] || text_eq info.dst_ip [])

-- What one packet makes of its own flow: the flow is updated, or is made and updated; then it is
-- dropped if it has been active for the timeout.
unfoldable pub flow_step : ℤ → Time → PacketInfo → Option Flow → Option Flow
flow_step active_timeout clock info flow =
    let f = update_flow info (get_or_new info flow) in
    if leb_ℤ active_timeout (since clock f.first_seen) then none else some f

module _ (clock : Time) (now : Moment) (info : PacketInfo) (e : Exporter) where
  -- The flow of the packet's key, with the packet counted.
  abbrev pub touched : Flow
  touched = update_flow info (get_or_new info (lookup (make_flow_key info) e.flows))

  abbrev pub stored : Exporter
  stored = record e { flows = insert (make_flow_key info) touched e.flows }

  abbrev pub expired : Bool
  expired = leb_ℤ e.active_timeout (since clock touched.first_seen)

  pub process-skip : is_ip info ≡ false → process_packet clock now info e ≡ e
  unfolding process_packet is_ip
  process-skip h = ground arith

  pub process-keep : is_ip info ≡ true → expired ≡ false → process_packet clock now info e ≡ stored
  unfolding process_packet is_ip
  process-keep h k = rw (not-eq_true _ h, k)

  pub process-export :
      is_ip info ≡ true
      → expired ≡ true
      → process_packet clock now info e
        ≡ drop_exported (make_flow_key info) (export_flow now touched stored).0
  unfolding process_packet is_ip
  process-export h k = rw (not-eq_true _ h, k)

  -- The packet shows in the flow of its own key, and in no other.
  lookup_self :
      is_ip info ≡ true
      → lookup (make_flow_key info) (process_packet clock now info e).flows
        ≡ flow_step e.active_timeout clock info (lookup (make_flow_key info) e.flows)
  unfolding flow_step
  lookup_self ip =
      let key = make_flow_key info in
      let same = text_eq_refl key in
      elim (Bool-cases expired) [
        | inl old ↦
            ap (λ (x : Exporter). lookup key x.flows) (process-export ip old)
            ∙ lookup-delete key key (export_flow now touched stored).0.flows
            ∙ rw (same, old) refl
        | inr young ↦
            ap (λ (x : Exporter). lookup key x.flows) (process-keep ip young)
            ∙ lookup-insert key key touched e.flows
            ∙ rw (same, young) refl
      ]

  lookup_other :
      (k : Bytes)
      → is_ip info ≡ true
      → text_eq (make_flow_key info) k ≡ false
      → lookup k (process_packet clock now info e).flows ≡ lookup k e.flows
  lookup_other k ip other =
      let key = make_flow_key info in
      let kept = lookup-insert key k touched e.flows in
      elim (Bool-cases expired) [
        | inl old ↦
            ap (λ (x : Exporter). lookup k x.flows) (process-export ip old)
            ∙ lookup-delete key k (export_flow now touched stored).0.flows
            ∙ rw (other, (export_flow-SameTable now touched stored).same_flows) (rw other at kept)
        | inr young ↦
            ap (λ (x : Exporter). lookup k x.flows) (process-keep ip young) ∙ rw other at kept
      ]

  pub lookup-process_packet :
      (k : Bytes)
      → lookup k (process_packet clock now info e).flows ≡ (
          if is_ip info && text_eq (make_flow_key info) k
          then flow_step e.active_timeout clock info (lookup k e.flows)
          else lookup k e.flows)
  lookup-process_packet k = elim (Bool-cases (is_ip info)) [
    | inr no_ip ↦ rw no_ip (ap (λ (x : Exporter). lookup k x.flows) (process-skip no_ip))
    | inl ip ↦ elim (Bool-cases (text_eq (make_flow_key info) k)) [
      | inr other ↦ rw (ip, other) (lookup_other k ip other)
      | inl same ↦
          rw (ip, same)
            (subst
              (λ (j : Bytes).
                lookup j (process_packet clock now info e).flows
                ≡ flow_step e.active_timeout clock info (lookup j e.flows))
              ((text_eq_iff (make_flow_key info) k).0 same) (lookup_self ip))
    ]
  ]

  pub process_packet-active_timeout :
      (process_packet clock now info e).active_timeout ≡ e.active_timeout
  process_packet-active_timeout = elim (Bool-cases (is_ip info)) [
    | inr no_ip ↦ ap (λ (x : Exporter). x.active_timeout) (process-skip no_ip)
    | inl ip ↦ elim (Bool-cases expired) [
      | inl old ↦
          ap (λ (x : Exporter). x.active_timeout) (process-export ip old)
          ∙ (export_flow-SameTable now touched stored).same_active_timeout
      | inr young ↦ ap (λ (x : Exporter). x.active_timeout) (process-keep ip young)
    ]
  ]

-- A packet that arrives at the time `clock`, and what its export would read.
pub record Arrival : Type 0 where
  pub clock : Time
  pub now : Moment
  pub info : PacketInfo

unfoldable pub process_all : List Arrival → Exporter → Exporter
process_all [] e = e
process_all (a ∷ arrivals) e = process_all arrivals (process_packet a.clock a.now a.info e)

-- The arrivals of one flow key.
unfoldable pub of_flow : Bytes → List Arrival → List Arrival
of_flow k [] = []
of_flow k (a ∷ arrivals) =
    let rest = of_flow k arrivals in
    if is_ip a.info && text_eq (make_flow_key a.info) k then a ∷ rest else rest

-- The automaton of one flow, over its own packets.
unfoldable pub flow_run : ℤ → List Arrival → Option Flow → Option Flow
flow_run active_timeout [] flow = flow
flow_run active_timeout (a ∷ arrivals) flow =
    flow_run active_timeout arrivals (flow_step active_timeout a.clock a.info flow)

-- After any packets the table holds under each key what that key's automaton makes of the packets of
-- the key alone, in their order.
pub process_all-refines :
    (arrivals : List Arrival) (e : Exporter) (k : Bytes)
    → lookup k (process_all arrivals e).flows
      ≡ flow_run e.active_timeout (of_flow k arrivals) (lookup k e.flows)
unfolding process_all of_flow flow_run
process_all-refines [] e k = refl
process_all-refines (a ∷ arrivals) e k =
    let e' = process_packet a.clock a.now a.info e in
    let step = lookup-process_packet a.clock a.now a.info e k in
    let rest = process_all-refines arrivals e' k in
    let timeout = process_packet-active_timeout a.clock a.now a.info e in
    elim (Bool-cases (is_ip a.info && text_eq (make_flow_key a.info) k)) [
      | inl mine ↦
          rest
          ∙ rw (timeout, mine)
              (ap (flow_run e.active_timeout (of_flow k arrivals)) (rw mine at step))
      | inr other ↦
          rest
          ∙ rw (timeout, other)
              (ap (flow_run e.active_timeout (of_flow k arrivals)) (rw other at step))
    ]
