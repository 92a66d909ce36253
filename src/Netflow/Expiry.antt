-- ===== src/Netflow/Expiry.antt =====
-- What a tick of `expireFlows` and `Close` export and keep, whatever the order of the iteration.
use tzsp_server.Prelude.{
  ◌≡◌, refl, ap, ◌∙◌, Bool, true, false, Option, none, some, List, [], ◌∷◌, ◌++◌, Bytes,
  if◌then◌else◌, Bool-cases, inl, inr,
}
use tzsp_server.Prelude.Int.{ℤ, pos, leb_ℤ}
use tzsp_server.Prelude.Text.{text_eq_refl}
use tzsp_server.Tzsp.{Time}
use tzsp_server.Netflow.{
  Flow, Flows, Exporter, Moment, lookup, since, expire_one, expire_flows, close_one, close_flows,
  close,
}
use tzsp_server.Netflow.Table.{export_flow-SameTable}
use tzsp_server.Netflow.Sweep.{
  visited, Distinct, survivor, due, datagrams, sweep_one, sweep, lookup-sweep, sent-sweep,
}

abbrev pub is_idle : ℤ → Time → Flow → Bool
is_idle flow_timeout clock f = leb_ℤ flow_timeout (since clock f.last_seen)

module _ (clock : Time) where
  expire_one-sweep_one :
      (now : Moment) (key : Bytes) (o : Option Flow) (e : Exporter) (timeout : ℤ)
      → e.flow_timeout ≡ timeout
      → expire_one clock now key o e ≡ sweep_one (is_idle timeout clock) now key o e
  unfolding expire_one sweep_one
  expire_one-sweep_one now key none e timeout h = refl
  expire_one-sweep_one now key (some f) e timeout h = rw h refl

  expire_one-flow_timeout :
      (now : Moment) (key : Bytes) (o : Option Flow) (e : Exporter)
      → (expire_one clock now key o e).flow_timeout ≡ e.flow_timeout
  unfolding expire_one
  expire_one-flow_timeout now key none e = refl
  expire_one-flow_timeout now key (some f) e = elim (Bool-cases (is_idle e.flow_timeout clock f)) [
    | inl idle ↦ rw idle (export_flow-SameTable now f e).same_flow_timeout
    | inr busy ↦ rw busy refl
  ]

  expire_flows-sweep :
      (now : Bytes → Moment) (keys : List Bytes) (e : Exporter) (timeout : ℤ)
      → e.flow_timeout ≡ timeout
      → expire_flows clock now keys e ≡ sweep (is_idle timeout clock) now keys e
  unfolding expire_flows sweep
  expire_flows-sweep now [] e timeout h = refl
  expire_flows-sweep now (key ∷ keys) e timeout h =
      let o = lookup key e.flows in
      expire_flows-sweep now keys (expire_one clock (now key) key o e) timeout
        (expire_one-flow_timeout (now key) key o e ∙ h)
      ∙ ap (sweep (is_idle timeout clock) now keys)
          (expire_one-sweep_one (now key) key o e timeout h)

pub lookup-expire_flows :
    (clock : Time) (now : Bytes → Moment) (keys : List Bytes) (e : Exporter) (k : Bytes)
    → lookup k (expire_flows clock now keys e).flows ≡ (
        if visited k keys
        then survivor (is_idle e.flow_timeout clock) (lookup k e.flows)
        else lookup k e.flows)
lookup-expire_flows clock now keys e k =
    ap (λ (x : Exporter). lookup k x.flows)
      (expire_flows-sweep clock now keys e e.flow_timeout refl)
    ∙ lookup-sweep (is_idle e.flow_timeout clock) now keys e k

-- A tick at the time `clock` that visits distinct keys, of a version 5 exporter: the datagrams of the
-- visited flows that have been idle for the flow timeout are sent, in the order of the visits; such
-- flows are gone from the table, and every other flow is as it was.
pub expire_flows_effect :
    (clock : Time) (now : Bytes → Moment) (keys : List Bytes) (e : Exporter)
    → e.version ≡ pos 5
    → Distinct keys
    → ((expire_flows clock now keys e).sent
        ≡ e.sent ++ datagrams now e.sequence_num (due (is_idle e.flow_timeout clock) keys e.flows))
      × ((k : Bytes)
          → lookup k (expire_flows clock now keys e).flows ≡ (
              if visited k keys
              then survivor (is_idle e.flow_timeout clock) (lookup k e.flows)
              else lookup k e.flows))
expire_flows_effect clock now keys e five distinct =
    let same = expire_flows-sweep clock now keys e e.flow_timeout refl in
    let test = is_idle e.flow_timeout clock in
    (
      ap (λ (x : Exporter). x.sent) same ∙ sent-sweep test now keys e five distinct,
      lookup-expire_flows clock now keys e,
    )

close_one-sweep_one :
    (now : Moment) (key : Bytes) (o : Option Flow) (e : Exporter)
    → close_one now key o e ≡ sweep_one (λ f. true) now key o e
unfolding close_one sweep_one
close_one-sweep_one now key none e = refl
close_one-sweep_one now key (some f) e = refl

close_flows-sweep :
    (now : Bytes → Moment) (keys : List Bytes) (e : Exporter)
    → close_flows now keys e ≡ sweep (λ f. true) now keys e
unfolding close_flows sweep
close_flows-sweep now [] e = refl
close_flows-sweep now (key ∷ keys) e =
    let o = lookup key e.flows in
    close_flows-sweep now keys (close_one (now key) key o e)
    ∙ ap (sweep (λ f. true) now keys) (close_one-sweep_one (now key) key o e)

-- A table in which no key is found is empty.
lookup-empty : (m : Flows) → ((k : Bytes) → lookup k m ≡ none) → m ≡ []
unfolding lookup
lookup-empty [] h = refl
lookup-empty ((k, f) ∷ m) h = absurd (cc (rw (text_eq_refl k) at (h k)))

gone :
    (b : Bool) (o : Option Flow)
    → (b ≡ false → o ≡ none)
    → (if b then survivor (λ f. true) o else o) ≡ none
gone true none h = refl
gone true (some f) h = refl
gone false o h = h refl

-- `Close`, in an iteration that visits each key of the table once, of a version 5 exporter: the
-- datagrams of all flows are sent, one for each flow, in the order of the visits, and the table is
-- empty.
pub close_effect :
    (now : Bytes → Moment) (keys : List Bytes) (close_error : Option Bytes) (e : Exporter)
    → e.version ≡ pos 5
    → Distinct keys
    → ((k : Bytes) → visited k keys ≡ false → lookup k e.flows ≡ none)
    → ((close now keys close_error e).0.sent
        ≡ e.sent ++ datagrams now e.sequence_num (due (λ f. true) keys e.flows))
      × ((close now keys close_error e).0.flows ≡ [])
unfolding close
close_effect now keys close_error e five distinct complete =
    let same = close_flows-sweep now keys e in
    (
      ap (λ (x : Exporter). x.sent) same ∙ sent-sweep (λ f. true) now keys e five distinct,
      lookup-empty _ (λ k.
          ap (λ (x : Exporter). lookup k x.flows) same
          ∙ lookup-sweep (λ f. true) now keys e k
          ∙ gone (visited k keys) (lookup k e.flows) (complete k)),
    )
