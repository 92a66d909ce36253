-- ===== src/Netflow/Sweep.antt =====
-- The loops of `expireFlows` and `Close` as one sweep that exports and drops the flows for which a test
-- holds, in any order of the keys.
use tzsp_server.Prelude.{
  ℕ, ◌+◌, ◌%◌, ◌^◌, ◌≡◌, refl, sym, ap, ◌∙◌, Bool, false, ◌||◌, Option, none, some, List, [], ◌∷◌,
  ◌++◌, append-nil, append_assoc, Bytes, All, if◌then◌else◌, arith, Bool-cases, inl, inr,
}
use tzsp_server.Prelude.Int.{pos}
use tzsp_server.Prelude.Text.{text_eq, text_eq_iff}
use tzsp_server.Netflow.{
  Flow, Flows, Exporter, Moment, lookup, datagram, drop_exported, export_flow,
}
use tzsp_server.Netflow.Table.{lookup-delete, export_flow-SameTable}

-- The key is among the keys visited.
abbrev pub visited : Bytes → List Bytes → Bool
visited k [] = false
visited k (key ∷ keys) = text_eq key k || visited k keys

-- No key is visited twice.
abbrev pub Distinct : List Bytes → Type 0
Distinct [] = Unit {0}
Distinct (key ∷ keys) = All (λ k. text_eq key k ≡ false) keys × Distinct keys

module _ (test : Flow → Bool) where
  -- What is left of a flow that is visited: nothing, if the test holds.
  abbrev pub survivor : Option Flow → Option Flow
  survivor none = none
  survivor (some f) = if test f then none else some f

  abbrev pub if_due : Bytes → Option Flow → List (Bytes × Flow) → List (Bytes × Flow)
  if_due key none rest = rest
  if_due key (some f) rest = if test f then (key, f) ∷ rest else rest

  -- The visited flows of a table for which the test holds, in the order of the visits.
  abbrev pub due : List Bytes → Flows → List (Bytes × Flow)
  due [] m = []
  due (key ∷ keys) m = if_due key (lookup key m) (due keys m)

  unfoldable pub sweep_one : Moment → Bytes → Option Flow → Exporter → Exporter
  sweep_one now key none e = e
  sweep_one now key (some f) e = if test f then drop_exported key (export_flow now f e).0 else e

  unfoldable pub sweep : (Bytes → Moment) → List Bytes → Exporter → Exporter
  sweep now [] e = e
  sweep now (key ∷ keys) e = sweep now keys (sweep_one (now key) key (lookup key e.flows) e)

  lookup-sweep_one :
      (now : Moment) (key k : Bytes) (o : Option Flow) (e : Exporter)
      → lookup key e.flows ≡ o
      → lookup k (sweep_one now key o e).flows
        ≡ (if text_eq key k then survivor o else lookup k e.flows)
  unfolding sweep_one
  lookup-sweep_one now key k none e h = ground (arith, text_eq_iff key k)
  lookup-sweep_one now key k (some f) e h = elim (Bool-cases (test f)) [
    | inl old ↦ rw old (
        lookup-delete key k (export_flow now f e).0.flows
        ∙ rw (export_flow-SameTable now f e).same_flows refl)
    | inr young ↦ rw young (ground (arith, text_eq_iff key k))
  ]

  survivor_idem : (o : Option Flow) → survivor (survivor o) ≡ survivor o
  survivor_idem o = ground arith

  pub lookup-sweep :
      (now : Bytes → Moment) (keys : List Bytes) (e : Exporter) (k : Bytes)
      → lookup k (sweep now keys e).flows
        ≡ (if visited k keys then survivor (lookup k e.flows) else lookup k e.flows)
  unfolding sweep
  lookup-sweep now [] e k = refl
  lookup-sweep now (key ∷ keys) e k =
      let e' = sweep_one (now key) key (lookup key e.flows) e in
      lookup-sweep now keys e' k
      ∙ ground (
        arith,
        lookup-sweep_one (now key) key k (lookup key e.flows) e refl,
        text_eq_iff key k,
        survivor_idem (lookup k e.flows),
      )

-- The datagrams of flows that are exported one after the other, behind the sequence number `n`.
unfoldable pub datagrams : (Bytes → Moment) → ℕ → List (Bytes × Flow) → List Bytes
datagrams now n [] = []
datagrams now n ((key, f) ∷ fs) =
    let sequence = (n + 1) % 2 ^ 32 in datagram (now key) sequence f ∷ datagrams now sequence fs

module _ (test : Flow → Bool) where
  -- Visits of other keys do not see that a flow is gone.
  due-sweep_one :
      (now : Moment) (key : Bytes) (keys : List Bytes) (e : Exporter)
      → All (λ k. text_eq key k ≡ false) keys
      → due test keys (sweep_one test now key (lookup key e.flows) e).flows ≡ due test keys e.flows
  due-sweep_one now key [] e h = refl
  due-sweep_one now key (k ∷ keys) e h =
      let other = lookup-sweep_one test now key k (lookup key e.flows) e refl in
      rw (rw h.0 at other)
        (ap (if_due test k (lookup k e.flows)) (due-sweep_one now key keys e h.1))

  sent-sweep_one :
      (now : Bytes → Moment) (key : Bytes) (o : Option Flow) (e : Exporter)
      → e.version ≡ pos 5
      → (sweep_one test (now key) key o e).sent
        ≡ e.sent ++ datagrams now e.sequence_num (if_due test key o [])
  unfolding sweep_one export_flow datagrams
  sent-sweep_one now key none e h = sym (append-nil e.sent)
  sent-sweep_one now key (some f) e h = elim (Bool-cases (test f)) [
    | inl old ↦ rw (old, h) refl
    | inr young ↦ rw young (sym (append-nil e.sent))
  ]

  version-sweep_one :
      (now : Moment) (key : Bytes) (o : Option Flow) (e : Exporter)
      → (sweep_one test now key o e).version ≡ e.version
  unfolding sweep_one
  version-sweep_one now key none e = refl
  version-sweep_one now key (some f) e = elim (Bool-cases (test f)) [
    | inl old ↦ rw old (export_flow-SameTable now f e).same_version
    | inr young ↦ rw young refl
  ]

  -- The datagrams of the first flow due, and those behind it.
  datagrams-if_due :
      (now : Bytes → Moment) (key : Bytes) (o : Option Flow) (e : Exporter)
      (rest : List (Bytes × Flow))
      → e.version ≡ pos 5
      → datagrams now e.sequence_num (if_due test key o [])
          ++ datagrams now (sweep_one test (now key) key o e).sequence_num rest
        ≡ datagrams now e.sequence_num (if_due test key o rest)
  unfolding sweep_one export_flow datagrams
  datagrams-if_due now key none e rest h = refl
  datagrams-if_due now key (some f) e rest h = elim (Bool-cases (test f)) [
    | inl old ↦ rw (old, h) refl
    | inr young ↦ rw young refl
  ]

  pub sent-sweep :
      (now : Bytes → Moment) (keys : List Bytes) (e : Exporter)
      → e.version ≡ pos 5
      → Distinct keys
      → (sweep test now keys e).sent
        ≡ e.sent ++ datagrams now e.sequence_num (due test keys e.flows)
  unfolding sweep
  sent-sweep now [] e h d = unfold datagrams in sym (append-nil e.sent)
  sent-sweep now (key ∷ keys) e h d =
      let o = lookup key e.flows in
      let e' = sweep_one test (now key) key o e in
      sent-sweep now keys e' (version-sweep_one (now key) key o e ∙ h) d.1
      ∙ rw (sent-sweep_one now key o e h, due-sweep_one (now key) key keys e d.0)
          (append_assoc e.sent _ _
            ∙ ap (λ (ds : List Bytes). e.sent ++ ds)
                (datagrams-if_due now key o e (due test keys e.flows) h))
