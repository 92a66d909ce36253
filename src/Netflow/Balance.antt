-- ===== src/Netflow/Balance.antt =====
-- The balance of the exporter, for a number that a flow counts and that its datagram carries: what the
-- datagrams sent carry and what the table holds is what the packets brought.
use tzsp_server.Prelude.{
  ℕ, ◌+◌, ◌%◌, ◌^◌, ◌<◌, ◌≡◌, refl, ap, ◌∙◌, subst, true, Option, none, some, List, [], ◌∷◌, ◌++◌,
  Bytes, arith, Bool-cases, inl, inr, if◌then◌else◌,
}
use tzsp_server.Prelude.Int.{pos, leb_ℤ, eqb_ℤ}
use tzsp_server.Prelude.Text.{text_eq_refl}
use tzsp_server.Tzsp.{Time}
use tzsp_server.Decoder.{PacketInfo}
use tzsp_server.Netflow.{
  Flow, Exporter, Moment, lookup, make_flow_key, new_flow, get_or_new, update_flow, since, datagram,
  export_flow, drop_exported, process_packet, expire_one, expire_flows, close_one, close_flows,
}
use tzsp_server.Netflow.Table.{
  Arrival, is_ip, touched, stored, expired, process-skip, process-keep, process-export,
  lookup-insert, export_flow-SameTable,
}
use tzsp_server.Netflow.Datagram.{u32_at}
use tzsp_server.Netflow.Ops.{Op, arrive, tick, packets_of, run_ops}
use tzsp_server.Netflow.Sums.{
  IsTable, insert-IsTable, delete-IsTable, in_table, of_option, in_table-insert, in_table-delete,
  of_option-le,
}

-- The number at an offset, over all datagrams.
abbrev pub carried : ℕ → List Bytes → ℕ
carried offset [] = 0
carried offset (d ∷ ds) = u32_at d offset + carried offset ds

carried-append :
    (offset : ℕ) (ds es : List Bytes)
    → carried offset (ds ++ es) ≡ carried offset ds + carried offset es
carried-append offset [] es = omega arith
carried-append offset (d ∷ ds) es = omega (arith, carried-append offset ds es)

-- What the packets of a run bring: packets with no address are not counted.
abbrev pub weight_of : (PacketInfo → ℕ) → PacketInfo → ℕ
weight_of weight info = if is_ip info then weight info else 0

unfoldable pub brought : (PacketInfo → ℕ) → List Arrival → ℕ
brought weight [] = 0
brought weight (a ∷ xs) = weight_of weight a.info + brought weight xs

-- A version 5 exporter whose datagrams and table together hold `n`.
pub record IsBalanced (measure : Flow → ℕ) (offset n : ℕ) (e : Exporter) : Type 0 where
  pub five : e.version ≡ pos 5
  pub table : IsTable e.flows
  pub balance : carried offset e.sent + in_table measure e.flows ≡ n

module _ (measure : Flow → ℕ) (weight : PacketInfo → ℕ) (offset : ℕ)
    (of_new : (info : PacketInfo) → measure (new_flow info) ≡ 0)
    (of_update : (info : PacketInfo) (f : Flow)
      → measure (update_flow info f) ≡ (measure f + weight info) % 2 ^ 32)
    (of_datagram : (now : Moment) (sequence : ℕ) (f : Flow)
      → measure f < 2 ^ 32
      → u32_at (datagram now sequence f) offset ≡ measure f) where
  export_flow-carried :
      (now : Moment) (f : Flow) (e : Exporter)
      → e.version ≡ pos 5
      → measure f < 2 ^ 32
      → carried offset (export_flow now f e).0.sent ≡ carried offset e.sent + measure f
  unfolding export_flow
  export_flow-carried now f e five fits =
      let is_five : eqb_ℤ e.version (pos 5) ≡ true = ap (λ v. eqb_ℤ v (pos 5)) five in
      let d = datagram now ((e.sequence_num + 1) % 2 ^ 32) f in
      rw is_five (
        omega (
          arith,
          carried-append offset e.sent (d ∷ []),
          of_datagram now ((e.sequence_num + 1) % 2 ^ 32) f fits,
        ))

  -- The export of a flow of the table and its deletion keep the balance.
  drop_exported-IsBalanced :
      (now : Moment) (key : Bytes) (f : Flow) (e : Exporter) (n : ℕ)
      → n < 2 ^ 32
      → lookup key e.flows ≡ some f
      → IsBalanced measure offset n e
      → IsBalanced measure offset n (drop_exported key (export_flow now f e).0)
  drop_exported-IsBalanced now key f e n few at h =
      let same = export_flow-SameTable now f e in
      let holds : of_option measure (lookup key e.flows) ≡ measure f = ap (of_option measure) at in
      let small = of_option-le measure key e.flows in
      let sent = export_flow-carried now f e h.five (omega (arith, h.balance)) in
      let rest = in_table-delete measure key e.flows h.table in
      record {
        five = same.same_version ∙ h.five;
        table = rw same.same_flows (delete-IsTable key e.flows h.table);
        balance = rw same.same_flows (omega (arith, h.balance));
      }

  get_or_new-measure :
      (info : PacketInfo) (o : Option Flow) → measure (get_or_new info o) ≡ of_option measure o
  get_or_new-measure info none = of_new info
  get_or_new-measure info (some f) = refl

  module _ (clock : Time) (now : Moment) (info : PacketInfo) (e : Exporter) (n : ℕ)
      (h : IsBalanced measure offset n e) (few : n + weight_of weight info < 2 ^ 32) where
    -- The flow with the packet counted, in the table.
    stored-IsBalanced :
        is_ip info ≡ true
        → IsBalanced measure offset (n + weight_of weight info) (stored clock now info e)
    stored-IsBalanced ip =
        let key = make_flow_key info in
        let o = lookup key e.flows in
        let t = touched clock now info e in
        let counts : weight_of weight info ≡ weight info = rw ip refl in
        let old = get_or_new-measure info o in
        let new = of_update info (get_or_new info o) in
        let small = of_option-le measure key e.flows in
        let sum = in_table-insert measure key t e.flows in
        record {
          five = h.five;
          table = insert-IsTable key t e.flows h.table;
          balance = omega (arith, h.balance);
        }

    process_packet-IsBalanced :
        IsBalanced measure offset (n + weight_of weight info) (process_packet clock now info e)
    process_packet-IsBalanced = elim (Bool-cases (is_ip info)) [
      | inr no_ip ↦
          let nothing : n + weight_of weight info ≡ n = rw no_ip (omega arith) in
          rw (process-skip clock now info e no_ip, nothing) h
      | inl ip ↦ elim (Bool-cases (expired clock now info e)) [
        | inr young ↦ rw (process-keep clock now info e ip young) (stored-IsBalanced ip)
        | inl old ↦
            let key = make_flow_key info in
            let t = touched clock now info e in
            let there = lookup-insert key key t e.flows ∙ rw (text_eq_refl key) refl in
            rw (process-export clock now info e ip old) (
              drop_exported-IsBalanced now key t (stored clock now info e)
                (n + weight_of weight info) few there (stored-IsBalanced ip))
      ]
    ]

  module _ (n : ℕ) (few : n < 2 ^ 32) where
    expire_one-IsBalanced :
        (clock : Time) (now : Moment) (key : Bytes) (o : Option Flow) (e : Exporter)
        → lookup key e.flows ≡ o
        → IsBalanced measure offset n e
        → IsBalanced measure offset n (expire_one clock now key o e)
    unfolding expire_one
    expire_one-IsBalanced clock now key none e at h = h
    expire_one-IsBalanced clock now key (some f) e at h =
        elim (Bool-cases (leb_ℤ e.flow_timeout (since clock f.last_seen))) [
          | inl idle ↦ rw idle (drop_exported-IsBalanced now key f e n few at h)
          | inr busy ↦ rw busy h
        ]

    expire_flows-IsBalanced :
        (clock : Time) (now : Bytes → Moment) (keys : List Bytes) (e : Exporter)
        → IsBalanced measure offset n e
        → IsBalanced measure offset n (expire_flows clock now keys e)
    unfolding expire_flows
    expire_flows-IsBalanced clock now [] e h = h
    expire_flows-IsBalanced clock now (key ∷ keys) e h =
        expire_flows-IsBalanced clock now keys _
          (expire_one-IsBalanced clock (now key) key (lookup key e.flows) e refl h)

    close_one-IsBalanced :
        (now : Moment) (key : Bytes) (o : Option Flow) (e : Exporter)
        → lookup key e.flows ≡ o
        → IsBalanced measure offset n e
        → IsBalanced measure offset n (close_one now key o e)
    unfolding close_one
    close_one-IsBalanced now key none e at h = h
    close_one-IsBalanced now key (some f) e at h = drop_exported-IsBalanced now key f e n few at h

    pub close_flows-IsBalanced :
        (now : Bytes → Moment) (keys : List Bytes) (e : Exporter)
        → IsBalanced measure offset n e
        → IsBalanced measure offset n (close_flows now keys e)
    unfolding close_flows
    close_flows-IsBalanced now [] e h = h
    close_flows-IsBalanced now (key ∷ keys) e h =
        close_flows-IsBalanced now keys _
          (close_one-IsBalanced (now key) key (lookup key e.flows) e refl h)

  pub run_ops-IsBalanced :
      (ops : List Op) (e : Exporter) (n : ℕ)
      → n + brought weight (packets_of ops) < 2 ^ 32
      → IsBalanced measure offset n e
      → IsBalanced measure offset (n + brought weight (packets_of ops)) (run_ops ops e)
  unfolding run_ops brought packets_of
  run_ops-IsBalanced [] e n few h = subst (λ (k : ℕ). IsBalanced measure offset k e) (omega arith) h
  run_ops-IsBalanced (arrive a ∷ ops) e n few h =
      let step = process_packet-IsBalanced a.clock a.now a.info e n h (omega arith) in
      subst
        (λ (k : ℕ).
          IsBalanced measure offset k (run_ops ops (process_packet a.clock a.now a.info e)))
        (omega arith) (run_ops-IsBalanced ops _ (n + weight_of weight a.info) (omega arith) step)
  run_ops-IsBalanced (tick t ∷ ops) e n few h =
      run_ops-IsBalanced ops _ n few
        (expire_flows-IsBalanced n (omega arith) t.clock t.now t.keys e h)
