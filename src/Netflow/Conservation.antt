-- ===== src/Netflow/Conservation.antt =====
-- No packet and no byte is lost or counted twice between the packets, the table and the datagrams.
use tzsp_server.Prelude.{
  ℕ, ◌+◌, ◌%◌, ◌^◌, ◌<◌, ◌≡◌, refl, sym, ap, subst, false, Option, none, List, [], ◌∷◌, Bytes,
  arith, ok, ok-injective,
}
use tzsp_server.Prelude.Int.{ℤ, pos}
use tzsp_server.Net.{to4}
use tzsp_server.Decoder.{PacketInfo}
use tzsp_server.Netflow.{
  Flow, Exporter, Moment, lookup, update_flow, datagram, new_exporter, close, close_flows,
}
use tzsp_server.Netflow.Datagram.{u32_at, shapes, neither, only_src, only_dst, both}
use tzsp_server.Netflow.Ops.{Op, packets_of, run_ops}
use tzsp_server.Netflow.Sweep.{visited, Distinct}
use tzsp_server.Netflow.Expiry.{close_effect}
use tzsp_server.Netflow.Sums.{IsTable, in_table}
use tzsp_server.Netflow.Balance.{
  IsBalanced, carried, brought, run_ops-IsBalanced, close_flows-IsBalanced,
}

-- The two counts of a flow stand in its datagram, whatever the addresses are.
Counts : Flow → Bytes → Type 0
Counts f d =
    (f.packets < 2 ^ 32 → u32_at d 40 ≡ f.packets) × (f.bytes < 2 ^ 32 → u32_at d 44 ≡ f.bytes)

module _ (now : Moment) (sequence : ℕ) (f : Flow) where
  Counts-none : to4 f.src_ip ≡ [] → to4 f.dst_ip ≡ [] → Counts f (datagram now sequence f)
  unfolding datagram Counts
  Counts-none e g = rw (e, g) ((λ h. omega arith), (λ h. omega arith))

  Counts-src :
      (a b c d : ℕ)
      → to4 f.src_ip ≡ a ∷ b ∷ c ∷ d ∷ []
      → to4 f.dst_ip ≡ []
      → Counts f (datagram now sequence f)
  unfolding datagram Counts
  Counts-src a b c d e g = rw (e, g) ((λ h. omega arith), (λ h. omega arith))

  Counts-dst :
      (a b c d : ℕ)
      → to4 f.src_ip ≡ []
      → to4 f.dst_ip ≡ a ∷ b ∷ c ∷ d ∷ []
      → Counts f (datagram now sequence f)
  unfolding datagram Counts
  Counts-dst a b c d e g = rw (e, g) ((λ h. omega arith), (λ h. omega arith))

  Counts-both :
      (a b c d p q r s : ℕ)
      → to4 f.src_ip ≡ a ∷ b ∷ c ∷ d ∷ []
      → to4 f.dst_ip ≡ p ∷ q ∷ r ∷ s ∷ []
      → Counts f (datagram now sequence f)
  unfolding datagram Counts
  Counts-both a b c d p q r s e g = rw (e, g) ((λ h. omega arith), (λ h. omega arith))

  datagram-Counts : Counts f (datagram now sequence f)
  datagram-Counts = elim (shapes f.src_ip f.dst_ip) [
    | neither e g ↦ Counts-none e g
    | only_dst p q r s e g ↦ Counts-dst p q r s e g
    | only_src a b c d e g ↦ Counts-src a b c d e g
    | both a b c d p q r s e g ↦ Counts-both a b c d p q r s e g
  ]

-- What `IsBalanced` is about: the packets of a flow and their bytes.
abbrev pub packets : Flow → ℕ
packets f = f.packets

abbrev pub bytes : Flow → ℕ
bytes f = f.bytes

abbrev pub one : PacketInfo → ℕ
one info = 1

abbrev pub len : PacketInfo → ℕ
len info = info.len

packets_at :
    (now : Moment) (sequence : ℕ) (f : Flow)
    → f.packets < 2 ^ 32
    → u32_at (datagram now sequence f) 40 ≡ f.packets
unfolding Counts
packets_at now sequence f = (datagram-Counts now sequence f).0

bytes_at :
    (now : Moment) (sequence : ℕ) (f : Flow)
    → f.bytes < 2 ^ 32
    → u32_at (datagram now sequence f) 44 ≡ f.bytes
unfolding Counts
bytes_at now sequence f = (datagram-Counts now sequence f).1

bytes_updated :
    (info : PacketInfo) (f : Flow) → (update_flow info f).bytes ≡ (f.bytes + info.len) % 2 ^ 32
bytes_updated info f = omega arith

-- Both balances of an exporter.
abbrev pub Balances : ℕ → ℕ → Exporter → Type 0
Balances n m e = IsBalanced packets 40 n e × IsBalanced bytes 44 m e

pub fresh-Balances :
    (e : Exporter) → e.version ≡ pos 5 → e.flows ≡ [] → e.sent ≡ [] → Balances 0 0 e
fresh-Balances e five no_flows nothing_sent =
    let sums : (measure : Flow → ℕ) (offset : ℕ)
        → carried offset e.sent + in_table measure e.flows ≡ 0 =
      λ measure offset.
        omega (arith, ap (carried offset) nothing_sent, ap (in_table measure) no_flows) in
    let table = subst IsTable (sym no_flows) tt in
    (
      record { five = five; table = table; balance = sums packets 40 },
      record { five = five; table = table; balance = sums bytes 44 },
    )

new_exporter-Balances :
    (collector_addr : Bytes) (flow_timeout active_timeout : ℤ) (e : Exporter)
    → new_exporter none none collector_addr (pos 5) flow_timeout active_timeout ≡ ok e
    → Balances 0 0 e
unfolding new_exporter
new_exporter-Balances collector_addr flow_timeout active_timeout e new =
    let is = ok-injective _ e new in
    fresh-Balances e (ap (λ (x : Exporter). x.version) (sym is))
      (ap (λ (x : Exporter). x.flows) (sym is)) (ap (λ (x : Exporter). x.sent) (sym is))

module _ (ops : List Op) (few : brought one (packets_of ops) < 2 ^ 32)
    (light : brought len (packets_of ops) < 2 ^ 32) where
  pub run_ops-Balances :
      (e : Exporter)
      → Balances 0 0 e
      → Balances (brought one (packets_of ops)) (brought len (packets_of ops)) (run_ops ops e)
  run_ops-Balances e (p, b) = (
    subst (λ (k : ℕ). IsBalanced packets 40 k (run_ops ops e)) (omega arith)
        (run_ops-IsBalanced packets one 40 (λ i. refl) (λ i f. refl) packets_at ops e 0
          (omega (arith, few)) p),
    subst (λ (k : ℕ). IsBalanced bytes 44 k (run_ops ops e)) (omega arith)
        (run_ops-IsBalanced bytes len 44 (λ i. refl) bytes_updated bytes_at ops e 0
          (omega (arith, light)) b),
  )

  close_flows-Balances :
      (now : Bytes → Moment) (keys : List Bytes) (e : Exporter)
      → Balances (brought one (packets_of ops)) (brought len (packets_of ops)) e
      → Balances
          (brought one (packets_of ops))
          (brought len (packets_of ops))
          (close_flows now keys e)
  close_flows-Balances now keys e (p, b) = (
    close_flows-IsBalanced packets one 40 (λ i. refl) (λ i f. refl) packets_at
        (brought one (packets_of ops)) few now keys e p,
    close_flows-IsBalanced bytes len 44 (λ i. refl) bytes_updated bytes_at
        (brought len (packets_of ops)) light now keys e b,
  )

  -- A close that visits each key of the table once leaves all in the datagrams.
  pub close-Balances :
      (now : Bytes → Moment) (keys : List Bytes) (close_error : Option Bytes) (e : Exporter)
      → Balances (brought one (packets_of ops)) (brought len (packets_of ops)) e
      → Distinct keys
      → ((k : Bytes) → visited k keys ≡ false → lookup k e.flows ≡ none)
      → (carried 40 (close now keys close_error e).0.sent ≡ brought one (packets_of ops))
        × (carried 44 (close now keys close_error e).0.sent ≡ brought len (packets_of ops))
  unfolding close
  close-Balances now keys close_error e h distinct complete =
      let (p, b) = close_flows-Balances now keys e h in
      let empty = (close_effect now keys close_error e h.0.five distinct complete).1 in
      (
        omega (arith, p.balance, ap (in_table packets) empty),
        omega (arith, b.balance, ap (in_table bytes) empty),
      )

  module _ (collector_addr : Bytes) (flow_timeout active_timeout : ℤ) (e : Exporter)
      (new : new_exporter none none collector_addr (pos 5) flow_timeout active_timeout ≡ ok e) where
    abbrev balances :
        Balances (brought one (packets_of ops)) (brought len (packets_of ops)) (run_ops ops e)
    balances =
        run_ops-Balances e (new_exporter-Balances collector_addr flow_timeout active_timeout e new)

    -- A version 5 exporter, from its creation through packets and ticks in any order: the packet counts
    -- in the datagrams that it sent and in the flows of its table add up to the packets that had
    -- addresses, and the byte counts to the bytes of these packets, if both sums are below 2 ^ 32.
    pub run_ops-conserves :
        (carried 40 (run_ops ops e).sent + in_table packets (run_ops ops e).flows
          ≡ brought one (packets_of ops))
        × (carried 44 (run_ops ops e).sent + in_table bytes (run_ops ops e).flows
            ≡ brought len (packets_of ops))
    run_ops-conserves = let (p, b) = balances in (p.balance, b.balance)
