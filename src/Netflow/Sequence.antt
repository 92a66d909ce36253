-- ===== src/Netflow/Sequence.antt =====
-- The sequence number of the exporter counts the datagrams, and each datagram carries its own number,
-- through packets, sweeps and the close, in any order.
use tzsp_server.Prelude.{
  ℕ, suc, ◌+◌, ◌%◌, ◌^◌, ◌≡◌, ◌≢◌, refl, subst, false, none, List, [], ◌∷◌, ◌++◌, Bytes, arith,
  Bool-cases, inl, inr, ok, ok-injective,
}
use tzsp_server.Prelude.Int.{ℤ, pos, eqb_ℤ}
use tzsp_server.Netflow.{Flow, Exporter, Moment, datagram, export_flow, new_exporter}
use tzsp_server.Netflow.Steps.{Reach, reach_keeps}

-- Datagrams numbered from `n` on, modulo 2 ^ 32: each is the datagram of a flow with that number.
pub data Numbered : ℕ → List Bytes → Type 0 where
  none_sent : Numbered 0 []
  one_more :
      {n : ℕ} {sent : List Bytes} (now : Moment) (flow : Flow)
      → Numbered n sent
      → Numbered (suc n) (sent ++ datagram now (suc n % 2 ^ 32) flow ∷ [])

pub record InSequence (e : Exporter) : Type 0 where
  pub count : ℕ
  pub numbered : Numbered count e.sent
  pub sequence_is : e.sequence_num ≡ count % 2 ^ 32

export_flow-InSequence :
    (now : Moment) (f : Flow) (e : Exporter) → InSequence e → InSequence (export_flow now f e).0
unfolding export_flow
export_flow-InSequence now f e h = elim (Bool-cases (eqb_ℤ e.version (pos 5))) [
  | inr other ↦ rw other h
  | inl five ↦
      let next : (e.sequence_num + 1) % 2 ^ 32 ≡ suc h.count % 2 ^ 32 =
        omega (arith, h.sequence_is) in
      rw (five, next)
        (record { count = suc h.count; numbered = one_more now f h.numbered; sequence_is = refl })
]

new_exporter-InSequence :
    (collector_addr : Bytes) (version flow_timeout active_timeout : ℤ) (e : Exporter)
    → new_exporter none none collector_addr version flow_timeout active_timeout ≡ ok e
    → InSequence e
unfolding new_exporter
new_exporter-InSequence collector_addr version flow_timeout active_timeout e h =
    subst InSequence (ok-injective _ e h)
      (record { count = 0; numbered = none_sent; sequence_is = omega arith })

-- From a new exporter, every exporter that packets, ticks and closes lead to, in any order, is in
-- sequence: the n-th datagram that it handed to the socket is a flow's datagram with the number n
-- modulo 2 ^ 32, and its sequence number is the count of its datagrams modulo 2 ^ 32.
pub Reach-InSequence :
    (collector_addr : Bytes) (version flow_timeout active_timeout : ℤ) (start e : Exporter)
    → new_exporter none none collector_addr version flow_timeout active_timeout ≡ ok start
    → Reach start e
    → InSequence e
Reach-InSequence collector_addr version flow_timeout active_timeout start e new =
    reach_keeps InSequence export_flow-InSequence
      (λ m e h. record { count = h.count; numbered = h.numbered; sequence_is = h.sequence_is })
      (λ e h. record { count = h.count; numbered = h.numbered; sequence_is = h.sequence_is })
      (new_exporter-InSequence collector_addr version flow_timeout active_timeout start new)

-- An exporter of another version than 5, that has sent what `start` has.
record IsSilent (start e : Exporter) : Type 0 where
  other : eqb_ℤ e.version (pos 5) ≡ false
  same_sent : e.sent ≡ start.sent

export_flow-IsSilent :
    (start : Exporter) (now : Moment) (f : Flow) (e : Exporter)
    → IsSilent start e
    → IsSilent start (export_flow now f e).0
unfolding export_flow
export_flow-IsSilent start now f e h = rw h.other h

-- An exporter that is configured for another version than 5 sends nothing, whatever packets, ticks
-- and closes come.
pub Reach-sent_of_other_version :
    (start e : Exporter) → start.version ≢ pos 5 → Reach start e → e.sent ≡ start.sent
Reach-sent_of_other_version start e h r =
    (reach_keeps (IsSilent start) (export_flow-IsSilent start)
      (λ m e k. record { other = k.other; same_sent = k.same_sent })
      (λ e k. record { other = k.other; same_sent = k.same_sent })
      (record { other = ground arith; same_sent = refl }) r).same_sent
