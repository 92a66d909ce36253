-- ===== src/Netflow/Ops.antt =====
-- A run of the exporter as a list of what happens to it: packets, and ticks of the sweeper between them.
use tzsp_server.Prelude.{◌∙◌, ap, ◌≡◌, refl, List, [], ◌∷◌, ◌++◌}
use tzsp_server.Netflow.{Exporter, Tick, on_tick, process_packet}
use tzsp_server.Netflow.Table.{Arrival, export_flow-SameTable}
use tzsp_server.Netflow.Steps.{Step, packet, Reach, here, next, reach_keeps}

pub data Op : Type 0 where
  arrive : Arrival → Op
  tick : Tick → Op

abbrev pub apply : Op → Exporter → Exporter
apply (arrive a) e = process_packet a.clock a.now a.info e
apply (tick t) e = on_tick t e

unfoldable pub run_ops : List Op → Exporter → Exporter
run_ops [] e = e
run_ops (op ∷ ops) e = run_ops ops (apply op e)

-- The packets of a run.
unfoldable pub packets_of : List Op → List Arrival
packets_of [] = []
packets_of (arrive a ∷ ops) = a ∷ packets_of ops
packets_of (tick t ∷ ops) = packets_of ops

pub run_ops-append :
    (xs ys : List Op) (e : Exporter) → run_ops (xs ++ ys) e ≡ run_ops ys (run_ops xs e)
unfolding run_ops
run_ops-append [] ys e = refl
run_ops-append (x ∷ xs) ys e = run_ops-append xs ys (apply x e)

pub packets_of-append : (xs ys : List Op) → packets_of (xs ++ ys) ≡ packets_of xs ++ packets_of ys
unfolding packets_of
packets_of-append [] ys = refl
packets_of-append (arrive a ∷ xs) ys = ap (λ xs. a ∷ xs) (packets_of-append xs ys)
packets_of-append (tick t ∷ xs) ys = packets_of-append xs ys

-- Ticks with no packet between them.
unfoldable pub ticks_only : List Tick → List Op
ticks_only [] = []
ticks_only (t ∷ ts) = tick t ∷ ticks_only ts

pub packets_of-ticks_only : (ts : List Tick) → packets_of (ticks_only ts) ≡ []
unfolding packets_of ticks_only
packets_of-ticks_only [] = refl
packets_of-ticks_only (t ∷ ts) = packets_of-ticks_only ts

run-Reach : (ops : List Op) (start e : Exporter) → Reach start e → Reach start (run_ops ops e)
unfolding run_ops
run-Reach [] start e r = r
run-Reach (arrive a ∷ ops) start e r =
    run-Reach ops start (process_packet a.clock a.now a.info e)
      (next r (packet a.clock a.now a.info))
run-Reach (tick t ∷ ops) start e r =
    run-Reach ops start (on_tick t e) (next r (Step.tick t.clock t.now t.keys))

pub run_ops-Reach : (ops : List Op) (e : Exporter) → Reach e (run_ops ops e)
run_ops-Reach ops e = run-Reach ops e e here

pub run_ops-version : (ops : List Op) (e : Exporter) → (run_ops ops e).version ≡ e.version
run_ops-version ops e =
    reach_keeps (λ x. x.version ≡ e.version)
      (λ now f x h. (export_flow-SameTable now f x).same_version ∙ h) (λ m x h. h) (λ x h. h) refl
      (run_ops-Reach ops e)
