-- ===== src/Main/Whole.antt =====
-- The whole program, from the configuration to the exit that a signal brings.
use mathlib.Core.Option
use tzsp_server.Prelude.{
  ℕ, ◌≤◌, ◌≡◌, refl, sym, ap, ◌∙◌, true, false, Option, none, ◌<◌, ◌^◌, append-nil, some, List, [],
  ◌∷◌, ◌++◌, Bytes, ok, subst, arith,
}
use tzsp_server.Prelude.Int.{pos}
use tzsp_server.Decoder.{Dissection}
use tzsp_server.Netflow.{Exporter, Tick, on_tick, lookup, close}
use tzsp_server.Netflow.Table.{Arrival}
use tzsp_server.Netflow.Ops.{
  Op, run_ops, run_ops-append, run_ops-version, packets_of, packets_of-append, ticks_only,
  packets_of-ticks_only,
}
use tzsp_server.Netflow.Sweep.{visited, Distinct, due, datagrams}
use tzsp_server.Netflow.Expiry.{close_effect}
use tzsp_server.Netflow.Balance.{carried, brought}
use tzsp_server.Netflow.Conservation.{one, len, fresh-Balances, run_ops-Balances, close-Balances}
use tzsp_server.Config
use tzsp_server.Server.{Server, Event, start, receive_loop, room, max_alloc, out_of_range}
use tzsp_server.Server.Streams.{
  frames, sightings, arrivals, capture_all, netflow_ops, packets_of-netflow_ops,
}
use tzsp_server.Server.Outputs.{Outputs}
use tzsp_server.Server.Run.{receive_loop-IsCounting}
use tzsp_server.Server.Counters.{IsCounting}
use tzsp_server.Main.{
  Surface, Closing, terminated, sweeps, close_netflow, shut_down, wire, run, run_wired, ended,
}
use tzsp_server.Main.Wiring.{IsFresh, wire-IsWired, on, off}

-- The configured buffer has `n` bytes, and no more than can be allocated.
pub record HasRoom (cfg : Config.Config) (n : ℕ) : Type 0 where
  pub is_size : cfg.server.buffer_size ≡ pos n
  pub allocatable : n ≤ max_alloc

some-injective : {A : Type 0} (x y : A) → some x ≡ some y → x ≡ y
some-injective x y e = cc

-- The ticks behind the receive loop are the end of the exporter's run.
sweeps-run_ops : (ts : List Tick) (e : Exporter) → sweeps ts e ≡ run_ops (ticks_only ts) e
unfolding sweeps run_ops ticks_only
sweeps-run_ops [] e = refl
sweeps-run_ops (t ∷ ts) e = sweeps-run_ops ts (on_tick t e)

-- The close of an exporter behind the ticks `ts`.
abbrev closed : Closing → Exporter → Exporter
closed c e = (close c.now c.keys c.close_error e).0

close_netflow-run_ops :
    (c : Closing) (ops : List Op) (o : Option Exporter)
    → Option.map (close_netflow c) (Option.map (run_ops ops) o)
      ≡ Option.map (λ e. closed c (run_ops (ops ++ ticks_only c.ticks) e)) o
close_netflow-run_ops c ops none = refl
close_netflow-run_ops c ops (some e) =
    ap (λ x. some (closed c x))
      (sweeps-run_ops c.ticks (run_ops ops e) ∙ sym (run_ops-append ops (ticks_only c.ticks) e))

module _ (dissect : Bytes → Dissection) (surface : Surface) (cfg : Config.Config)
    (events : List Event) (c : Closing) (s0 : Server) (n : ℕ) (wired : wire surface cfg ≡ ok s0)
    (size : HasRoom cfg n) where
  -- What happens to the NetFlow exporter before its close.
  abbrev whole_ops : List Op
  whole_ops = netflow_ops dissect n events ++ ticks_only c.ticks

  -- The packets among it.
  abbrev seen : List Arrival
  seen = arrivals (sightings dissect (frames n events))

  packets_of-whole_ops : packets_of whole_ops ≡ seen
  packets_of-whole_ops =
      packets_of-append (netflow_ops dissect n events) (ticks_only c.ticks)
      ∙ rw (packets_of-ticks_only c.ticks, packets_of-netflow_ops dissect n events)
          (append-nil seen)

  start_runs :
      (s' : Server)
      → s0.buffer_size ≡ pos n
      → receive_loop dissect events s0 ≡ some s'
      → start dissect none none events s0 ≡ ok s'
  unfolding start
  start_runs s' is_size loop =
      let in_range : out_of_range (pos n) ≡ false = ground (arith, size.allocatable) in
      let fits : out_of_range s0.buffer_size ≡ false = ap out_of_range is_size ∙ in_range in
      rw (fits, loop) refl

  pub run-Outputs :
      (s' : Server) × (run dissect surface cfg none none events c ≡ terminated (shut_down c s'))
      × Outputs dissect (frames n events) (netflow_ops dissect n events) s0 s'
      × IsCounting s'
  unfolding run
  run-Outputs =
      let w = wire-IsWired surface cfg s0 wired in
      let is_size = w.same_size ∙ size.is_size in
      let (s', loop, outputs, counting) = receive_loop-IsCounting dissect events s0 w.counting in
      (
        s',
        ap (run_wired dissect none none events c) wired ∙ ap (ended c) (start_runs s' is_size loop),
        subst (λ (m : ℕ). Outputs dissect (frames m events) (netflow_ops dissect m events) s0 s')
            (ap room is_size) outputs,
        counting,
      )

  -- A program whose outputs are made and whose server starts runs until the signal and terminates; the
  -- PCAP file then holds what the writer makes of all frames before the signal, and the NetFlow exporter
  -- is what its close makes of the packets seen before the signal and of the ticks between and behind
  -- them.
  pub run-terminated :
      (s' : Server) × (run dissect surface cfg none none events c ≡ terminated s')
      × ((s'.pcap_writer, s'.directory)
          ≡ capture_all (frames n events) (s0.pcap_writer, s0.directory))
      × (s'.netflow_exp ≡ Option.map (λ e. closed c (run_ops whole_ops e)) s0.netflow_exp)
  unfolding shut_down
  run-terminated =
      let (s', ends, outputs, counting) = run-Outputs in
      (
        shut_down c s',
        ends,
        outputs.capture_is,
        ap (Option.map (close_netflow c)) outputs.netflow_is
            ∙ close_netflow-run_ops c (netflow_ops dissect n events) s0.netflow_exp,
      )

  module _ (e0 : Exporter) (has : s0.netflow_exp ≡ some e0)
      (five : cfg.output.netflow.version ≡ pos 5) (distinct : Distinct c.keys)
      (complete : (k : Bytes)
        → visited k c.keys ≡ false
        → lookup k (run_ops whole_ops e0).flows ≡ none) where
    is_fresh : IsFresh cfg.output.netflow e0
    is_fresh = elim (wire-IsWired surface cfg s0 wired).netflow_is [
      | on x enabled is_x fresh ↦
          subst (IsFresh cfg.output.netflow) (some-injective x e0 (sym is_x ∙ has)) fresh
      | off disabled is_none ↦ absurd (cc (has, is_none))
    ]

    -- The close empties the table.
    closes :
        ((closed c (run_ops whole_ops e0)).sent
          ≡ (run_ops whole_ops e0).sent
            ++ datagrams c.now
                (run_ops whole_ops e0).sequence_num
                (due (λ f. true) c.keys (run_ops whole_ops e0).flows))
        × ((closed c (run_ops whole_ops e0)).flows ≡ [])
    closes =
        close_effect c.now c.keys c.close_error (run_ops whole_ops e0)
          (run_ops-version whole_ops e0 ∙ is_fresh.same_version ∙ five) distinct complete

    pub closed_empty : (closed c (run_ops whole_ops e0)).flows ≡ []
    closed_empty = closes.1

    pub closed_is :
        (s' : Server)
        → Outputs dissect (frames n events) (netflow_ops dissect n events) s0 s'
        → (shut_down c s').netflow_exp ≡ some (closed c (run_ops whole_ops e0))
    unfolding shut_down
    closed_is s' outputs =
        ap (Option.map (close_netflow c)) outputs.netflow_is
        ∙ close_netflow-run_ops c (netflow_ops dissect n events) s0.netflow_exp
        ∙ ap (Option.map (λ e. closed c (run_ops whole_ops e))) has

    -- If NetFlow is enabled with version 5, the buffer can be allocated, and the receive loop has ended
    -- with its last datagram before the deferred closes, as `run` puts them, then the close leaves no
    -- flow behind: in an iteration that visits each key of the table once, it hands the socket the
    -- datagram of every flow that the packets made and that was still in the table, whether or not the
    -- socket takes it, and the table is empty.
    pub run-close_effect :
        (s' : Server) × (e' : Exporter) × (run dissect surface cfg none none events c
          ≡ terminated s')
        × (s'.netflow_exp ≡ some e')
        × (e'.flows ≡ [])
        × (e'.sent
            ≡ (run_ops whole_ops e0).sent
              ++ datagrams c.now
                  (run_ops whole_ops e0).sequence_num
                  (due (λ f. true) c.keys (run_ops whole_ops e0).flows))
    run-close_effect =
        let (s', ends, outputs, counting) = run-Outputs in
        let (sent, flows) = closes in
        (shut_down c s', closed c (run_ops whole_ops e0), ends, closed_is s' outputs, flows, sent)

    -- If NetFlow is enabled with version 5, the buffer can be allocated, the close visits each key of
    -- the table once, and the receive loop has ended before the closes, as `run` puts them, then the
    -- datagrams that the run handed to the socket, those whose `Write` failed among them, account for
    -- the traffic: their packet counts add up to the frames with addresses that were processed before
    -- the closes, and their byte counts to the bytes of these frames, whenever the sweeper ticked, if
    -- both sums are below 2 ^ 32.
    pub run-conserves :
        brought one seen < 2 ^ 32
        → brought len seen < 2 ^ 32
        → (s' : Server) × (e' : Exporter) × (run dissect surface cfg none none events c
            ≡ terminated s')
          × (s'.netflow_exp ≡ some e')
          × (carried 40 e'.sent ≡ brought one seen)
          × (carried 44 e'.sent ≡ brought len seen)
    run-conserves few light =
        let (s', ends, outputs, counting) = run-Outputs in
        let e = run_ops whole_ops e0 in
        let few' = subst (λ xs. brought one xs < 2 ^ 32) (sym packets_of-whole_ops) few in
        let light' = subst (λ xs. brought len xs < 2 ^ 32) (sym packets_of-whole_ops) light in
        let start =
          fresh-Balances e0 (is_fresh.same_version ∙ five) is_fresh.no_flows
            is_fresh.nothing_sent in
        let balances = run_ops-Balances whole_ops few' light' e0 start in
        let (p, b) =
          close-Balances whole_ops few' light' c.now c.keys c.close_error e balances distinct
            complete in
        (
          shut_down c s',
          closed c e,
          ends,
          closed_is s' outputs,
          p ∙ ap (brought one) packets_of-whole_ops,
          b ∙ ap (brought len) packets_of-whole_ops,
        )
