-- ===== src/Main/Overtaken.antt =====
-- A datagram that is still on its way through the receive loop when the outputs close.
use mathlib.Core.Option
use tzsp_server.Prelude.{
  ℕ, ◌≡◌, refl, ap, ◌∙◌, true, false, none, some, List, [], ◌∷◌, ◌++◌, Bytes, length, take, ◌==◌,
  ok,
}
use tzsp_server.Prelude.Int.{pos, leb_ℤ}
use tzsp_server.Tzsp
use tzsp_server.Tzsp.{Packet}
use tzsp_server.Decoder.{PacketInfo, Dissection}
use tzsp_server.Netflow.{Exporter, lookup, since, close}
use tzsp_server.Netflow.Table.{is_ip}
use tzsp_server.Netflow.Ops.{Op, arrive, run_ops, ticks_only}
use tzsp_server.Netflow.Sweep.{visited, Distinct}
use tzsp_server.Netflow.Late.{alone, process_packet-alone, close-active_timeout}
use tzsp_server.Config
use tzsp_server.Server.{Server, Surroundings, Event, datagram, cancelled, room}
use tzsp_server.Server.Streams.{frame_of, arrival_of, description, netflow_ops}
use tzsp_server.Server.Counters.{IsCounting}
use tzsp_server.Server.Run.{receive_loop-Outputs}
use tzsp_server.Main.{Surface, Closing, terminated, shut_down, wire, run, overtaken, behind_closes}
use tzsp_server.Main.Wiring.{wire-IsWired}
use tzsp_server.Main.Whole.{HasRoom, run-Outputs, closed_empty, closed_is}

module _ (dissect : Bytes → Dissection) (surface : Surface) (cfg : Config.Config)
    (events : List Event) (c : Closing) (s0 : Server) (n : ℕ) (wired : wire surface cfg ≡ ok s0)
    (size : HasRoom cfg n) (e0 : Exporter) (has : s0.netflow_exp ≡ some e0)
    (five : cfg.output.netflow.version ≡ pos 5) (distinct : Distinct c.keys)
    (complete : (k : Bytes)
      → visited k c.keys ≡ false
      → lookup k (run_ops (netflow_ops dissect n events ++ ticks_only c.ticks) e0).flows ≡ none)
    (env : Surroundings) (bytes source_addr : Bytes) (p : Packet) (info : PacketInfo)
    (decoded : Tzsp.decode (take n bytes) source_addr env.received_time ≡ ok p)
    (has_frame : (length p.encap_packet == 0) ≡ false)
    (described : description dissect (frame_of env p) ≡ (info, none)) (ip : is_ip info ≡ true)
    (young : leb_ℤ e0.active_timeout (since env.netflow_clock info.timestamp) ≡ false) where
  abbrev last : Event
  last = datagram env bytes source_addr

  one_op : netflow_ops dissect n (last ∷ cancelled ∷ []) ≡ arrive (arrival_of env info) ∷ []
  unfolding netflow_ops
  one_op = rw (decoded, has_frame, described) refl

  -- What happened to the exporter up to its close.
  abbrev ops : List Op
  ops = netflow_ops dissect n events ++ ticks_only c.ticks

  abbrev closed : Exporter
  closed = (close c.now c.keys c.close_error (run_ops ops e0)).0

  late_alone :
      ((run_ops (arrive (arrival_of env info) ∷ []) closed).flows ≡ alone info)
      × ((run_ops (arrive (arrival_of env info) ∷ []) closed).sent ≡ closed.sent)
  unfolding run_ops
  late_alone =
      process_packet-alone env.netflow_clock env.netflow_moment info closed
        (closed_empty dissect surface cfg events c s0 n wired size e0 has five distinct complete) ip
        (ap (λ t. leb_ℤ t (since env.netflow_clock info.timestamp))
            (close-active_timeout c.now c.keys c.close_error ops e0)
          ∙ young)

  -- The program does not wait for a datagram that is in work at the signal. If NetFlow is enabled with
  -- version 5, the buffer can be allocated, the close visits each key of the table once, and the datagram
  -- gets to the exporter behind the close, with a frame that has addresses and is not older than the
  -- active timeout, then its flow stays in the table, alone, and the datagrams sent are those up to the
  -- close and no more.
  pub run-overtaken :
      (s' : Server) × (e' : Exporter) × (overtaken dissect last
          (run dissect surface cfg none none events c)
        ≡ terminated s')
      × (s'.netflow_exp ≡ some e')
      × (e'.flows ≡ alone info)
      × (e'.sent ≡ closed.sent)
  unfolding overtaken shut_down
  run-overtaken =
      let (s1, ends, outputs, counting) =
        run-Outputs dissect surface cfg events c s0 n wired size in
      let s2 = shut_down c s1 in
      let counting2 : IsCounting s2 = record {
        received_fits = counting.received_fits;
        decoded_fits = counting.decoded_fits;
        written_fits = counting.written_fits;
      } in
      let rounds = last ∷ cancelled ∷ [] in
      let (s', loop, late) = receive_loop-Outputs dissect rounds s2 counting2 in
      let is_size : s2.buffer_size ≡ pos n =
        outputs.same_size ∙ (wire-IsWired surface cfg s0 wired).same_size ∙ size.is_size in
      let at_close =
        closed_is dissect surface cfg events c s0 n wired size e0 has five distinct complete s1
          outputs in
      (
        s',
        run_ops (arrive (arrival_of env info) ∷ []) closed,
        ap (overtaken dissect last) ends ∙ ap (behind_closes dissect) loop,
        late.netflow_is
            ∙ ap (λ k. Option.map (run_ops (netflow_ops dissect (room k) rounds)) s2.netflow_exp)
                is_size
            ∙ ap (Option.map (run_ops (netflow_ops dissect n rounds))) at_close
            ∙ ap (λ xs. some (run_ops xs closed)) one_op,
        late_alone.0,
        late_alone.1,
      )
