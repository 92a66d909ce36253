-- ===== src/Main/Tests.antt =====
-- What the theorems say of the program of Main/Example.
use tzsp_server.Prelude.{
  ◌*◌, ◌^◌, All, ℕ, ◌≡◌, refl, if◌then◌else◌, true, false, none, some, List, [], ◌∷◌, ◌++◌, Bytes,
  arith, ok,
}
use tzsp_server.Prelude.Int.{pos}
use tzsp_server.Prelude.Text.{codes, text_eq}
use tzsp_server.Decoder.{PacketInfo, Dissection}
use tzsp_server.Netflow.{Flow, Exporter, Moment, Tick, lookup, close}
use tzsp_server.Netflow.Table.{Arrival}
use tzsp_server.Netflow.Ops.{Op, run_ops, ticks_only}
use tzsp_server.Netflow.Balance.{carried, brought}
use tzsp_server.Netflow.Conservation.{one, len}
use tzsp_server.Netflow.Sweep.{visited, due, datagrams}
use tzsp_server.Server.{Server, Surroundings, Event, cancelled, swept, datagram}
use tzsp_server.Server.Streams.{frame_of, description, frames, sightings, arrivals, netflow_ops}
use tzsp_server.Qingping.Export
use tzsp_server.Main.{terminated, run, overtaken}
use tzsp_server.Tzsp.{Packet, decode}
use tzsp_server.Netflow.Late.{alone}
use tzsp_server.Main.Overtaken.{run-overtaken}
use tzsp_server.Main.Wiring.{IsWired, wire-IsWired}
use tzsp_server.Main.Capture.{writes_of, run-IsEndOf}
use tzsp_server.Pcap.Store.{IsRotating, accepted}
use tzsp_server.Pcap.Log.{IsEndOf}
use tzsp_server.Tzsp.RoundTrip.{encode}
use tzsp_server.Server.Sent.{Traffic, sent, quiet, ticked, events_of, IsGood}
use tzsp_server.Main.Delivery.{file_sent, IsWritten, run-file_sent}
use tzsp_server.Main.Whole.{run-close_effect, run-conserves}
use tzsp_server.Main.Example.{
  surface, config, exporter, env, dissect, a_tick, events, key, closing, server, wired, room,
}

wire-IsWired_example : IsWired config server
wire-IsWired_example = wire-IsWired surface config server wired

abbrev ops : List Op
ops = netflow_ops dissect 65536 events ++ ticks_only (a_tick ∷ [])

abbrev seen : List Arrival
seen = arrivals (sightings dissect (frames 65536 events))

one_flow : (f : Flow) × ((run_ops ops exporter).flows ≡ (key, f) ∷ [])
unfolding run_ops netflow_ops ticks_only tzsp_server.Netflow.expire_flows tzsp_server.Tzsp.decode
    tzsp_server.Tzsp.tag_loop tzsp_server.Tzsp.tag_round tzsp_server.Tzsp.remainder
    tzsp_server.Decoder.decode tzsp_server.Netflow.process_packet text_eq tzsp_server.Net.ip_string
    tzsp_server.Prelude.Decimal.decimal tzsp_server.Prelude.Int.saturate_i64
    tzsp_server.Prelude.Int.◌-ℤ◌ tzsp_server.Prelude.Int.wrap_i64 tzsp_server.Server.packet_time
    tzsp_server.Netflow.insert tzsp_server.Netflow.make_flow_key tzsp_server.Tzsp.get_timestamp
    lookup tzsp_server.Tzsp.find_tag
one_flow = (_, refl)

only_key : (k : Bytes) → visited k (key ∷ []) ≡ false → lookup k (run_ops ops exporter).flows ≡ none
unfolding lookup
only_key k h = rw one_flow.1 (ground arith)

brought-one : (brought one seen ≡ 1) × (brought len seen ≡ 2)
unfolding brought arrivals sightings frames tzsp_server.Tzsp.decode tzsp_server.Tzsp.tag_loop
    tzsp_server.Tzsp.tag_round tzsp_server.Tzsp.remainder tzsp_server.Decoder.decode
    tzsp_server.Netflow.Table.is_ip text_eq tzsp_server.Net.ip_string
    tzsp_server.Prelude.Decimal.decimal
brought-one = (refl, refl)

run-close_effect_example :
    (s' : Server) × (e' : Exporter) × (run dissect surface config none none events closing
      ≡ terminated s')
    × (s'.netflow_exp ≡ some e')
    × (e'.flows ≡ [])
    × (e'.sent
        ≡ (run_ops ops exporter).sent
          ++ datagrams closing.now
              (run_ops ops exporter).sequence_num
              (due (λ f. true) (key ∷ []) (run_ops ops exporter).flows))
run-close_effect_example =
    run-close_effect dissect surface config events closing server 65536 wired room exporter refl
      refl (tt, tt) only_key

run-conserves_example :
    (s' : Server) × (e' : Exporter) × (run dissect surface config none none events closing
      ≡ terminated s')
    × (s'.netflow_exp ≡ some e')
    × (carried 40 e'.sent ≡ brought one seen)
    × (carried 44 e'.sent ≡ brought len seen)
run-conserves_example =
    run-conserves dissect surface config events closing server 65536 wired room exporter refl refl
      (tt, tt) only_key (omega (arith, brought-one)) (omega (arith, brought-one))

writes-IsRotating : All IsRotating (writes_of (frames 65536 events))
unfolding writes_of frames tzsp_server.Tzsp.decode tzsp_server.Tzsp.tag_loop
    tzsp_server.Tzsp.tag_round tzsp_server.Tzsp.remainder
writes-IsRotating = (record { is_created = refl; has_header = refl }, tt)

run-IsEndOf_example :
    (s' : Server) × (run dissect surface config none none events closing ≡ terminated s')
    × IsEndOf
        (accepted (writes_of (frames 65536 events)))
        (1 * 2 ^ 20)
        65536
        3
        (codes "t.pcap")
        s'.directory
run-IsEndOf_example =
    run-IsEndOf dissect surface config events closing server 65536 1 3 wired room refl refl refl
      (omega arith) (omega arith) refl (λ j h. refl) writes-IsRotating

-- The same datagram once more, in work at the signal.
abbrev late_packet : Packet
late_packet = record {
  version = 1;
  typ = 0;
  protocol = 1;
  tags = [];
  encap_packet = 170 ∷ 187 ∷ [];
  received_time = pos 5;
  source_addr = codes "10.0.0.9";
}

abbrev late_bytes : Bytes
late_bytes = 1 ∷ 0 ∷ 0 ∷ 1 ∷ 1 ∷ 170 ∷ 187 ∷ []

late_decoded : decode late_bytes (codes "10.0.0.9") (pos 5) ≡ ok late_packet
unfolding decode tzsp_server.Tzsp.tag_loop tzsp_server.Tzsp.tag_round tzsp_server.Tzsp.remainder
late_decoded = refl

abbrev late_info : PacketInfo
late_info = (description dissect (frame_of env late_packet)).0

run-overtaken_example :
    (s' : Server) × (e' : Exporter) × (overtaken dissect
        (datagram env late_bytes (codes "10.0.0.9"))
        (run dissect surface config none none events closing)
      ≡ terminated s')
    × (s'.netflow_exp ≡ some e')
    × (e'.flows ≡ alone late_info)
    × (e'.sent ≡ (close closing.now closing.keys none (run_ops ops exporter)).0.sent)
unfolding tzsp_server.Decoder.decode tzsp_server.Netflow.Table.is_ip text_eq
    tzsp_server.Net.ip_string tzsp_server.Prelude.Decimal.decimal
    tzsp_server.Prelude.Int.saturate_i64 tzsp_server.Prelude.Int.◌-ℤ◌
    tzsp_server.Prelude.Int.wrap_i64 tzsp_server.Server.packet_time tzsp_server.Tzsp.get_timestamp
    tzsp_server.Tzsp.find_tag
run-overtaken_example =
    run-overtaken dissect surface config events closing server 65536 wired room exporter refl refl
      (tt, tt) only_key env late_bytes (codes "10.0.0.9") late_packet late_info late_decoded refl
      refl refl refl

abbrev traffic : List Traffic
traffic = sent env late_packet ∷ ticked a_tick ∷ quiet ∷ []

traffic-IsGood : All (IsGood 65536) traffic
unfolding encode
traffic-IsGood = (
  record {
    version_is = refl;
    carried = tt;
    has_frame = omega arith;
    fits = omega arith;
    arrives = refl;
  },
  (tt, (tt, tt)),
)

traffic-IsWritten : All IsWritten traffic
traffic-IsWritten = (record { rotates = (refl, refl); writes = refl }, (tt, (tt, tt)))

run-file_sent_example :
    (s' : Server) × (run dissect surface config none none (events_of traffic) closing
      ≡ terminated s')
    × IsEndOf (file_sent traffic) (1 * 2 ^ 20) 65536 3 (codes "t.pcap") s'.directory
run-file_sent_example =
    run-file_sent dissect surface config traffic closing server 65536 1 3 wired room refl refl refl
      (omega arith) (omega arith) refl (λ j h. refl) traffic-IsGood traffic-IsWritten
