-- ===== src/Server/Statistics.antt =====
-- What `reportStats` says of a run: the counters of a new server, read between two rounds.
use tzsp_server.Prelude.{
  ℕ, zero, suc, ◌≤◌, ◌<◌, ◌^◌, ◌%◌, ◌≡◌, ◌≢◌, ◌+◌, ◌↔◌, refl, ◌∙◌, some, Option, List, Bytes,
  length, arith,
}
use tzsp_server.Prelude.Int.{ℤ}
use tzsp_server.Decoder.{Dissection}
use tzsp_server.Output.{FileWriter}
use tzsp_server.Pcap.{Writer, Directory}
use tzsp_server.Netflow.{Exporter}
use tzsp_server.Qingping.Export.{Config}
use tzsp_server.Server.{
  room, Server, Event, not_a_number, infinite, rate, Report, report, new_server, receive_loop,
}
use tzsp_server.Server.Streams.{datagrams, frames, written}
use tzsp_server.Server.Counters.{IsCounting}
use tzsp_server.Server.Run.{receive_loop-Counted}

-- A report on `received` datagrams of which `decoded` had a frame and `written` frames are in the file.
pub record Reports (received decoded written : ℕ) (r : Report) : Type 0 where
  pub received_is : r.received ≡ received
  pub decoded_is : r.decoded ≡ decoded
  pub written_is : r.written ≡ written
  pub written_le : r.written ≤ r.decoded
  pub decoded_le : r.decoded ≤ r.received
  pub nan_iff : (r.decode_rate ≡ not_a_number) ↔ (received ≡ 0)
  pub finite : r.decode_rate ≢ infinite

rate-nan_iff : (d r : ℕ) → d ≤ r → (rate d r ≡ not_a_number) ↔ (r ≡ 0)
rate-nan_iff d zero h =
    let none_decoded : d ≡ 0 = omega (arith, h) in (rw none_decoded ((λ e. refl), (λ e. refl)))
rate-nan_iff d (suc n) h = ((λ e. absurd cc), (λ e. absurd (omega arith)))

rate-finite : (d r : ℕ) → d ≤ r → rate d r ≢ infinite
rate-finite d zero h e = ground (arith, h)
rate-finite d (suc n) h e = cc

small_count : (n : ℕ) → n < 2 ^ 64 → (0 + n) % 2 ^ 64 ≡ n
small_count n h = omega (arith, h)

-- A report between two rounds of a server that began with no datagram, and has received fewer than
-- 2 ^ 64, is on all that came before it: the datagrams, those with a frame and the frames that the PCAP
-- file took; each of the numbers is at most the one before, and the rate is not a number exactly as
-- long as no datagram has come, and never infinite.
pub report-receive_loop :
    (dissect : Bytes → Dissection) (events : List Event) (buffer_size : ℤ)
    (file_writer : Option FileWriter) (w : Option Writer) (directory : Directory)
    (netflow_exp : Option Exporter) (qingping_exp : Option Config)
    → datagrams events < 2 ^ 64
    → (s' : Server) × (receive_loop dissect events
          (new_server buffer_size file_writer w directory netflow_exp qingping_exp)
        ≡ some s')
      × Reports
          (datagrams events)
          (length (frames (room buffer_size) events))
          (written (frames (room buffer_size) events) (w, directory))
          (report s')
unfolding new_server report
report-receive_loop dissect events buffer_size file_writer w directory netflow_exp qingping_exp
      few =
    let s = new_server buffer_size file_writer w directory netflow_exp qingping_exp in
    let counting : IsCounting s = record {
      received_fits = omega arith;
      decoded_fits = omega arith;
      written_fits = omega arith;
    } in
    let fs = frames (room buffer_size) events in
    let (s', run, counts, written_le, decoded_le) =
      receive_loop-Counted dissect events s counting in
    let received = counts.received_is ∙ small_count (datagrams events) few in
    let decoded = counts.decoded_is ∙ small_count (length fs) (omega (arith, few, decoded_le)) in
    let kept =
      counts.written_is
      ∙ small_count (written fs (w, directory)) (omega (arith, few, decoded_le, written_le)) in
    (
      s',
      run,
      rw (received, decoded, kept)
          (record {
            received_is = refl;
            decoded_is = refl;
            written_is = refl;
            written_le = written_le;
            decoded_le = decoded_le;
            nan_iff = rate-nan_iff (length fs) (datagrams events) decoded_le;
            finite = rate-finite (length fs) (datagrams events) decoded_le;
          }),
    )
