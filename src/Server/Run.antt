-- ===== src/Server/Run.antt =====
-- The receive loop as a whole.
use mathlib.Core.Option
use tzsp_server.Prelude.{
  ℕ, ◌+◌, ◌≤◌, ◌≡◌, refl, sym, ap, subst, ◌∙◌, Option, none, some, List, [], ◌∷◌, ◌++◌, Bytes,
  length, append-nil, take, arith, Result,
}
use tzsp_server.Tzsp
use tzsp_server.Prelude.Int.{ℤ}
use tzsp_server.Tzsp.{Packet, DecodeError}
use tzsp_server.Decoder.{Dissection}
use tzsp_server.Netflow.{Tick, on_tick}
use tzsp_server.Netflow.Ops.{Op, tick, run_ops}
use tzsp_server.Server.{
  room, Server, Surroundings, Event, cancelled, timed_out, read_failed, datagram, swept,
  sweep_netflow, process_frame, receive_loop,
}
use tzsp_server.Server.Streams.{
  Frame, Capture, frame_of, with_frame, cons_frame, cons_arrival, netflow_ops, datagrams, frames,
  sightings, write_all, capture_all, captured, written,
}
use tzsp_server.Server.Outputs.{Outputs, uploads_of-nil, process_frame-Outputs}
use tzsp_server.Server.Counters.{IsCounting, Counted, process_frame-Counted}
use tzsp_server.Server.Rounds.{counted, Outputs-cons, round, no_frame, one_frame}

map_id : {A : Type 0} (f : A → A) → ((x : A) → f x ≡ x) → (o : Option A) → o ≡ Option.map f o
map_id f h none = refl
map_id f h (some x) = ap some (sym (h x))

map_map :
    {A : Type 0} (f g : A → A) (o : Option A)
    → Option.map f (Option.map g o) ≡ Option.map (λ x. f (g x)) o
map_map f g none = refl
map_map f g (some x) = refl

-- A run from `s` to `s'` that received `n` datagrams, with the frames `fs` and, for NetFlow, the
-- packets and ticks `ops`.
record Ran (dissect : Bytes → Dissection) (n : ℕ) (fs : List Frame) (ops : List Op) (s s' : Server)
    : Type 0 where
  outputs : Outputs dissect fs ops s s'
  counts : Counted n fs s s'

module _ (dissect : Bytes → Dissection) where
  Ran-nothing : (s : Server) → IsCounting s → Ran dissect 0 [] [] s s
  unfolding sightings capture_all run_ops write_all written
  Ran-nothing s h = record {
    outputs = record {
      netflow_is = map_id (run_ops []) (λ e. refl) s.netflow_exp;
      capture_is = refl;
      uploads_are =
          sym (append-nil s.uploads)
          ∙ ap (λ us. s.uploads ++ us) (sym (uploads_of-nil s.qingping_exp));
      metadata_is = map_id (write_all []) (λ w. refl) s.file_writer;
      same_qingping = refl;
      same_size = refl;
    };
    counts = record {
      received_is = omega (arith, h.received_fits);
      decoded_is = omega (arith, h.decoded_fits);
      written_is = omega (arith, h.written_fits);
    };
  }

  counted-IsCounting : (s : Server) → IsCounting s → IsCounting (counted s)
  counted-IsCounting s h = record {
    received_fits = omega arith;
    decoded_fits = h.decoded_fits;
    written_fits = h.written_fits;
  }

  swept-IsCounting : (t : Tick) (s : Server) → IsCounting s → IsCounting (sweep_netflow t s)
  unfolding sweep_netflow
  swept-IsCounting t s h = record {
    received_fits = h.received_fits;
    decoded_fits = h.decoded_fits;
    written_fits = h.written_fits;
  }

  Counted-IsCounting : (n : ℕ) (fs : List Frame) (s s' : Server) → Counted n fs s s' → IsCounting s'
  Counted-IsCounting n fs s s' c = record {
    received_fits = omega (arith, c.received_is);
    decoded_fits = omega (arith, c.decoded_is);
    written_fits = omega (arith, c.written_is);
  }

  -- A datagram that is only counted, before a run.
  Ran-counted :
      (n : ℕ) (fs : List Frame) (ops : List Op) (s s' : Server)
      → Ran dissect n fs ops (counted s) s'
      → Ran dissect (1 + n) fs ops s s'
  Ran-counted n fs ops s s' r = record {
    outputs = record {
      netflow_is = r.outputs.netflow_is;
      capture_is = r.outputs.capture_is;
      uploads_are = r.outputs.uploads_are;
      metadata_is = r.outputs.metadata_is;
      same_qingping = r.outputs.same_qingping;
      same_size = r.outputs.same_size;
    };
    counts = record {
      received_is = omega (arith, r.counts.received_is);
      decoded_is = r.counts.decoded_is;
      written_is = r.counts.written_is;
    };
  }

  -- A tick, before a run.
  Ran-swept :
      (t : Tick) (n : ℕ) (fs : List Frame) (ops : List Op) (s s' : Server)
      → Ran dissect n fs ops (sweep_netflow t s) s'
      → Ran dissect n fs (tick t ∷ ops) s s'
  unfolding sweep_netflow run_ops
  Ran-swept t n fs ops s s' r = record {
    outputs = record {
      netflow_is = r.outputs.netflow_is ∙ map_map (run_ops ops) (on_tick t) s.netflow_exp;
      capture_is = r.outputs.capture_is;
      uploads_are = r.outputs.uploads_are;
      metadata_is = r.outputs.metadata_is;
      same_qingping = r.outputs.same_qingping;
      same_size = r.outputs.same_size;
    };
    counts = record {
      received_is = r.counts.received_is;
      decoded_is = r.counts.decoded_is;
      written_is = r.counts.written_is;
    };
  }

  -- A frame that is processed, before a run.
  Ran-frame :
      (f : Frame) (n : ℕ) (fs : List Frame) (ops : List Op) (s s1 s' : Server)
      → Ran dissect 0 (f ∷ []) (cons_arrival dissect f []) s s1
      → Ran dissect n fs ops s1 s'
      → Ran dissect n (f ∷ fs) (cons_arrival dissect f ops) s s'
  unfolding written capture_all
  Ran-frame f n fs ops s s1 s' a r = record {
    outputs = Outputs-cons dissect f fs ops s s1 s' a.outputs r.outputs;
    counts = record {
      received_is = omega (arith, a.counts.received_is, r.counts.received_is);
      decoded_is = omega (arith, a.counts.decoded_is, r.counts.decoded_is);
      written_is =
          omega
            (arith, a.counts.written_is, r.counts.written_is, ap (written fs) a.outputs.capture_is);
    };
  }

  process_frame-Ran :
      (env : Surroundings) (pkt : Packet) (s : Server)
      → IsCounting s
      → Ran dissect 0
          (frame_of env pkt ∷ [])
          (cons_arrival dissect (frame_of env pkt) [])
          s
          (process_frame dissect env pkt s)
  process_frame-Ran env pkt s h = record {
    outputs = process_frame-Outputs dissect env pkt s;
    counts = process_frame-Counted dissect env pkt s h;
  }

  receive_loop-Ran :
      (events : List Event) (s : Server)
      → IsCounting s
      → (s' : Server) × (receive_loop dissect events s ≡ some s')
        × Ran dissect
            (datagrams events)
            (frames (room s.buffer_size) events)
            (netflow_ops dissect (room s.buffer_size) events)
            s
            s'
  unfolding receive_loop datagrams frames netflow_ops
  receive_loop-Ran [] s h = (s, refl, Ran-nothing s h)
  receive_loop-Ran (cancelled ∷ events) s h = (s, refl, Ran-nothing s h)
  receive_loop-Ran (timed_out ∷ events) s h = receive_loop-Ran events s h
  receive_loop-Ran (read_failed why ∷ events) s h = receive_loop-Ran events s h
  receive_loop-Ran (swept t ∷ events) s h =
      let (s', run, r) = receive_loop-Ran events (sweep_netflow t s) (swept-IsCounting t s h) in
      (
        s',
        run,
        Ran-swept t (datagrams events) (frames (room s.buffer_size) events)
            (netflow_ops dissect (room s.buffer_size) events) s s' r,
      )
  receive_loop-Ran (datagram env bytes source_addr ∷ events) s h =
      let hc = counted-IsCounting s h in
      elim (round dissect env bytes source_addr s) [
        | no_frame e skipped ↦
            let (s', run, r) = receive_loop-Ran events (counted s) hc in
            (
              s',
              rw (e, receive_loop) run,
              rw (skipped (List Frame) cons_frame, skipped (List Op) (cons_arrival dissect))
                  (Ran-counted (datagrams events) (frames (room s.buffer_size) events)
                    (netflow_ops dissect (room s.buffer_size) events) s s' r),
            )
        | one_frame pkt e taken ↦
            let s1 = process_frame dissect env pkt (counted s) in
            let step = process_frame-Ran env pkt (counted s) hc in
            let (s', run, r) =
              receive_loop-Ran events s1
                (Counted-IsCounting 0 (frame_of env pkt ∷ []) (counted s) s1 step.counts) in
            let r' =
              subst
                (λ (size : ℤ).
                  Ran dissect (datagrams events) (frames (room size) events)
                    (netflow_ops dissect (room size) events) s1 s')
                step.outputs.same_size r in
            (
              s',
              rw (e, receive_loop) run,
              rw (taken (List Frame) cons_frame, taken (List Op) (cons_arrival dissect))
                  (Ran-counted (datagrams events)
                    (frame_of env pkt ∷ frames (room s.buffer_size) events)
                    (cons_arrival dissect (frame_of env pkt)
                      (netflow_ops dissect (room s.buffer_size) events))
                    s s'
                    (Ran-frame (frame_of env pkt) (datagrams events)
                      (frames (room s.buffer_size) events)
                      (netflow_ops dissect (room s.buffer_size) events) (counted s) s1 s' step r')),
            )
      ]

  -- The receive loop never panics, and after any rounds each output is in the state that it reaches
  -- alone on its own stream: the PCAP file on all frames before the cancellation; the QingPing exporter
  -- and the metadata file on the frames that gopacket takes apart with no error; the NetFlow exporter on
  -- these too, with the ticks of its sweeper between them as they came. Whatever fails in one output
  -- does not show in another, and a bad datagram shows in none.
  pub receive_loop-Outputs :
      (events : List Event) (s : Server)
      → IsCounting s
      → (s' : Server) × (receive_loop dissect events s ≡ some s')
        × Outputs dissect
            (frames (room s.buffer_size) events)
            (netflow_ops dissect (room s.buffer_size) events)
            s
            s'
  receive_loop-Outputs events s h =
      let (s', run, r) = receive_loop-Ran events s h in (s', run, r.outputs)

  -- The counters stay values of 64 bits, so that the loop can go on.
  pub receive_loop-IsCounting :
      (events : List Event) (s : Server)
      → IsCounting s
      → (s' : Server) × (receive_loop dissect events s ≡ some s')
        × Outputs dissect
            (frames (room s.buffer_size) events)
            (netflow_ops dissect (room s.buffer_size) events)
            s
            s'
        × IsCounting s'
  receive_loop-IsCounting events s h =
      let (s', run, r) = receive_loop-Ran events s h in
      (
        s',
        run,
        r.outputs,
        Counted-IsCounting (datagrams events) (frames (room s.buffer_size) events) s s' r.counts,
      )

-- At most every frame is written, and at most every datagram has a frame.
written-le : (fs : List Frame) (c : Capture) → written fs c ≤ length fs
unfolding written
written-le [] c = omega arith
written-le (f ∷ fs) c = ground (arith, written-le fs (captured f c))

with_frame-le :
    (env : Surroundings) (r : Result DecodeError Packet) (rest : List Frame)
    → length (with_frame cons_frame env r rest) ≤ 1 + length rest
with_frame-le env r rest = ground arith

frames-le : (size : ℕ) (events : List Event) → length (frames size events) ≤ datagrams events
unfolding frames datagrams
frames-le size [] = omega arith
frames-le size (cancelled ∷ events) = omega arith
frames-le size (timed_out ∷ events) = frames-le size events
frames-le size (read_failed why ∷ events) = frames-le size events
frames-le size (swept t ∷ events) = frames-le size events
frames-le size (datagram env bytes source_addr ∷ events) = omega (
  arith,
  with_frame-le env (Tzsp.decode (take size bytes) source_addr env.received_time)
      (frames size events),
  frames-le size events,
)

-- After any rounds the receive loop has counted, modulo 2 ^ 64, the datagrams before the cancellation,
-- those of them that are TZSP packets with a frame, and the frames that the PCAP file took with no
-- error; the last are at most the second, and these at most the first.
pub receive_loop-Counted :
    (dissect : Bytes → Dissection) (events : List Event) (s : Server)
    → IsCounting s
    → (s' : Server) × (receive_loop dissect events s ≡ some s')
      × Counted (datagrams events) (frames (room s.buffer_size) events) s s'
      × (written (frames (room s.buffer_size) events) (s.pcap_writer, s.directory)
          ≤ length (frames (room s.buffer_size) events))
      × (length (frames (room s.buffer_size) events) ≤ datagrams events)
receive_loop-Counted dissect events s h =
    let (s', run, r) = receive_loop-Ran dissect events s h in
    (
      s',
      run,
      r.counts,
      written-le (frames (room s.buffer_size) events) (s.pcap_writer, s.directory),
      frames-le (room s.buffer_size) events,
    )
