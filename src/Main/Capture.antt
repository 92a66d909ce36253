-- ===== src/Main/Capture.antt =====
-- The capture on the disk when the program ends.
use tzsp_server.Prelude.{
  ℕ, ◌*◌, ◌^◌, ◌≤◌, ◌<◌, ◌≡◌, refl, sym, ap, subst, ◌∙◌, true, false, Option, none, some, List, [],
  ◌∷◌, Bytes, length, take, length-take, length-append, All, arith, Result, ok, err, panic, stuck,
  ok-injective, bind-eq-ok, if◌then◌else◌, Bool-cases, inl, inr, ◌==◌, Bool,
}
use tzsp_server.Prelude.Int.{pos}
use tzsp_server.Tzsp
use tzsp_server.Tzsp.{Tag, Packet, DecodeError, Time}
use tzsp_server.Tzsp.Grammar.{Tagged, no_end, end, pad, long_tag}
use tzsp_server.Tzsp.Decode.{decode_iff}
use tzsp_server.Decoder.{Dissection}
use tzsp_server.Pcap.{Writer, Directory, WriteError, backup_name, new_writer}
use tzsp_server.Pcap.Session.{Write, write_all}
use tzsp_server.Pcap.Store.{IsRotating, accepted}
use tzsp_server.Pcap.Log.{IsEndOf, write_all-IsEndOf}
use tzsp_server.Config
use tzsp_server.Server.{
  Server, Surroundings, Event, cancelled, timed_out, read_failed, datagram, swept,
}
use tzsp_server.Server.Streams.{Frame, with_frame, cons_frame, frames, Capture, capture_all}
use tzsp_server.Main.{
  Failure, Surface, Closing, terminated, shut_down, wire, run, file_output, pcap_output, made_pcap,
  netflow_output, qingping_output,
}
use tzsp_server.Main.Whole.{HasRoom, run-Outputs}

-- No frame is longer than the datagram that it came in.
encap-le : {src rest : Bytes} {ts : List Tag} → Tagged src ts rest → length rest ≤ length src
encap-le no_end = omega arith
encap-le (end e) = omega (arith, ap length e)
encap-le (pad e t) = omega (arith, ap length e, encap-le t)
encap-le (long_tag {bs} t content l e k) =
    omega (arith, ap length e, length-append content bs, encap-le k)

decoded-le :
    (bytes source_addr : Bytes) (now : Time) (p : Packet)
    → Tzsp.decode bytes source_addr now ≡ ok p
    → length p.encap_packet ≤ length bytes
decoded-le bytes source_addr now p e =
    let d = (decode_iff bytes source_addr now p).0 e in
    omega (arith, ap length d.layout, encap-le d.tagged)

-- The frames of datagrams that are cut to `n` bytes have at most `n` bytes.
abbrev IsShort : ℕ → Frame → Type 0
IsShort n f = length f.content ≤ n

with_frame-IsShort :
    (n : ℕ) (env : Surroundings) (r : Result DecodeError Packet) (fs : List Frame)
    → ((p : Packet) → r ≡ ok p → length p.encap_packet ≤ n)
    → All (IsShort n) fs
    → All (IsShort n) (with_frame cons_frame env r fs)
with_frame-IsShort n env (ok p) fs h k = elim (Bool-cases (length p.encap_packet == 0)) [
  | inl empty ↦ rw empty k
  | inr frame ↦ rw frame (h p refl, k)
]
with_frame-IsShort n env (err why) fs h k = k
with_frame-IsShort n env panic fs h k = k
with_frame-IsShort n env stuck fs h k = k

frames-IsShort : (n : ℕ) (events : List Event) → All (IsShort n) (frames n events)
unfolding frames
frames-IsShort n [] = tt
frames-IsShort n (cancelled ∷ events) = tt
frames-IsShort n (timed_out ∷ events) = frames-IsShort n events
frames-IsShort n (read_failed why ∷ events) = frames-IsShort n events
frames-IsShort n (swept t ∷ events) = frames-IsShort n events
frames-IsShort n (datagram env bytes source_addr ∷ events) =
    with_frame-IsShort n env (Tzsp.decode (take n bytes) source_addr env.received_time) _
      (λ p e.
        omega
          (arith, decoded-le (take n bytes) source_addr env.received_time p e, length-take n bytes))
      (frames-IsShort n events)

-- The writes that the frames make.
abbrev pub write_of : Frame → Write
write_of f = record {
  content = f.content;
  time = f.timestamp;
  attempt = f.env.attempt;
  write_error = f.env.write_error;
}

unfoldable pub writes_of : List Frame → List Write
writes_of [] = []
writes_of (f ∷ fs) = write_of f ∷ writes_of fs

writes_of-short :
    (n : ℕ) (fs : List Frame) → All (IsShort n) fs → All (λ x. length x.content ≤ n) (writes_of fs)
unfolding writes_of
writes_of-short n [] h = tt
writes_of-short n (f ∷ fs) h = (h.0, writes_of-short n fs h.1)

capture_all-write_all :
    (fs : List Frame) (w : Writer) (dir : Directory)
    → capture_all fs (some w, dir)
      ≡ (some (write_all (writes_of fs) (dir, w)).1, (write_all (writes_of fs) (dir, w)).0)
unfolding capture_all write_all writes_of
capture_all-write_all [] w dir = refl
capture_all-write_all (f ∷ fs) w dir = capture_all-write_all fs _ _

-- The PCAP writer of the server is the one that `NewWriter` makes.
made_pcap-made :
    (made : Directory × Result WriteError Writer) (o : Option Writer) (dir : Directory)
    → made_pcap made ≡ ok (o, dir)
    → (w : Writer) × (made.1 ≡ ok w) × (o ≡ some w) × (dir ≡ made.0)
made_pcap-made (d, ok w) o dir e =
    let both = sym (ok-injective (some w, d) (o, dir) e) in
    (
      w,
      refl,
      ap (λ (x : Option Writer × Directory). x.0) both,
      ap (λ (x : Option Writer × Directory). x.1) both,
    )
made_pcap-made (d, err why) o dir e = absurd (cc)
made_pcap-made (d, panic) o dir e = absurd (cc)
made_pcap-made (d, stuck) o dir e = absurd (cc)

when_enabled :
    (enabled : Bool) (r : Result Failure (Option Writer × Directory)) (start : Directory)
    (out : Option Writer × Directory)
    → enabled ≡ true
    → (if enabled then r else ok (none, start)) ≡ ok out
    → r ≡ ok out
when_enabled true r start out h e = e
when_enabled false r start out h e = absurd (cc)

made_by : Surface → Config.PcapOutputConfig → Directory × Result WriteError Writer
made_by surface cfg =
    new_writer surface.attempt cfg.output_file cfg.max_size_mb cfg.max_backups surface.directory

wire-made :
    (surface : Surface) (cfg : Config.Config) (s : Server)
    → wire surface cfg ≡ ok s
    → cfg.output.pcap.enabled ≡ true
    → (w : Writer) × ((made_by surface cfg.output.pcap).1 ≡ ok w)
      × (s.pcap_writer ≡ some w)
      × (s.directory ≡ (made_by surface cfg.output.pcap).0)
unfolding wire made_by tzsp_server.Server.new_server
wire-made surface cfg s e enabled =
    let (file, is_file, e1) = bind-eq-ok (file_output surface cfg.output.file) _ e in
    let ((pcap, dir), is_pcap, e2) = bind-eq-ok (pcap_output surface cfg.output.pcap) _ e1 in
    let (net, is_net, e3) = bind-eq-ok (netflow_output surface cfg.output.netflow) _ e2 in
    let (qing, is_qing, e4) = bind-eq-ok (qingping_output cfg.output.qingping) _ e3 in
    let is = ok-injective _ s e4 in
    let (w, made, is_some, is_dir) =
      made_pcap-made _ pcap dir
        (when_enabled cfg.output.pcap.enabled _ surface.directory (pcap, dir) enabled is_pcap) in
    (
      w,
      made,
      ap (λ (x : Server). x.pcap_writer) (sym is) ∙ is_some,
      ap (λ (x : Server). x.directory) (sym is) ∙ is_dir,
    )

module _ (dissect : Bytes → Dissection) (surface : Surface) (cfg : Config.Config)
    (events : List Event) (c : Closing) (s0 : Server) (n mb m : ℕ)
    (wired : wire surface cfg ≡ ok s0) (size : HasRoom cfg n)
    (enabled : cfg.output.pcap.enabled ≡ true) (limit : cfg.output.pcap.max_size_mb ≡ pos mb)
    (backups : cfg.output.pcap.max_backups ≡ pos m) (positive : 0 < mb) (small : mb < 2 ^ 43) where
  same_writer :
      made_by surface cfg.output.pcap
      ≡ new_writer surface.attempt cfg.output.pcap.output_file (pos mb) (pos m) surface.directory
  unfolding made_by
  same_writer = rw (limit, backups) refl

  -- A program with a PCAP file of `mb` megabytes, positive and below 2 ^ 43, and `m` backups, that finds
  -- no old capture, whose buffer has `n` bytes and can be allocated, and that a signal ends, with no
  -- rotation failing: the files on the disk hold, from
  -- the oldest backup to the current file, the end of the log of all frames that were received before
  -- the signal and that the PCAP library took, in order and each once. There are `m` backups at most,
  -- each above the limit by a buffer at most, and the current file is within the limit and a buffer. If
  -- the beginning is missing, then there are `m` backups, so that the files hold `m` times the limit at
  -- least; and they never hold more than `m + 1` times the limit and a buffer.
  pub run-IsEndOf :
      surface.directory cfg.output.pcap.output_file ≡ none
      → ((j : ℕ) → j < m → surface.directory (backup_name cfg.output.pcap.output_file j) ≡ none)
      → All IsRotating (writes_of (frames n events))
      → (s' : Server) × (run dissect surface cfg none none events c ≡ terminated s')
        × IsEndOf
            (accepted (writes_of (frames n events)))
            (mb * 2 ^ 20)
            n
            m
            cfg.output.pcap.output_file
            s'.directory
  unfolding shut_down
  run-IsEndOf free no_backup rotating =
      let (s', ends, outputs, counting) =
        run-Outputs dissect surface cfg events c s0 n wired size in
      let (w, made, has, at_dir) = wire-made surface cfg s0 wired enabled in
      let f = cfg.output.pcap.output_file in
      let fs = frames n events in
      let capture =
        outputs.capture_is
        ∙ ap (λ o. capture_all fs (o, s0.directory)) has
        ∙ capture_all-write_all fs w s0.directory in
      let start = at_dir ∙ ap (λ x. x.0) same_writer in
      let at_end =
        ap (λ (x : Capture). x.1) capture ∙ ap (λ d. (write_all (writes_of fs) (d, w)).0) start in
      (
        shut_down c s',
        ends,
        subst (IsEndOf (accepted (writes_of fs)) (mb * 2 ^ 20) n m f) (sym at_end) (
            write_all-IsEndOf surface.attempt f mb m n surface.directory w (writes_of fs)
              (sym (ap (λ x. x.1) same_writer) ∙ made) free no_backup positive small rotating
              (writes_of-short n fs (frames-IsShort n events))),
      )
