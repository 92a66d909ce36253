-- ===== src/Main/Exits.antt =====
-- When the program ends with which exit code.
use tzsp_server.Prelude.{
  ◌≡◌, ◌^◌, ◌||◌, ◌↔◌, inl, inr, refl, sym, ap, ◌∙◌, true, false, Bool-cases, Option, none, some,
  List, Bytes, Result, ok, err, ok-injective, subst, panic, stuck, Returns, ◌>>=◌, arith,
}
use tzsp_server.Prelude.Int.{pos, ltb_ℤ}
use tzsp_server.Decoder.{Dissection}
use tzsp_server.Netflow
use tzsp_server.Output.{new_file_writer}
use tzsp_server.Pcap.{new_writer, create_file}
use tzsp_server.Qingping.Export
use tzsp_server.Config
use tzsp_server.Config.{LoadError, load}
use tzsp_server.Main.Entry.{
  Flags, CommandLine, flags_found, help_asked, bad_arguments, Start, logger_config, with_logger,
  with_config, enter_parsed, enter, exit_code, exit_code_of,
}
use tzsp_server.Logger.{Level, Logger, new_logger}
use tzsp_server.Server.{Server, Event, start, out_of_range}
use tzsp_server.Server.Run.{receive_loop-Outputs}
use tzsp_server.Main.{
  Surface, Closing, crashed, file_output, pcap_output, netflow_output, qingping_output, wire, run,
  ended,
}
use tzsp_server.Main.Wiring.{IsWired, wire-IsWired}

bind-Returns :
    {E A B : Type 0} (m : Result E A) (f : A → Result E B)
    → Returns m
    → ((x : A) → Returns (f x))
    → Returns (m >>= f)
bind-Returns (ok x) f r h = h x
bind-Returns (err why) f r h = ((λ e. cc), (λ e. cc))
bind-Returns panic f r h = absurd (r.0 refl)
bind-Returns stuck f r h = absurd (r.1 refl)

-- What returns gave a value or an error.
data Ends {E A : Type 0} (r : Result E A) : Type 0 where
  answered : (x : A) → r ≡ ok x → Ends r
  refused : (why : E) → r ≡ err why → Ends r

ends : {E A : Type 0} (r : Result E A) → Returns r → Ends r
ends (ok x) h = answered x refl
ends (err why) h = refused why refl
ends panic h = absurd (h.0 refl)
ends stuck h = absurd (h.1 refl)

file_output-Returns :
    (surface : Surface) (cfg : Config.FileOutputConfig) → Returns (file_output surface cfg)
unfolding new_file_writer
file_output-Returns surface cfg = ground arith

pcap_output-Returns :
    (surface : Surface) (cfg : Config.PcapOutputConfig) → Returns (pcap_output surface cfg)
unfolding new_writer create_file
pcap_output-Returns surface cfg = ground arith

netflow_output-Returns :
    (surface : Surface) (cfg : Config.NetflowOutputConfig) → Returns (netflow_output surface cfg)
unfolding Netflow.new_exporter
netflow_output-Returns surface cfg = ground arith

qingping_output-Returns : (cfg : Config.QingpingOutputConfig) → Returns (qingping_output cfg)
unfolding Export.new_exporter
qingping_output-Returns cfg = ground arith

wire-Returns : (surface : Surface) (cfg : Config.Config) → Returns (wire surface cfg)
unfolding wire
wire-Returns surface cfg =
    bind-Returns (file_output surface cfg.output.file) _
      (file_output-Returns surface cfg.output.file)
      (λ file.
        bind-Returns (pcap_output surface cfg.output.pcap) _
          (pcap_output-Returns surface cfg.output.pcap)
          (λ pcap.
            bind-Returns (netflow_output surface cfg.output.netflow) _
              (netflow_output-Returns surface cfg.output.netflow)
              (λ net.
                bind-Returns (qingping_output cfg.output.qingping) _
                  (qingping_output-Returns cfg.output.qingping) (λ qing. ((λ e. cc), (λ e. cc))))))

module _ (dissect : Bytes → Dissection) (cfg : Config.Config) (events : List Event)
    (c : Closing) where
  -- Behind the outputs: a buffer size out of range and nothing else makes `make` panic.
  ended-crashed_iff :
      (resolve_error listen_error : Option Bytes) (s : Server)
      → IsWired cfg s
      → (ended c (start dissect resolve_error listen_error events s) ≡ crashed) ↔ (
          (resolve_error ≡ none)
          × (listen_error ≡ none)
          × ((ltb_ℤ cfg.server.buffer_size (pos 0) || ltb_ℤ (pos (2 ^ 48)) cfg.server.buffer_size)
              ≡ true))
  unfolding start
  ended-crashed_iff (some why) listen_error s w = ((λ e. absurd (cc)), (λ h. absurd (cc (h.0))))
  ended-crashed_iff none (some why) s w = ((λ e. absurd (cc)), (λ h. absurd (cc (h.1))))
  ended-crashed_iff none none s w =
      let same : out_of_range s.buffer_size ≡ out_of_range cfg.server.buffer_size =
        ap out_of_range w.same_size in
      let (s', loop, outputs) = receive_loop-Outputs dissect events s w.counting in
      elim (Bool-cases (out_of_range s.buffer_size)) [
        | inl negative ↦ rw negative ((λ e. (refl, refl, sym same ∙ negative)), (λ h. refl))
        | inr fits ↦ rw (fits, loop) ((λ e. absurd (cc)), (λ h. absurd (cc (h.2, fits, same))))
      ]

  -- A program whose configuration is loaded panics exactly if its outputs are made, its address is
  -- resolved and its socket opened, and then the configured buffer size is negative or above the 2 ^ 48
  -- bytes that can be allocated at most: nothing that is received and no output that fails brings it
  -- down.
  pub run-crashed_iff :
      (surface : Surface) (resolve_error listen_error : Option Bytes)
      → (run dissect surface cfg resolve_error listen_error events c ≡ crashed) ↔ (
          ((s : Server) × (wire surface cfg ≡ ok s))
          × (resolve_error ≡ none)
          × (listen_error ≡ none)
          × ((ltb_ℤ cfg.server.buffer_size (pos 0) || ltb_ℤ (pos (2 ^ 48)) cfg.server.buffer_size)
              ≡ true))
  unfolding run
  run-crashed_iff surface resolve_error listen_error =
      elim (ends (wire surface cfg) (wire-Returns surface cfg)) [
        | refused why e ↦ rw e ((λ q. absurd (cc)), (λ h. absurd (cc (h.0.1))))
        | answered s e ↦
            let both =
              ended-crashed_iff resolve_error listen_error s (wire-IsWired surface cfg s e) in
            rw e (
              (λ q.
                  let (resolved, listens, negative) = both.0 q in
                  ((s, refl), resolved, listens, negative)),
              (λ h. both.1 (h.1, h.2, h.3)),
            )
      ]

-- What the end by a signal needs: the outputs, the address, the socket, and a buffer in range.
pub record IsServed (surface : Surface) (cfg : Config.Config)
    (resolve_error listen_error : Option Bytes) : Type 0 where
  pub outputs : Server
  pub outputs_made : wire surface cfg ≡ ok outputs
  pub resolved : resolve_error ≡ none
  pub listening : listen_error ≡ none
  pub in_range :
      (ltb_ℤ cfg.server.buffer_size (pos 0) || ltb_ℤ (pos (2 ^ 48)) cfg.server.buffer_size) ≡ false

module _ (dissect : Bytes → Dissection) (cfg : Config.Config) (events : List Event)
    (c : Closing) where
  ended-exit_code :
      (surface : Surface) (resolve_error listen_error : Option Bytes) (s : Server)
      → wire surface cfg ≡ ok s
      → (exit_code_of (ended c (start dissect resolve_error listen_error events s)) ≡ 0)
        ↔ IsServed surface cfg resolve_error listen_error
  unfolding start
  ended-exit_code surface (some why) listen_error s e =
      ((λ q. absurd (cc)), (λ h. absurd (cc (h.resolved))))
  ended-exit_code surface none (some why) s e =
      ((λ q. absurd (cc)), (λ h. absurd (cc (h.listening))))
  ended-exit_code surface none none s e =
      let w = wire-IsWired surface cfg s e in
      let same : out_of_range s.buffer_size ≡ out_of_range cfg.server.buffer_size =
        ap out_of_range w.same_size in
      let (s', loop, outputs) = receive_loop-Outputs dissect events s w.counting in
      elim (Bool-cases (out_of_range s.buffer_size)) [
        | inl outside ↦
            rw outside ((λ q. absurd (cc)), (λ h. absurd (cc (h.in_range, outside, same))))
        | inr fits ↦
            rw (fits, loop)
              (
                (λ q. record {
                  outputs = s;
                  outputs_made = e;
                  resolved = refl;
                  listening = refl;
                  in_range = sym same ∙ fits;
                }),
                (λ h. refl),
              )
      ]

  run-exit_code :
      (surface : Surface) (resolve_error listen_error : Option Bytes)
      → (exit_code_of (run dissect surface cfg resolve_error listen_error events c) ≡ 0)
        ↔ IsServed surface cfg resolve_error listen_error
  unfolding run
  run-exit_code surface resolve_error listen_error =
      elim (ends (wire surface cfg) (wire-Returns surface cfg)) [
        | refused why e ↦ rw e ((λ q. absurd (cc)), (λ h. absurd (cc (h.outputs_made, e))))
        | answered s e ↦
            let both = ended-exit_code surface resolve_error listen_error s e in
            ((λ q. both.0 (rw e at q)), (λ h. rw e (both.1 h)))
      ]

module _ (unmarshal : Bytes → Config.Config → Result Bytes Config.Config)
    (parse_level : Bytes → Option Level) (dissect : Bytes → Dissection) (s : Start)
    (events : List Event) (c : Closing) where
  -- What the program needs from the configuration file on.
  pub record Serves (cfg : Config.Config) : Type 0 where
    pub loaded : load unmarshal s.file ≡ ok cfg
    pub logger : Logger
    pub logger_made : new_logger parse_level s.log_error (logger_config cfg.logging) ≡ ok logger
    pub served : IsServed s.surface cfg s.resolve_error s.listen_error

  -- The starts that end with the exit code 0.
  pub data Succeeds : Type 0 where
    usage : s.command_line ≡ help_asked → Succeeds
    version :
        (flags : Flags) → s.command_line ≡ flags_found flags → flags.show_version ≡ true → Succeeds
    service :
        (flags : Flags) (cfg : Config.Config)
        → s.command_line ≡ flags_found flags
        → Serves cfg
        → Succeeds

  with_logger_iff :
      (flags : Flags) (cfg : Config.Config) (r : Result Bytes Logger)
      → (exit_code (with_logger unmarshal parse_level dissect s flags events c cfg r) ≡ 0)
        ↔ (((l : Logger) × (r ≡ ok l)) × IsServed s.surface cfg s.resolve_error s.listen_error)
  with_logger_iff flags cfg (ok l) =
      let both = run-exit_code dissect cfg events c s.surface s.resolve_error s.listen_error in
      ((λ q. ((l, refl), both.0 q)), (λ h. both.1 (h.1)))
  with_logger_iff flags cfg (err why) = ((λ q. absurd (cc)), (λ h. absurd (cc (h.0.1))))
  with_logger_iff flags cfg panic = ((λ q. absurd (cc)), (λ h. absurd (cc (h.0.1))))
  with_logger_iff flags cfg stuck = ((λ q. absurd (cc)), (λ h. absurd (cc (h.0.1))))

  with_config_iff :
      (flags : Flags) (r : Result LoadError Config.Config)
      → load unmarshal s.file ≡ r
      → (exit_code (with_config unmarshal parse_level dissect s flags events c r) ≡ 0)
        ↔ ((cfg : Config.Config) × Serves cfg)
  with_config_iff flags (ok cfg) e =
      let both =
        with_logger_iff flags cfg
          (new_logger parse_level s.log_error (logger_config cfg.logging)) in
      (
        (λ q.
            let ((l, made), served) = both.0 q in
            (cfg, record { loaded = e; logger = l; logger_made = made; served = served })),
        (λ h.
            let (used, k) = h in
            let same : used ≡ cfg = ok-injective used cfg (sym k.loaded ∙ e) in
            let k' = subst Serves same k in both.1 ((k'.logger, k'.logger_made), k'.served)),
      )
  with_config_iff flags (err why) e = ((λ q. absurd (cc)), (λ h. absurd (cc (e, h.1.loaded))))
  with_config_iff flags panic e = ((λ q. absurd (cc)), (λ h. absurd (cc (e, h.1.loaded))))
  with_config_iff flags stuck e = ((λ q. absurd (cc)), (λ h. absurd (cc (e, h.1.loaded))))

  -- The exit code of the program is 0 exactly if it was asked for its usage or its version, or if its
  -- configuration is loaded, its logger and its outputs are made, its address is resolved, its socket
  -- opened, and its buffer is neither negative nor above 2 ^ 48 bytes: what is received, and what fails
  -- in an output behind its making, never shows in the exit code.
  pub enter-exit_code_iff :
      (exit_code (enter unmarshal parse_level dissect s events c) ≡ 0) ↔ Succeeds
  unfolding enter
  enter-exit_code_iff = parsed s.command_line refl
    where
      parsed :
          (line : CommandLine)
          → s.command_line ≡ line
          → (exit_code (enter_parsed unmarshal parse_level dissect s events c line) ≡ 0) ↔ Succeeds
      parsed help_asked e = ((λ q. usage e), (λ h. refl))
      parsed bad_arguments e = (
        (λ q. absurd (cc)),
        (λ h. elim h [
          | usage f ↦ absurd (cc (e, f))
          | version flags f v ↦ absurd (cc (e, f))
          | service flags cfg f k ↦ absurd (cc (e, f))
        ]),
      )
      parsed (flags_found flags) e = elim (Bool-cases flags.show_version) [
        | inl asked ↦ rw asked ((λ q. version flags e asked), (λ h. refl))
        | inr not_asked ↦
            let both = with_config_iff flags (load unmarshal s.file) refl in
            rw not_asked (
              (λ q. let (cfg, k) = both.0 q in service flags cfg e k),
              (λ h. elim h [
                | usage f ↦ absurd (cc (e, f))
                | version found f v ↦
                    let same : found ≡ flags = cc (e, f) in absurd (cc (v, not_asked, same))
                | service found cfg f k ↦ both.1 (cfg, k)
              ]),
            )
      ]
