-- ===== src/Main/Wiring.antt =====
-- The outputs that the server is made with are those that the configuration enables.
use tzsp_server.Prelude.{
  ◌≡◌, ◌≢◌, refl, sym, ap, Bool, if◌then◌else◌, true, false, Option, none, some, [], Bytes, inl,
  inr, ◌⊎◌, Result, ok, panic, stuck, err, ok-injective, bind-eq-ok, subst, arith,
}
use tzsp_server.Prelude.Int.{ℤ}
use tzsp_server.Prelude.Text.{text_eq_iff}
use tzsp_server.Netflow
use tzsp_server.Netflow.{Exporter}
use tzsp_server.Output.{FileWriter, new_file_writer}
use tzsp_server.Pcap.{Writer, Directory, WriteError, Attempt, new_writer, create_file}
use tzsp_server.Pcap.Bound.{IsConsistent, new_writer-IsConsistent}
use tzsp_server.Qingping.Export
use tzsp_server.Config
use tzsp_server.Server.{Server, new_server}
use tzsp_server.Server.Counters.{IsCounting}
use tzsp_server.Main.{
  Surface, file_output, pcap_output, netflow_output, qingping_output, qingping_config, wire,
  Failure, file_failed, netflow_failed, present, refused, made_pcap,
}

-- A NetFlow exporter as the configuration describes it, with an empty table and in sequence.
pub record IsFresh (cfg : Config.NetflowOutputConfig) (e : Exporter) : Type 0 where
  pub same_version : e.version ≡ cfg.version
  pub same_collector : e.collector_addr ≡ cfg.collector_addr
  pub no_flows : e.flows ≡ []
  pub nothing_sent : e.sent ≡ []

-- An output is there exactly if it is enabled, and then it is good.
pub data Output {A : Type 0} (enabled : Bool) (Good : A → Type 0) (o : Option A) : Type 0 where
  on : (x : A) → enabled ≡ true → o ≡ some x → Good x → Output enabled Good o
  off : enabled ≡ false → o ≡ none → Output enabled Good o

module _ {A : Type 0} (Good : A → Type 0) where
  abbrev Made : Result Failure (Option A) → Type 0
  Made r = (o : Option A) → r ≡ ok o → (x : A) × (o ≡ some x) × Good x

  Output-if :
      (enabled : Bool) (r : Result Failure (Option A)) (o : Option A)
      → Made r
      → (if enabled then r else ok none) ≡ ok o
      → Output enabled Good o
  Output-if true r o made e = let (x, is_x, good) = made o e in on x refl is_x good
  Output-if false r o made e = off refl (sym (ok-injective none o e))

netflow-Made :
    (resolve_error dial_error : Option Bytes) (cfg : Config.NetflowOutputConfig)
    → Made (IsFresh cfg) (
        present (
          refused netflow_failed (
            Netflow.new_exporter resolve_error dial_error cfg.collector_addr cfg.version
              cfg.flow_timeout cfg.active_timeout)))
unfolding Netflow.new_exporter
netflow-Made (some why) dial_error cfg o e = absurd (cc)
netflow-Made none (some why) cfg o e = absurd (cc)
netflow-Made none none cfg o e = (
  _,
  sym (ok-injective _ o e),
  record { same_version = refl; same_collector = refl; no_flows = refl; nothing_sent = refl },
)

netflow_output-Output :
    (surface : Surface) (cfg : Config.NetflowOutputConfig) (o : Option Exporter)
    → netflow_output surface cfg ≡ ok o
    → Output cfg.enabled (IsFresh cfg) o
netflow_output-Output surface cfg o =
    Output-if (IsFresh cfg) cfg.enabled _ o
      (netflow-Made surface.resolve_error surface.dial_error cfg)

-- A metadata writer that writes, if the file has a name, and has written nothing yet.
pub record IsOpened (cfg : Config.FileOutputConfig) (w : FileWriter) : Type 0 where
  pub nothing_written : w.entries ≡ []
  pub writes : cfg.output_file ≢ [] → w.enabled ≡ cfg.enabled

present-ok :
    {E A : Type 0} (f : E → Failure) (r : Result E A) (o : Option A)
    → present (refused f r) ≡ ok o
    → (x : A) × (r ≡ ok x) × (o ≡ some x)
present-ok f (ok x) o e = (x, refl, sym (ok-injective (some x) o e))
present-ok f (err why) o e = absurd (cc)
present-ok f panic o e = absurd (cc)
present-ok f stuck o e = absurd (cc)

new_file_writer-opened :
    (open_error : Option Bytes) (enabled : Bool) (file format : Bytes) (w : FileWriter)
    → new_file_writer open_error enabled file format ≡ ok w
    → (w.entries ≡ []) × (file ≢ [] → w.enabled ≡ enabled)
unfolding new_file_writer
new_file_writer-opened open_error enabled file format w e = ground (arith, text_eq_iff file [])

file-Made :
    (open_error : Option Bytes) (cfg : Config.FileOutputConfig)
    → Made (IsOpened cfg) (
        present
          (refused file_failed (new_file_writer open_error cfg.enabled cfg.output_file cfg.format)))
unfolding new_file_writer
file-Made open_error cfg o e =
    let (w, made, is_w) =
      present-ok file_failed (new_file_writer open_error cfg.enabled cfg.output_file cfg.format) o
        e in
    let (nothing, writes) =
      new_file_writer-opened open_error cfg.enabled cfg.output_file cfg.format w made in
    (w, is_w, record { nothing_written = nothing; writes = writes })

-- A PCAP writer of the configured file, whose count is that of the file.
pub record IsCapture (cfg : Config.PcapOutputConfig) (dir : Directory) (w : Writer) : Type 0 where
  pub same_file : w.filename ≡ cfg.output_file
  pub consistent : IsConsistent w dir

-- The exporter's settings, each the one of its name in the configuration.
pub record IsSetup (cfg : Config.QingpingOutputConfig) (config : Export.Config) : Type 0 where
  pub enabled_is : config.enabled ≡ cfg.enabled
  pub src_ip_is : config.filter.src_ip ≡ cfg.filter.src_ip
  pub dst_ip_is : config.filter.dst_ip ≡ cfg.filter.dst_ip
  pub dst_port_is : config.filter.dst_port ≡ cfg.filter.dst_port
  pub protocol_is : config.filter.protocol ≡ cfg.filter.protocol
  pub strict_json_is : config.strict_json ≡ cfg.strict_json
  pub upstream_url_is : config.upstream_url ≡ cfg.upstream_url
  pub ignore_ssl_is : config.ignore_ssl ≡ cfg.ignore_ssl
  pub ignore_http_errors_is : config.ignore_http_errors ≡ cfg.ignore_http_errors
  pub has_url : cfg.upstream_url ≢ []

qingping_cases :
    (cfg : Config.QingpingOutputConfig) (o : Option Export.Config)
    → qingping_output cfg ≡ ok o
    → ((cfg.enabled ≡ true) × (o ≡ some (qingping_config cfg)) × (cfg.upstream_url ≢ []))
      ⊎ ((cfg.enabled ≡ false) × (o ≡ none))
unfolding Export.new_exporter
qingping_cases cfg o e = ground (arith, text_eq_iff cfg.upstream_url [])

qingping_output-Output :
    (cfg : Config.QingpingOutputConfig) (o : Option Export.Config)
    → qingping_output cfg ≡ ok o
    → Output cfg.enabled (IsSetup cfg) o
qingping_output-Output cfg o e = elim (qingping_cases cfg o e) [
  | inl (enabled, is_config, url) ↦ on (qingping_config cfg) enabled is_config (record {
    enabled_is = refl;
    src_ip_is = refl;
    dst_ip_is = refl;
    dst_port_is = refl;
    protocol_is = refl;
    strict_json_is = refl;
    upstream_url_is = refl;
    ignore_ssl_is = refl;
    ignore_http_errors_is = refl;
    has_url = url;
  })
  | inr (disabled, is_none) ↦ off disabled is_none
]

pcap_made :
    (made : Directory × Result WriteError Writer) (o : Option Writer) (dir : Directory)
    → made_pcap made ≡ ok (o, dir)
    → (w : Writer) × (o ≡ some w) × (made.1 ≡ ok w) × (made.0 ≡ dir)
pcap_made (d, ok w) o dir e =
    let both = ok-injective (some w, d) (o, dir) e in
    (
      w,
      sym (ap (λ (x : Option Writer × Directory). x.0) both),
      refl,
      ap (λ (x : Option Writer × Directory). x.1) both,
    )
pcap_made (d, err why) o dir e = absurd (cc)
pcap_made (d, panic) o dir e = absurd (cc)
pcap_made (d, stuck) o dir e = absurd (cc)

new_writer-filename :
    (attempt : Attempt) (filename : Bytes) (max_size_mb max_backups : ℤ) (dir : Directory)
    (w : Writer)
    → (new_writer attempt filename max_size_mb max_backups dir).1 ≡ ok w
    → w.filename ≡ filename
unfolding new_writer create_file
new_writer-filename attempt filename max_size_mb max_backups dir w e = ground arith

pcap_if :
    (enabled : Bool) (Good : Writer → Type 0) (made : Directory × Result WriteError Writer)
    (start dir : Directory) (o : Option Writer)
    → ((w : Writer) → made.1 ≡ ok w → made.0 ≡ dir → Good w)
    → (if enabled then made_pcap made else ok (none, start)) ≡ ok (o, dir)
    → Output enabled Good o
pcap_if true Good made start dir o good e =
    let (w, is_w, is_made, is_dir) = pcap_made made o dir e in
    on w refl is_w (good w is_made is_dir)
pcap_if false Good made start dir o good e =
    off refl
      (sym (ap (λ (x : Option Writer × Directory). x.0) (ok-injective (none, start) (o, dir) e)))

pcap_output-Output :
    (surface : Surface) (cfg : Config.PcapOutputConfig) (o : Option Writer) (dir : Directory)
    → pcap_output surface cfg ≡ ok (o, dir)
    → Output cfg.enabled (IsCapture cfg dir) o
pcap_output-Output surface cfg o dir =
    pcap_if cfg.enabled (IsCapture cfg dir) _ surface.directory dir o (λ w made is_dir. record {
      same_file =
          new_writer-filename surface.attempt cfg.output_file cfg.max_size_mb cfg.max_backups
            surface.directory w made;
      consistent = subst (IsConsistent w) is_dir (
          new_writer-IsConsistent surface.attempt cfg.output_file cfg.max_size_mb cfg.max_backups
            surface.directory w made);
    })

-- The server as the configuration describes it.
pub record IsWired (cfg : Config.Config) (s : Server) : Type 0 where
  pub same_size : s.buffer_size ≡ cfg.server.buffer_size
  pub file_is : Output cfg.output.file.enabled (IsOpened cfg.output.file) s.file_writer
  pub pcap_is : Output cfg.output.pcap.enabled (IsCapture cfg.output.pcap s.directory) s.pcap_writer
  pub netflow_is : Output cfg.output.netflow.enabled (IsFresh cfg.output.netflow) s.netflow_exp
  pub qingping_is : Output cfg.output.qingping.enabled (IsSetup cfg.output.qingping) s.qingping_exp
  pub counting : IsCounting s
  pub no_uploads : s.uploads ≡ []

-- A server that the program makes has an output exactly if the configuration enables it, and each is
-- ready: the metadata file is open if it has a name, the PCAP writer agrees with its file, the NetFlow
-- exporter has its version, its collector and no flows, the QingPing exporter has every setting that
-- the configuration has for it, the four criteria of the filter among them, and a URL; the buffer has
-- the configured size, the counters are values of 64 bits, and nothing has been uploaded.
pub wire-IsWired :
    (surface : Surface) (cfg : Config.Config) (s : Server) → wire surface cfg ≡ ok s → IsWired cfg s
unfolding wire
wire-IsWired surface cfg s e =
    let (file, is_file, e1) = bind-eq-ok (file_output surface cfg.output.file) _ e in
    let ((pcap, dir), is_pcap, e2) = bind-eq-ok (pcap_output surface cfg.output.pcap) _ e1 in
    let (net, is_net, e3) = bind-eq-ok (netflow_output surface cfg.output.netflow) _ e2 in
    let (qing, is_qing, e4) = bind-eq-ok (qingping_output cfg.output.qingping) _ e3 in
    subst (IsWired cfg) (ok-injective _ s e4) (
      unfold new_server in
      record {
        same_size = refl;
        file_is =
            Output-if (IsOpened cfg.output.file) cfg.output.file.enabled _ file
              (file-Made surface.open_error cfg.output.file) is_file;
        pcap_is = pcap_output-Output surface cfg.output.pcap pcap dir is_pcap;
        netflow_is = netflow_output-Output surface cfg.output.netflow net is_net;
        qingping_is = qingping_output-Output cfg.output.qingping qing is_qing;
        counting = record {
          received_fits = omega arith;
          decoded_fits = omega arith;
          written_fits = omega arith;
        };
        no_uploads = refl;
      })
