-- ===== src/Config/Loading.antt =====
-- What a configuration that was loaded can be relied on for.
use tzsp_server.Prelude.{
  zero, suc, ◌≡◌, ◌≢◌, refl, inl, inr, [], Bytes, Bool-cases, Result, ok, arith,
}
use tzsp_server.Prelude.Int.{ℤ, pos, negsuc}
use tzsp_server.Prelude.Text.{codes, text_eq, text_eq_iff}
use tzsp_server.Config.{Config, default_config, contents, load, fill, or_text, or_number}

-- A setting that was given stays, and one that is `unset` gets its default.
pub data Defaulted {A : Type 0} (unset default given final : A) : Type 0 where
  given_stays : given ≢ unset → final ≡ given → Defaulted unset default given final
  gets_default : given ≡ unset → final ≡ default → Defaulted unset default given final

-- `cfg'` is `cfg` with the defaults of four settings, and every other setting as it was.
pub record IsFilled (cfg cfg' : Config) : Type 0 where
  pub address : Defaulted [] (codes "0.0.0.0:37008") cfg.server.listen_addr cfg'.server.listen_addr
  pub buffer : Defaulted (pos 0) (pos 65536) cfg.server.buffer_size cfg'.server.buffer_size
  pub flow_timeout :
      Defaulted (pos 0) (pos 60) cfg.output.netflow.flow_timeout cfg'.output.netflow.flow_timeout
  pub active_timeout :
      Defaulted
        (pos 0)
        (pos 120)
        cfg.output.netflow.active_timeout
        cfg'.output.netflow.active_timeout
  pub keeps_netflow :
      (cfg'.output.netflow.enabled ≡ cfg.output.netflow.enabled)
      × (cfg'.output.netflow.collector_addr ≡ cfg.output.netflow.collector_addr)
      × (cfg'.output.netflow.version ≡ cfg.output.netflow.version)
  pub keeps_file : cfg'.output.file ≡ cfg.output.file
  pub keeps_pcap : cfg'.output.pcap ≡ cfg.output.pcap
  pub keeps_qingping : cfg'.output.qingping ≡ cfg.output.qingping
  pub keeps_logging : cfg'.logging ≡ cfg.logging

or_text-Defaulted : (text default : Bytes) → Defaulted [] default text (or_text text default)
or_text-Defaulted text default = elim (Bool-cases (text_eq text [])) [
  | inl e ↦ gets_default ((text_eq_iff text []).0 e) (rw e refl)
  | inr e ↦ given_stays (λ same. cc ((text_eq_iff text []).1 same, e)) (rw e refl)
]

or_number-Defaulted : (n default : ℤ) → Defaulted (pos 0) default n (or_number n default)
or_number-Defaulted (pos zero) default = gets_default refl refl
or_number-Defaulted (pos (suc n)) default = given_stays (λ e. cc) (ground arith)
or_number-Defaulted (negsuc n) default = given_stays (λ e. cc) (ground arith)

fill-IsFilled : (cfg : Config) → IsFilled cfg (fill cfg)
unfolding fill
fill-IsFilled cfg = record {
  address = or_text-Defaulted cfg.server.listen_addr (codes "0.0.0.0:37008");
  buffer = or_number-Defaulted cfg.server.buffer_size (pos 65536);
  flow_timeout = or_number-Defaulted cfg.output.netflow.flow_timeout (pos 60);
  active_timeout = or_number-Defaulted cfg.output.netflow.active_timeout (pos 120);
  keeps_netflow = (refl, refl, refl);
  keeps_file = refl;
  keeps_pcap = refl;
  keeps_qingping = refl;
  keeps_logging = refl;
}

-- From a file that the YAML parser accepts, `Load` gives the configuration of the parser, in which an
-- empty listen address becomes 0.0.0.0:37008, a buffer size of 0 becomes 65536, and NetFlow timeouts
-- of 0 become 60 and 120; each of the four that is set stays as it is, a negative number too, and so
-- does every other setting.
pub load-IsFilled :
    (unmarshal : Bytes → Config → Result Bytes Config) (text : Bytes) (cfg : Config)
    → unmarshal text default_config ≡ ok cfg
    → (cfg' : Config) × (load unmarshal (contents text) ≡ ok cfg') × IsFilled cfg cfg'
unfolding load
load-IsFilled unmarshal text cfg e = (fill cfg, rw e refl, fill-IsFilled cfg)
