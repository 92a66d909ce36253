-- ===== src/Config.antt =====
-- internal/config/config.go: the configuration, its defaults and `Load`. The package yaml.v3 is a
-- parameter: `unmarshal` overrides a configuration by the settings of a text.
pub mod Loading
mod Tests
use tzsp_server.Prelude.{
  ℕ, Bool, true, false, [], ◌∷◌, Bytes, if◌then◌else◌, Result, ok, err, panic, stuck,
}
use tzsp_server.Prelude.Int.{ℤ, pos, eqb_ℤ}
use tzsp_server.Prelude.Text.{codes, text_eq}

pub record ServerConfig : Type 0 where
  pub listen_addr : Bytes
  pub buffer_size : ℤ

pub record FileOutputConfig : Type 0 where
  pub enabled : Bool
  pub output_file : Bytes
  pub format : Bytes

pub record PcapOutputConfig : Type 0 where
  pub enabled : Bool
  pub output_file : Bytes
  pub max_size_mb : ℤ
  pub max_backups : ℤ

pub record NetflowOutputConfig : Type 0 where
  pub enabled : Bool
  pub collector_addr : Bytes
  pub version : ℤ
  pub flow_timeout : ℤ
  pub active_timeout : ℤ

pub record QingpingFilterConfig : Type 0 where
  pub src_ip : Bytes
  pub dst_ip : Bytes
  pub dst_port : ℕ
  pub protocol : Bytes

pub record QingpingOutputConfig : Type 0 where
  pub enabled : Bool
  pub filter : QingpingFilterConfig
  pub strict_json : Bool
  pub upstream_url : Bytes
  pub ignore_ssl : Bool
  pub ignore_http_errors : Bool

pub record OutputConfig : Type 0 where
  pub file : FileOutputConfig
  pub pcap : PcapOutputConfig
  pub netflow : NetflowOutputConfig
  pub qingping : QingpingOutputConfig

pub record LoggingFileConfig : Type 0 where
  pub enabled : Bool
  pub level : Bytes
  pub format : Bytes
  pub path : Bytes

pub record LoggingConsoleConfig : Type 0 where
  pub enabled : Bool
  pub level : Bytes
  pub format : Bytes

pub record LoggingConfig : Type 0 where
  pub file : LoggingFileConfig
  pub console : LoggingConsoleConfig

pub record Config : Type 0 where
  pub server : ServerConfig
  pub output : OutputConfig
  pub logging : LoggingConfig

-- The zero values of Go's structs.
abbrev no_outputs : OutputConfig
no_outputs = record {
  file = record { enabled = false; output_file = []; format = [] };
  pcap = record { enabled = false; output_file = []; max_size_mb = pos 0; max_backups = pos 0 };
  netflow = record {
    enabled = false;
    collector_addr = [];
    version = pos 0;
    flow_timeout = pos 0;
    active_timeout = pos 0;
  };
  qingping = record {
    enabled = false;
    filter = record { src_ip = []; dst_ip = []; dst_port = 0; protocol = [] };
    strict_json = false;
    upstream_url = [];
    ignore_ssl = false;
    ignore_http_errors = false;
  };
}

abbrev pub default_config : Config
default_config = record {
  server = record { listen_addr = codes "0.0.0.0:37008"; buffer_size = pos 65536 };
  output = no_outputs;
  logging = record {
    file = record { enabled = false; level = []; format = []; path = [] };
    console = record { enabled = true; level = codes "info"; format = codes "json" };
  };
}

-- A configuration file, as `os.Stat` and `os.ReadFile` find it.
pub data ConfigFile : Type 0 where
  missing : ConfigFile
  unreadable : Bytes → ConfigFile
  contents : Bytes → ConfigFile

pub data LoadError : Type 0 where
  not_read not_parsed : Bytes → LoadError

-- `if *n == 0 { *n = fallback }`, and the same of a text.
abbrev or_number : ℤ → ℤ → ℤ
or_number n fallback = if eqb_ℤ n (pos 0) then fallback else n

abbrev or_text : Bytes → Bytes → Bytes
or_text s fallback = if text_eq s [] then fallback else s

-- The additional defaults of `Load`.
unfoldable pub fill : Config → Config
fill cfg = record cfg {
  server = record {
    listen_addr = or_text cfg.server.listen_addr (codes "0.0.0.0:37008");
    buffer_size = or_number cfg.server.buffer_size (pos 65536);
  };
  output = record (cfg.output) {
    netflow = record (cfg.output.netflow) {
      flow_timeout = or_number cfg.output.netflow.flow_timeout (pos 60);
      active_timeout = or_number cfg.output.netflow.active_timeout (pos 120);
    };
  };
}

abbrev parsed : Result Bytes Config → Result LoadError Config
parsed (ok cfg) = ok (fill cfg)
parsed (err why) = err (not_parsed why)
parsed panic = panic
parsed stuck = stuck

unfoldable pub load : (Bytes → Config → Result Bytes Config) → ConfigFile → Result LoadError Config
unfolding fill
load unmarshal missing = ok default_config
load unmarshal (unreadable why) = err (not_read why)
load unmarshal (contents text) = parsed (unmarshal text default_config)
