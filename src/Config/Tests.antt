-- ===== src/Config/Tests.antt =====
-- A parser that sets the buffer to zero and enables the PCAP file.
use tzsp_server.Prelude.{◌≡◌, refl, true, [], ◌∷◌, Bytes, Result, ok}
use tzsp_server.Prelude.Int.{pos}
use tzsp_server.Config.{Config, default_config, contents, load}
use tzsp_server.Config.Loading.{IsFilled, load-IsFilled}

abbrev unmarshal : Bytes → Config → Result Bytes Config
unmarshal text cfg = ok (record cfg {
  server = record (cfg.server) { buffer_size = pos 0 };
  output = record (cfg.output) { pcap = record (cfg.output.pcap) { enabled = true } };
})

abbrev set_config : Config
set_config = record default_config {
  server = record (default_config.server) { buffer_size = pos 0 };
  output = record (default_config.output) {
    pcap = record (default_config.output.pcap) { enabled = true };
  };
}

load-IsFilled_example :
    (cfg' : Config) × (load unmarshal (contents (1 ∷ [])) ≡ ok cfg') × IsFilled set_config cfg'
load-IsFilled_example = load-IsFilled unmarshal (1 ∷ []) set_config refl
