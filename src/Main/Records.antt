-- ===== src/Main/Records.antt =====
-- The metadata file and the uploads when the program ends.
use mathlib.Core.Option
use tzsp_server.Prelude.{ℕ, ◌≡◌, true, false, Option, none, some, List, [], ◌∷◌, Bytes, ok}
use tzsp_server.Decoder.{Dissection}
use tzsp_server.Output
use tzsp_server.Output.Entries.{Tells}
use tzsp_server.Qingping.Export
use tzsp_server.Config
use tzsp_server.Server.{Server, Event}
use tzsp_server.Server.Streams.{Sighting}
use tzsp_server.Main.{Surface, Closing, wire}
use tzsp_server.Main.Wiring.{IsSetup, IsWired, wire-IsWired}
use tzsp_server.Main.Whole.{HasRoom}

-- Each sighting has its entry, in their order, and there is no other entry.
pub data Recorded : List Sighting → List Output.Entry → Type 0 where
  no_more : Recorded [] []
  one_more :
      (x : Sighting) (xs : List Sighting) (e : Output.Entry) (es : List Output.Entry)
      → Tells x.info e
      → Recorded xs es
      → Recorded (x ∷ xs) (e ∷ es)

-- What the configuration has for the exporter of the sensor's texts, if it is enabled.
pub data IsSensor (cfg : Config.QingpingOutputConfig) : Option Export.Config → Type 0 where
  enabled_sensor :
      (config : Export.Config)
      → cfg.enabled ≡ true
      → IsSetup cfg config
      → IsSensor cfg (some config)
  no_sensor : cfg.enabled ≡ false → IsSensor cfg none

module _ (dissect : Bytes → Dissection) (surface : Surface) (cfg : Config.Config)
    (events : List Event) (c : Closing) (s0 : Server) (n : ℕ) (wired : wire surface cfg ≡ ok s0)
    (size : HasRoom cfg n) where
  abbrev w0 : IsWired cfg s0
  w0 = wire-IsWired surface cfg s0 wired
