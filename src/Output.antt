-- ===== src/Output.antt =====
-- internal/output/filewriter.go: the file of packet metadata. The entries that a writer made are kept
-- in its state; logrus, which prints an entry into the file, is not modelled.
pub mod Entries
use tzsp_server.Prelude.{
  ℕ, Bool, true, false, not, ◌||◌, Option, none, some, List, [], ◌∷◌, ◌++◌, Bytes, if◌then◌else◌,
  Result, ok, err,
}
use tzsp_server.Prelude.Text.{codes, text_eq}
use tzsp_server.Decoder.{PacketInfo}

pub data Format : Type 0 where
  json_format text_format : Format

-- The value of a field.
pub data Value : Type 0 where
  text : Bytes → Value
  number : ℕ → Value

-- The fields of an entry, without their order.
abbrev pub Entry : Type 0
Entry = List (Bytes × Value)

-- A writer that is not enabled has no logger, so no format.
pub record FileWriter : Type 0 where
  pub enabled : Bool
  pub format : Format
  pub entries : List Entry

-- `NewFileWriter`; `open_error` is the error of `os.OpenFile`.
unfoldable pub new_file_writer : Option Bytes → Bool → Bytes → Bytes → Result Bytes FileWriter
new_file_writer open_error enabled output_file format =
    let chosen = if text_eq format (codes "json") then json_format else text_format in
    if not enabled || text_eq output_file []
    then ok (record { enabled = false; format = chosen; entries = [] })
    else elim open_error [
      | some why ↦ err why
      | none ↦ ok (record { enabled = true; format = chosen; entries = [] })
    ]

abbrev flags_field : Bytes → Entry
flags_field flags = if text_eq flags [] then [] else (codes "tcp_flags", text flags) ∷ []

unfoldable pub fields : PacketInfo → Entry
fields info =
    (codes "protocol", text info.protocol)
    ∷ (codes "src_ip", text info.src_ip)
    ∷ (codes "dst_ip", text info.dst_ip)
    ∷ (codes "src_port", number info.src_port)
    ∷ (codes "dst_port", number info.dst_port)
    ∷ (codes "src_mac", text info.src_mac)
    ∷ (codes "dst_mac", text info.dst_mac)
    ∷ (codes "length", number info.len)
    ∷ (codes "payload_len", number info.payload_len)
    ∷ flags_field info.tcp_flags

unfoldable pub write_packet : PacketInfo → FileWriter → FileWriter
unfolding fields
write_packet info w =
    if not w.enabled then w else record w { entries = w.entries ++ fields info ∷ [] }

-- `Close` leaves the file to the garbage collector.
abbrev pub close : FileWriter → Option Bytes
close w = none
