-- ===== src/Output/Entries.antt =====
-- What an entry of the metadata file tells of its packet.
use tzsp_server.Prelude.{
  ◌≡◌, refl, inl, inr, Bool-cases, Option, none, some, [], ◌∷◌, Bytes, if◌then◌else◌,
}
use tzsp_server.Prelude.Text.{codes, text_eq}
use tzsp_server.Decoder.{PacketInfo}
use tzsp_server.Output.{Value, text, number, Entry, fields}

-- The value of the field `name`.
unfoldable pub value_of : Bytes → Entry → Option Value
value_of name [] = none
value_of name ((other, value) ∷ entry) =
    if text_eq name other then some value else value_of name entry

-- An entry has each part of the description under its name, and the TCP flags if there are any.
pub record Tells (info : PacketInfo) (entry : Entry) : Type 0 where
  pub protocol_is : value_of (codes "protocol") entry ≡ some (text info.protocol)
  pub src_ip_is : value_of (codes "src_ip") entry ≡ some (text info.src_ip)
  pub dst_ip_is : value_of (codes "dst_ip") entry ≡ some (text info.dst_ip)
  pub src_port_is : value_of (codes "src_port") entry ≡ some (number info.src_port)
  pub dst_port_is : value_of (codes "dst_port") entry ≡ some (number info.dst_port)
  pub src_mac_is : value_of (codes "src_mac") entry ≡ some (text info.src_mac)
  pub dst_mac_is : value_of (codes "dst_mac") entry ≡ some (text info.dst_mac)
  pub length_is : value_of (codes "length") entry ≡ some (number info.len)
  pub payload_len_is : value_of (codes "payload_len") entry ≡ some (number info.payload_len)
  pub tcp_flags_is :
      value_of (codes "tcp_flags") entry
      ≡ (if text_eq info.tcp_flags [] then none else some (text info.tcp_flags))

fields-flags :
    (info : PacketInfo)
    → value_of (codes "tcp_flags") (fields info)
      ≡ (if text_eq info.tcp_flags [] then none else some (text info.tcp_flags))
unfolding fields value_of text_eq
fields-flags info = elim (Bool-cases (text_eq info.tcp_flags [])) [
  | inl empty ↦ rw empty refl
  | inr flags ↦ rw flags refl
]

pub fields-Tells : (info : PacketInfo) → Tells info (fields info)
unfolding fields value_of text_eq
fields-Tells info = record {
  protocol_is = refl;
  src_ip_is = refl;
  dst_ip_is = refl;
  src_port_is = refl;
  dst_port_is = refl;
  src_mac_is = refl;
  dst_mac_is = refl;
  length_is = refl;
  payload_len_is = refl;
  tcp_flags_is = fields-flags info;
}
