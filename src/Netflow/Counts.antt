-- ===== src/Netflow/Counts.antt =====
-- What a flow counts: the packets of its key since it was made, and their bytes.
use tzsp_server.Prelude.{ℕ, ◌+◌, ◌%◌, ◌^◌, ◌≡◌, ◌≢◌, false, List, [], ◌∷◌, Bytes, length}
use tzsp_server.Prelude.Int.{ℤ, leb_ℤ}
use tzsp_server.Prelude.Text.{codes}
use tzsp_server.Net.Parse.{parse_ip}
use Prim.Native.Nat.{bit_or}
use tzsp_server.Tzsp.{Time}
use tzsp_server.Netflow.{Flow, since, parse_tcp_flags}
use tzsp_server.Netflow.Table.{Arrival}

abbrev pub total : List Arrival → ℕ
total [] = 0
total (a ∷ rest) = a.info.len + total rest

abbrev pub latest : Time → List Arrival → Time
latest t [] = t
latest t (a ∷ rest) = latest a.info.timestamp rest

-- The flags of the arrivals, gathered behind `flags`.
abbrev pub all_flags : ℕ → List Arrival → ℕ
all_flags flags [] = flags
all_flags flags (a ∷ rest) = all_flags (bit_or flags (parse_tcp_flags a.info.tcp_flags)) rest

-- The packet came before the flow, first seen at `t`, reached the active timeout.
abbrev pub IsYoung : ℤ → Time → Arrival → Type 0
IsYoung active_timeout t a = leb_ℤ active_timeout (since a.clock t) ≡ false

-- The parts of a flow that no packet changes.
pub record SameIdentity (f g : Flow) : Type 0 where
  pub same_src_ip : g.src_ip ≡ f.src_ip
  pub same_dst_ip : g.dst_ip ≡ f.dst_ip
  pub same_src_port : g.src_port ≡ f.src_port
  pub same_dst_port : g.dst_port ≡ f.dst_port
  pub same_protocol : g.protocol ≡ f.protocol

-- `g` is `f` with the arrivals counted.
record Counted (f g : Flow) (arrivals : List Arrival) : Type 0 where
  packets_are : g.packets ≡ (f.packets + length arrivals) % 2 ^ 32
  bytes_are : g.bytes ≡ (f.bytes + total arrivals) % 2 ^ 32
  first_is : g.first_seen ≡ f.first_seen
  last_is : g.last_seen ≡ latest f.last_seen arrivals
  flags_are : g.tcp_flags ≡ all_flags f.tcp_flags arrivals
  same_flow : SameIdentity f g

-- `n` is the number that the IP header has for the protocol, or 0 for another name.
pub data IsNumberOf (name : Bytes) (n : ℕ) : Type 0 where
  tcp : name ≡ codes "TCP" → n ≡ 6 → IsNumberOf name n
  udp : name ≡ codes "UDP" → n ≡ 17 → IsNumberOf name n
  icmp : name ≡ codes "ICMPv4" → n ≡ 1 → IsNumberOf name n
  icmp6 : name ≡ codes "ICMPv6" → n ≡ 58 → IsNumberOf name n
  unnamed :
      name ≢ codes "TCP"
      → name ≢ codes "UDP"
      → name ≢ codes "ICMPv4"
      → name ≢ codes "ICMPv6"
      → n ≡ 0
      → IsNumberOf name n

-- A flow that the table holds under key `k`, as the packets of that key made it.
pub record IsAccount (first : Arrival) (rest : List Arrival) (g : Flow) : Type 0 where
  pub packets_are : g.packets ≡ (1 + length rest) % 2 ^ 32
  pub bytes_are : g.bytes ≡ (first.info.len + total rest) % 2 ^ 32
  pub first_is : g.first_seen ≡ first.info.timestamp
  pub last_is : g.last_seen ≡ latest first.info.timestamp rest
  pub flags_are : g.tcp_flags ≡ all_flags 0 (first ∷ rest)
  pub src_ip_is : g.src_ip ≡ parse_ip first.info.src_ip
  pub dst_ip_is : g.dst_ip ≡ parse_ip first.info.dst_ip
  pub src_port_is : g.src_port ≡ first.info.src_port
  pub dst_port_is : g.dst_port ≡ first.info.dst_port
  pub protocol_is : IsNumberOf first.info.protocol g.protocol
