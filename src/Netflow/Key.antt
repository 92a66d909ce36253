-- ===== src/Netflow/Key.antt =====
-- The flow key tells apart the addresses, the ports and the protocol that it is made of.
use tzsp_server.Prelude.{
  ℕ, ◌≤◌, ◌≡◌, ◌≢◌, ◌↔◌, ◌⊎◌, sym, ap, ◌∙◌, [], ◌∷◌, ◌++◌, append_assoc, Bytes, All, All-append,
  arith,
}
use tzsp_server.Prelude.Decimal.{decimal, decimal-injective, decimal-IsDigit, IsDigit}
use tzsp_server.Prelude.Separators.{Without, split_first, split_last}
use tzsp_server.Decoder.{PacketInfo}
use tzsp_server.Netflow.{make_flow_key}

-- The parts of two packets that a flow is identified by are equal.
pub record SameFlow (i j : PacketInfo) : Type 0 where
  pub same_src_ip : i.src_ip ≡ j.src_ip
  pub same_src_port : i.src_port ≡ j.src_port
  pub same_dst_ip : i.dst_ip ≡ j.dst_ip
  pub same_dst_port : i.dst_port ≡ j.dst_port
  pub same_protocol : i.protocol ≡ j.protocol

-- The addresses are printed with no dash.
pub record HasPlainIps (i : PacketInfo) : Type 0 where
  pub plain_src : Without b'-' i.src_ip
  pub plain_dst : Without b'-' i.dst_ip

digits-Without : (c : ℕ) (s : Bytes) → c ≤ 47 ⊎ 58 ≤ c → All IsDigit s → Without c s
digits-Without c [] h d = tt
digits-Without c (x ∷ s) h d = (ground arith, digits-Without c s h d.1)

endpoint : Bytes → ℕ → Bytes
endpoint ip port = ip ++ b':' ∷ decimal port

endpoint-Without : (ip : Bytes) (port : ℕ) → Without b'-' ip → Without b'-' (endpoint ip port)
unfolding endpoint
endpoint-Without ip port h =
    All-append (λ b. b ≢ b'-') ip (b':' ∷ decimal port) h
      (ground arith, digits-Without b'-' (decimal port) (omega arith) (decimal-IsDigit port))

endpoint-injective : (a b : Bytes) (p q : ℕ) → endpoint a p ≡ endpoint b q → (a ≡ b) × (p ≡ q)
unfolding endpoint
endpoint-injective a b p q e =
    let no_colon = λ (n : ℕ). digits-Without b':' (decimal n) (omega arith) (decimal-IsDigit n) in
    let (ip, port) = split_last b':' a b (decimal p) (decimal q) (no_colon p) (no_colon q) e in
    (ip, decimal-injective p q port)

key_of_endpoints :
    (i : PacketInfo)
    → make_flow_key i
      ≡ endpoint i.src_ip i.src_port ++ b'-' ∷ (endpoint i.dst_ip i.dst_port ++ b'-' ∷ i.protocol)
unfolding make_flow_key endpoint
key_of_endpoints i = simp append_assoc

-- Two packets whose addresses hold no dash have one flow key exactly when they have the same
-- addresses, ports and protocol.
pub make_flow_key-injective :
    (i j : PacketInfo)
    → HasPlainIps i
    → HasPlainIps j
    → (make_flow_key i ≡ make_flow_key j) ↔ SameFlow i j
make_flow_key-injective i j hi hj = (apart, together)
  where
    apart : make_flow_key i ≡ make_flow_key j → SameFlow i j
    apart e =
        let keys = sym (key_of_endpoints i) ∙ e ∙ key_of_endpoints j in
        let (src, rest) =
          split_first b'-' (endpoint i.src_ip i.src_port) (endpoint j.src_ip j.src_port) _ _
            (endpoint-Without i.src_ip i.src_port hi.plain_src)
            (endpoint-Without j.src_ip j.src_port hj.plain_src) keys in
        let (dst, protocol) =
          split_first b'-' (endpoint i.dst_ip i.dst_port) (endpoint j.dst_ip j.dst_port) _ _
            (endpoint-Without i.dst_ip i.dst_port hi.plain_dst)
            (endpoint-Without j.dst_ip j.dst_port hj.plain_dst) rest in
        let (src_ip, src_port) = endpoint-injective i.src_ip j.src_ip i.src_port j.src_port src in
        let (dst_ip, dst_port) = endpoint-injective i.dst_ip j.dst_ip i.dst_port j.dst_port dst in
        record {
          same_src_ip = src_ip;
          same_src_port = src_port;
          same_dst_ip = dst_ip;
          same_dst_port = dst_port;
          same_protocol = protocol;
        }

    together : SameFlow i j → make_flow_key i ≡ make_flow_key j
    together s =
        unfold make_flow_key in
        cc (
          s.same_src_ip,
          ap decimal s.same_src_port,
          s.same_dst_ip,
          ap decimal s.same_dst_port,
          s.same_protocol,
        )
