-- ===== src/Server/Sent.antt =====
-- What a sensor sends reaches the outputs: the encoder of TZSP packets against the receive loop.
use tzsp_server.Prelude.{
  zero, suc, subst, ℕ, ◌+◌, ◌∙◌, some, ◌≤◌, ◌<◌, ◌≡◌, refl, ap, false, List, [], ◌∷◌, Bytes, length,
  take, ◌==◌, ok, arith, All,
}
use tzsp_server.Tzsp
use tzsp_server.Tzsp.{Packet, version}
use tzsp_server.Tzsp.RoundTrip.{IsCarried, encode, decode-encode}
use tzsp_server.Netflow.{Tick}
use tzsp_server.Server.{
  Surroundings, Event, timed_out, read_failed, datagram, swept, Server, room, receive_loop,
}
use tzsp_server.Server.Streams.{Frame, frame_of, datagrams, frames, netflow_ops}
use tzsp_server.Server.Outputs.{Outputs}
use tzsp_server.Server.Counters.{IsCounting, Counted}
use tzsp_server.Server.Run.{receive_loop-Outputs, receive_loop-Counted}
use tzsp_server.Decoder.{Dissection}
use tzsp_server.Prelude.Int.{pos}

-- What happens between two rounds, and a packet on its way: it is sent as its encoding, and `env` is what
-- the world answers when it arrives.
pub data Traffic : Type 0 where
  sent : Surroundings → Packet → Traffic
  quiet : Traffic
  disturbed : Bytes → Traffic
  ticked : Tick → Traffic

unfoldable pub events_of : List Traffic → List Event
events_of [] = []
events_of (sent env p ∷ xs) = datagram env (encode p) p.source_addr ∷ events_of xs
events_of (quiet ∷ xs) = timed_out ∷ events_of xs
events_of (disturbed why ∷ xs) = read_failed why ∷ events_of xs
events_of (ticked t ∷ xs) = swept t ∷ events_of xs

unfoldable pub frames_sent : List Traffic → List Frame
frames_sent [] = []
frames_sent (sent env p ∷ xs) = frame_of env p ∷ frames_sent xs
frames_sent (quiet ∷ xs) = frames_sent xs
frames_sent (disturbed why ∷ xs) = frames_sent xs
frames_sent (ticked t ∷ xs) = frames_sent xs

-- A packet of the protocol that has a frame and fits in a buffer of `n` bytes, with its time of arrival.
pub record IsSendable (n : ℕ) (env : Surroundings) (p : Packet) : Type 0 where
  pub version_is : p.version ≡ version
  pub carried : All IsCarried p.tags
  pub has_frame : 0 < length p.encap_packet
  pub fits : length (encode p) ≤ n
  pub arrives : p.received_time ≡ env.received_time

abbrev pub IsGood : ℕ → Traffic → Type 0
IsGood n (sent env p) = IsSendable n env p
IsGood n quiet = Unit {0}
IsGood n (disturbed why) = Unit {0}
IsGood n (ticked t) = Unit {0}

take-length-le : (n : ℕ) (s : Bytes) → length s ≤ n → take n s ≡ s
take-length-le zero [] h = refl
take-length-le zero (b ∷ s) h = absurd (omega arith)
take-length-le (suc n) [] h = refl
take-length-le (suc n) (b ∷ s) h = ap (λ r. b ∷ r) (take-length-le n s (omega arith))

-- On its way a packet loses nothing: what is decoded is what was sent.
pub frames-events_of :
    (n : ℕ) (xs : List Traffic) → All (IsGood n) xs → frames n (events_of xs) ≡ frames_sent xs
unfolding frames events_of frames_sent
frames-events_of n [] h = refl
frames-events_of n (sent env p ∷ xs) h =
    let whole = take-length-le n (encode p) h.0.fits in
    let decoded =
      subst (λ t. Tzsp.decode (encode p) p.source_addr t ≡ ok p) h.0.arrives
        (decode-encode p h.0.version_is h.0.carried) in
    let frame : (length p.encap_packet == 0) ≡ false = ground (arith, h.0.has_frame) in
    rw (whole, decoded, frame) (ap (λ fs. frame_of env p ∷ fs) (frames-events_of n xs h.1))
frames-events_of n (quiet ∷ xs) h = frames-events_of n xs h.1
frames-events_of n (disturbed why ∷ xs) h = frames-events_of n xs h.1
frames-events_of n (ticked t ∷ xs) h = frames-events_of n xs h.1

abbrev pub packets_sent : List Traffic → ℕ
packets_sent [] = 0
packets_sent (sent env p ∷ xs) = 1 + packets_sent xs
packets_sent (quiet ∷ xs) = packets_sent xs
packets_sent (disturbed why ∷ xs) = packets_sent xs
packets_sent (ticked t ∷ xs) = packets_sent xs

datagrams-events_of : (xs : List Traffic) → datagrams (events_of xs) ≡ packets_sent xs
unfolding datagrams events_of
datagrams-events_of [] = refl
datagrams-events_of (sent env p ∷ xs) = omega (arith, datagrams-events_of xs)
datagrams-events_of (quiet ∷ xs) = datagrams-events_of xs
datagrams-events_of (disturbed why ∷ xs) = datagrams-events_of xs
datagrams-events_of (ticked t ∷ xs) = datagrams-events_of xs

-- What sensors send gets through the receive loop, if each packet is of version 1, has tags with right
-- length bytes, a frame, and fits in the buffer: whatever timeouts, failed reads and ticks come between,
-- the loop counts each packet that was sent as received and its frame as decoded, modulo 2 ^ 64; and
-- the PCAP file, the QingPing exporter and the metadata file are in the state that they reach on the
-- frames that were sent, in their order, each once and with its own time.
pub receive_loop-sent :
    (dissect : Bytes → Dissection) (xs : List Traffic) (s : Server) (n : ℕ)
    → s.buffer_size ≡ pos n
    → IsCounting s
    → All (IsGood n) xs
    → (s' : Server) × (receive_loop dissect (events_of xs) s ≡ some s')
      × Counted (packets_sent xs) (frames_sent xs) s s'
      × Outputs dissect (frames_sent xs) (netflow_ops dissect n (events_of xs)) s s'
receive_loop-sent dissect xs s n size counting good =
    let (s', run, counts, written_le, frames_le) =
      receive_loop-Counted dissect (events_of xs) s counting in
    let (s2, run2, outputs) = receive_loop-Outputs dissect (events_of xs) s counting in
    let same : s2 ≡ s' = cc (run, run2) in
    let is_room : room s.buffer_size ≡ n = ap room size in
    let is_sent : frames (room s.buffer_size) (events_of xs) ≡ frames_sent xs =
      ap (λ (k : ℕ). frames k (events_of xs)) is_room ∙ frames-events_of n xs good in
    (
      s',
      run,
      rw (is_sent, datagrams-events_of xs) at counts,
      rw (is_sent, is_room, same) at outputs,
    )
