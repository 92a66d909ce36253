-- ===== src/Main/Delivery.antt =====
-- From the sensor to the disk: what is sent is what is captured.
use tzsp_server.Prelude.{
  ℕ, ◌*◌, ◌^◌, ◌<◌, ◌≡◌, refl, sym, ap, subst, ◌∙◌, true, none, List, [], ◌∷◌, Bytes, All, ok,
}
use tzsp_server.Prelude.Int.{pos}
use tzsp_server.Decoder.{Dissection}
use tzsp_server.Pcap.{File, backup_name}
use tzsp_server.Pcap.Store.{IsRotating, accepted}
use tzsp_server.Pcap.Log.{IsEndOf}
use tzsp_server.Config
use tzsp_server.Server.{Server, Surroundings, packet_time}
use tzsp_server.Server.Sent.{
  Traffic, sent, quiet, disturbed, ticked, events_of, frames_sent, IsGood, frames-events_of,
}
use tzsp_server.Main.{Surface, Closing, terminated, wire, run}
use tzsp_server.Main.Whole.{HasRoom}
use tzsp_server.Main.Capture.{writes_of, run-IsEndOf}

-- The frames that are sent, with their times.
unfoldable pub file_sent : List Traffic → File
file_sent [] = []
file_sent (sent env p ∷ xs) =
    (record { time = packet_time p; content = p.encap_packet }) ∷ file_sent xs
file_sent (quiet ∷ xs) = file_sent xs
file_sent (disturbed why ∷ xs) = file_sent xs
file_sent (ticked t ∷ xs) = file_sent xs

-- The disk is fine while a packet is written.
pub record HasDisk (env : Surroundings) : Type 0 where
  pub rotates : (env.attempt.create_error ≡ none) × (env.attempt.header_error ≡ none)
  pub writes : env.write_error ≡ none

abbrev pub IsWritten : Traffic → Type 0
IsWritten (sent env p) = HasDisk env
IsWritten quiet = Unit {0}
IsWritten (disturbed why) = Unit {0}
IsWritten (ticked t) = Unit {0}

sent-IsRotating :
    (xs : List Traffic) → All IsWritten xs → All IsRotating (writes_of (frames_sent xs))
unfolding writes_of frames_sent
sent-IsRotating [] h = tt
sent-IsRotating (sent env p ∷ xs) h =
    (record { is_created = h.0.rotates.0; has_header = h.0.rotates.1 }, sent-IsRotating xs h.1)
sent-IsRotating (quiet ∷ xs) h = sent-IsRotating xs h.1
sent-IsRotating (disturbed why ∷ xs) h = sent-IsRotating xs h.1
sent-IsRotating (ticked t ∷ xs) h = sent-IsRotating xs h.1

accepted-sent :
    (xs : List Traffic) → All IsWritten xs → accepted (writes_of (frames_sent xs)) ≡ file_sent xs
unfolding accepted writes_of frames_sent file_sent
accepted-sent [] h = refl
accepted-sent (sent env p ∷ xs) h = rw h.0.writes (
    ap (λ fs. (record { time = packet_time p; content = p.encap_packet }) ∷ fs)
      (accepted-sent xs h.1))
accepted-sent (quiet ∷ xs) h = accepted-sent xs h.1
accepted-sent (disturbed why ∷ xs) h = accepted-sent xs h.1
accepted-sent (ticked t ∷ xs) h = accepted-sent xs h.1

module _ (dissect : Bytes → Dissection) (surface : Surface) (cfg : Config.Config)
    (xs : List Traffic) (c : Closing) (s0 : Server) (n mb m : ℕ) (wired : wire surface cfg ≡ ok s0)
    (size : HasRoom cfg n) (enabled : cfg.output.pcap.enabled ≡ true)
    (limit : cfg.output.pcap.max_size_mb ≡ pos mb) (backups : cfg.output.pcap.max_backups ≡ pos m)
    (positive : 0 < mb) (small : mb < 2 ^ 43) where
  -- What sensors send is what is on the disk: if each packet is of version 1, has tags with right length
  -- bytes and a frame, and fits in the buffer, and no write fails, then behind the run of a program with
  -- a PCAP file of `mb` megabytes, positive and below 2 ^ 43, and `m` backups, that finds no old
  -- capture and whose buffer can be allocated, the files hold, from the oldest backup on, the frames
  -- that were sent, with the times of their packets, in order and each once, up to a beginning that is
  -- only missing if there are `m` backups, each of which is above the limit.
  pub run-file_sent :
      surface.directory cfg.output.pcap.output_file ≡ none
      → ((j : ℕ) → j < m → surface.directory (backup_name cfg.output.pcap.output_file j) ≡ none)
      → All (IsGood n) xs
      → All IsWritten xs
      → (s' : Server) × (run dissect surface cfg none none (events_of xs) c ≡ terminated s')
        × IsEndOf (file_sent xs) (mb * 2 ^ 20) n m cfg.output.pcap.output_file s'.directory
  run-file_sent free no_backup good written =
      let same = frames-events_of n xs good in
      let rotating =
        subst (λ fs. All IsRotating (writes_of fs)) (sym same) (sent-IsRotating xs written) in
      let log = ap (λ fs. accepted (writes_of fs)) same ∙ accepted-sent xs written in
      let (s', ends, holds) =
        run-IsEndOf dissect surface cfg (events_of xs) c s0 n mb m wired size enabled limit backups
          positive small free no_backup rotating in
      (
        s',
        ends,
        subst (λ l. IsEndOf l (mb * 2 ^ 20) n m cfg.output.pcap.output_file s'.directory) log holds,
      )
