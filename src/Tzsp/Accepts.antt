-- ===== src/Tzsp/Accepts.antt =====
-- The decoder accepts exactly the packets of the grammar, and answers every input.
use tzsp_server.Prelude.{
  refl, ℕ, zero, suc, ◌+◌, ◌≤◌, ◌<◌, ◌≡◌, sym, ap, ◌∙◌, List, [], ◌∷◌, ◌++◌, Bytes, length, drop,
  length-drop, length-append, get_elem?-drop, append-nil, append_assoc, arith, Result, ok, err,
}
use tzsp_server.Tzsp.{
  Tag, DecodeError, incomplete_tag, tag_exceeds_packet, break_at, continue_at, tag_end, tag_pad,
  tag_round, tag_loop,
}
use tzsp_server.Tzsp.Grammar.{
  Behind, at_start, over_pad, over_tag, Tagged, no_end, end, pad, long_tag,
}
use tzsp_server.Tzsp.Rounds.{
  IsLong, long, view, at_nothing, at_end, at_pad, at_last, at_overrun, at_long, round_end,
  round_pad, round_last, round_overrun, round_long, drop_long,
}

module _ (bytes : Bytes) where
  inside : (offset : ℕ) {x : ℕ} {r : Bytes} → drop offset bytes ≡ x ∷ r → offset < length bytes
  inside offset e = omega (arith, length-drop offset bytes, ap length e)

  after : (offset : ℕ) {x : ℕ} {r : Bytes} → drop offset bytes ≡ x ∷ r → drop (offset + 1) bytes ≡ r
  after offset e =
      let p : suc offset ≡ offset + 1 = omega arith in rw p at ((get_elem?-drop bytes offset e).1)

  -- One turn of the loop, for each way in which a round ends.
  loop_stop :
      (fuel offset : ℕ) (tags : List Tag)
      → drop offset bytes ≡ []
      → tag_loop (suc fuel) bytes offset tags ≡ ok (offset, tags)
  unfolding tag_loop
  loop_stop fuel offset tags e =
      let h : length bytes ≤ offset = omega (arith, length-drop offset bytes, ap length e) in
      ground arith

  loop_break :
      (fuel offset o : ℕ) (tags : List Tag) {x : ℕ} {r : Bytes}
      → drop offset bytes ≡ x ∷ r
      → tag_round bytes offset tags ≡ ok (break_at o tags)
      → tag_loop (suc fuel) bytes offset tags ≡ ok (o, tags)
  unfolding tag_loop
  loop_break fuel offset o tags e h = ground (arith, inside offset e)

  loop_continue :
      (fuel offset o : ℕ) (tags ts : List Tag) {x : ℕ} {r : Bytes}
      → drop offset bytes ≡ x ∷ r
      → tag_round bytes offset tags ≡ ok (continue_at o ts)
      → tag_loop (suc fuel) bytes offset tags ≡ tag_loop fuel bytes o ts
  unfolding tag_loop
  loop_continue fuel offset o tags ts e h = ground (arith, inside offset e)

  loop_err :
      (fuel offset : ℕ) (tags : List Tag) {x : ℕ} {r : Bytes} (why : DecodeError)
      → drop offset bytes ≡ x ∷ r
      → tag_round bytes offset tags ≡ err why
      → tag_loop (suc fuel) bytes offset tags ≡ err why
  unfolding tag_loop
  loop_err fuel offset tags why e h = ground (arith, inside offset e)

  -- What the loop returns where the unread bytes are of the grammar.
  pub tag_loop_complete :
      (fuel offset : ℕ) (acc : List Tag) {src rest : Bytes} {ts : List Tag}
      → Tagged src ts rest
      → drop offset bytes ≡ src
      → length src < fuel
      → (o : ℕ) × (tag_loop fuel bytes offset acc ≡ ok (o, acc ++ ts)) × (drop o bytes ≡ rest)
  tag_loop_complete zero offset acc t e h = absurd (omega arith)
  tag_loop_complete (suc fuel) offset acc no_end e h =
      (offset, rw append-nil (loop_stop fuel offset acc e), e)
  tag_loop_complete (suc fuel) offset acc (end {rest = rest} p) e h =
      let q = e ∙ p in
      (
        offset + 1,
        rw append-nil
            (loop_break fuel offset (offset + 1) acc q (round_end bytes offset acc rest q)),
        after offset q,
      )
  tag_loop_complete (suc fuel) offset acc (pad {bs = bs} p t) e h =
      let q = e ∙ p in
      let (o, run, at) =
        tag_loop_complete fuel (offset + 1) acc t (after offset q) (omega (arith, ap length p)) in
      (
        o,
        loop_continue fuel offset (offset + 1) acc acc q (round_pad bytes offset acc bs q) ∙ run,
        at,
      )
  tag_loop_complete (suc fuel) offset acc (long_tag {bs = bs} {ts = ts} k content long_k p t) e h =
      let q = e ∙ p in
      let next = offset + 1 + 1 + length content in
      let (o, run, at) =
        tag_loop_complete fuel next (acc ++ long k content ∷ []) t
          (drop_long bytes offset acc k content bs q)
          (omega (arith, ap length p, length-append content bs)) in
      (
        o,
        loop_continue fuel offset next acc (acc ++ long k content ∷ []) q
              (round_long bytes offset acc k content bs long_k q)
            ∙ run
            ∙ ap (λ (l : List Tag). ok (o, l)) (append_assoc acc (long k content ∷ []) ts),
        at,
      )

-- What the tag loop answers on any input: the tags and the end of the list, or the first bad tag.
pub data Verdict (bytes : Bytes) (offset : ℕ) (acc : List Tag)
    (r : Result DecodeError (ℕ × List Tag)) : Type 0 where
  accepted :
      (o : ℕ) (ts : List Tag)
      → r ≡ ok (o, acc ++ ts)
      → Tagged (drop offset bytes) ts (drop o bytes)
      → Verdict bytes offset acc r
  cut_short :
      (o n t : ℕ)
      → r ≡ err (incomplete_tag o)
      → IsLong t
      → o ≡ offset + n
      → Behind (drop offset bytes) n (t ∷ [])
      → Verdict bytes offset acc r
  overrun :
      (n t len : ℕ) (rest : Bytes)
      → r ≡ err tag_exceeds_packet
      → IsLong t
      → Behind (drop offset bytes) n (t ∷ len ∷ rest)
      → length rest < len
      → Verdict bytes offset acc r

module _ (bytes : Bytes) where
  -- A verdict on the rest of the loop is one on the loop, a round earlier.
  Verdict-pad :
      (offset : ℕ) (acc : List Tag) {r r' : Result DecodeError (ℕ × List Tag)}
      → r ≡ r'
      → drop offset bytes ≡ tag_pad ∷ drop (offset + 1) bytes
      → Verdict bytes (offset + 1) acc r'
      → Verdict bytes offset acc r
  Verdict-pad offset acc e p (accepted o ts q t) = accepted o ts (e ∙ q) (pad p t)
  Verdict-pad offset acc e p (cut_short o n t q l at d) =
      cut_short o (1 + n) t (e ∙ q) l (omega (arith, at)) (over_pad p d)
  Verdict-pad offset acc e p (overrun n t len rest q l d h) =
      overrun (1 + n) t len rest (e ∙ q) l (over_pad p d) h

  Verdict-long :
      (offset next t : ℕ) (content : Bytes) (acc : List Tag)
      {r r' : Result DecodeError (ℕ × List Tag)}
      → next ≡ offset + 1 + 1 + length content
      → r ≡ r'
      → IsLong t
      → drop offset bytes ≡ t ∷ length content ∷ (content ++ drop next bytes)
      → Verdict bytes next (acc ++ long t content ∷ []) r'
      → Verdict bytes offset acc r
  Verdict-long offset next t content acc far e l p (accepted o ts q tagged) =
      accepted o (long t content ∷ ts)
        (e ∙ q ∙ ap (λ (ts : List Tag). ok (o, ts)) (append_assoc acc (long t content ∷ []) ts))
        (long_tag t content l p tagged)
  Verdict-long offset next t content acc far e l p (cut_short o n k q lk at d) =
      cut_short o (1 + 1 + length content + n) k (e ∙ q) lk (omega (arith, at, far))
        (over_tag t content l p d)
  Verdict-long offset next t content acc far e l p (overrun n k len rest q lk d h) =
      overrun (1 + 1 + length content + n) k len rest (e ∙ q) lk (over_tag t content l p d) h

  pub loop-Verdict :
      (fuel offset : ℕ) (acc : List Tag)
      → length (drop offset bytes) < fuel
      → Verdict bytes offset acc (tag_loop fuel bytes offset acc)
  loop-Verdict zero offset acc h = absurd (omega arith)
  loop-Verdict (suc fuel) offset acc h = elim (view (drop offset bytes)) [
    | at_nothing e ↦
        accepted offset [] (rw append-nil (loop_stop bytes fuel offset acc e)) (rw e no_end)
    | at_end rest e ↦
        accepted (offset + 1) []
          (rw append-nil
            (loop_break bytes fuel offset (offset + 1) acc e (round_end bytes offset acc rest e)))
          (end (e ∙ ap (◌∷◌ tag_end) (sym (after bytes offset e))))
    | at_pad rest e ↦
        let at = after bytes offset e in
        Verdict-pad offset acc
          (loop_continue bytes fuel offset (offset + 1) acc acc e
            (round_pad bytes offset acc rest e))
          (e ∙ ap (◌∷◌ tag_pad) (sym at))
          (loop-Verdict fuel (offset + 1) acc (omega (arith, ap length e, ap length at)))
    | at_last t l e ↦
        cut_short offset 0 t
          (loop_err bytes fuel offset acc (incomplete_tag offset) e
            (round_last bytes offset acc t l e))
          l (omega arith) (rw e at_start)
    | at_overrun t len rest l e short ↦
        overrun 0 t len rest
          (loop_err bytes fuel offset acc tag_exceeds_packet e
            (round_overrun bytes offset acc t len rest l e short))
          l (rw e at_start) short
    | at_long t content rest l e ↦
        let next = offset + 1 + 1 + length content in
        let at = drop_long bytes offset acc t content rest e in
        Verdict-long offset next t content acc refl
          (loop_continue bytes fuel offset next acc (acc ++ long t content ∷ []) e
            (round_long bytes offset acc t content rest l e))
          l (e ∙ ap (λ (bs : Bytes). t ∷ length content ∷ (content ++ bs)) (sym at))
          (loop-Verdict fuel next (acc ++ long t content ∷ [])
            (omega (arith, ap length e, ap length at, length-append content rest)))
  ]
