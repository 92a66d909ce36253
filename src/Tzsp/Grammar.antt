-- ===== src/Tzsp/Grammar.antt =====
-- The tag list of a TZSP packet as a grammar: the bytes behind the header, the tags that they hold,
-- and the encapsulated packet that follows. It names no offset, no fuel and no order of tests.
use tzsp_server.Prelude.{ℕ, ◌+◌, List, [], ◌∷◌, ◌++◌, Bytes, length, ◌≡◌}
use tzsp_server.Tzsp.{Tag, tag_end, tag_pad}
use tzsp_server.Tzsp.Rounds.{IsLong, long}

-- `rest` is behind `n` bytes of whole tags: pads, and tags with a length byte and all their content.
pub data Behind : Bytes → ℕ → Bytes → Type 0 where
  at_start : {src : Bytes} → Behind src 0 src
  over_pad :
      {src bs rest : Bytes} {n : ℕ}
      → src ≡ tag_pad ∷ bs
      → Behind bs n rest
      → Behind src (1 + n) rest
  over_tag :
      {src bs rest : Bytes} {n : ℕ} (t : ℕ) (content : Bytes)
      → IsLong t
      → src ≡ t ∷ length content ∷ (content ++ bs)
      → Behind bs n rest
      → Behind src (1 + 1 + length content + n) rest

pub data Tagged : Bytes → List Tag → Bytes → Type 0 where
  -- The end tag may be missing, and then there is no encapsulated packet.
  no_end : Tagged [] [] []
  end : {src rest : Bytes} → src ≡ tag_end ∷ rest → Tagged src [] rest
  pad :
      {src bs rest : Bytes} {ts : List Tag}
      → src ≡ tag_pad ∷ bs
      → Tagged bs ts rest
      → Tagged src ts rest
  long_tag :
      {src bs rest : Bytes} {ts : List Tag} (t : ℕ) (content : Bytes)
      → IsLong t
      → src ≡ t ∷ length content ∷ (content ++ bs)
      → Tagged bs ts rest
      → Tagged src (long t content ∷ ts) rest
