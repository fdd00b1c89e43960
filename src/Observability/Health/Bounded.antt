-- ===== src/Observability/Health/Bounded.antt =====
-- How much of a request is read.
use easyblockchain.Prelude.{
  ℕ, suc, ◌+◌, ◌<◌, ◌≡◌, Bool-cases, inl, inr, String, some, List, [], ◌∷◌, length, arith,
  if◌then◌else◌,
}
use easyblockchain.Prelude.Dict.{Dict}
use easyblockchain.Platform.{Platform}
use easyblockchain.Observability.Health.{
  Line, add_header, read_headers, max_header_lines, max_header_bytes,
}

-- the lines up to the blank one
abbrev pub head_of : List Line → List Line
head_of [] = []
head_of (line ∷ rest) = let later = head_of rest in if line.blank then [] else line ∷ later

abbrev pub total_size : List Line → ℕ
total_size [] = 0
total_size (line ∷ rest) = line.size + total_size rest

module _ ⦃env : Platform⦄ where
  read_within :
      (deadline : ℕ) (lines : List Line) (count bytes : ℕ) (headers result : Dict String)
      → read_headers deadline lines count bytes headers ≡ some result
      → (count + length (head_of lines) < max_header_lines)
        × (bytes + total_size (head_of lines) < max_header_bytes)
  unfolding read_headers
  read_within deadline [] count bytes headers result h = ground arith
  read_within deadline (line ∷ rest) count bytes headers result h = elim (Bool-cases line.blank) [
    | inl e ↦ ground arith
    | inr e ↦
        let later =
          read_within deadline rest (suc count) (bytes + line.size) (add_header line.text headers)
            result (ground (arith, e)) in
        rw e (omega (arith, later.0), omega (arith, later.1))
  ]

  -- Headers that are accepted are fewer than 100 lines and less than 16384 bytes, up to the blank
  -- line.
  pub read_headers_bound :
      (deadline : ℕ) (lines : List Line) (headers : Dict String)
      → read_headers deadline lines 0 0 [] ≡ some headers
      → (length (head_of lines) < max_header_lines)
        × (total_size (head_of lines) < max_header_bytes)
  read_headers_bound deadline lines headers h =
      let (few, small) = read_within deadline lines 0 0 [] headers h in
      (omega (arith, few), omega (arith, small))
