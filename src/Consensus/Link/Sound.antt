-- ===== src/Consensus/Link/Sound.antt =====
-- What an accepted link guarantees.
use easyblockchain.Prelude.{ap, ◌∙◌, ◌≡◌, true, String, Option, none, some}
use easyblockchain.Prelude.Int.{pos}
use easyblockchain.Python.{Result, ok, err}
use easyblockchain.Python.Value.{Value, int, str}
use easyblockchain.Python.Fields.{item, subscript}
use easyblockchain.Platform.{Platform}
use easyblockchain.Dynamic.{py_eq, plus_one}
use easyblockchain.Dynamic.Laws.{py_eq-str}
use easyblockchain.Types.{Block}
use easyblockchain.Types.Check.{pass, lift-eq-pass, require-eq-pass, require_last-eq-pass}
use easyblockchain.Consensus.Link.{or_text, validate_chain_link, validate_first, validate_successor}

abbrev subscript_of : Result Value → String → Result Value
subscript_of (ok v) k = subscript v k
subscript_of (err e) k = err e

-- `block["block_header"][k]`
abbrev pub header_item : String → Block → Result Value
header_item k block = subscript_of (item "block_header" block) k

module _ ⦃env : Platform⦄ where
  -- The first block starts from the genesis hash at height 1.
  pub record IsFirst (genesis : String) (block : Block) : Type 0 where
    pub starts : header_item "prev_hash" block ≡ ok (str genesis)
    pub index : Value
    pub has_index : item "block_index" block ≡ ok index
    pub index_one : py_eq index (int (pos 1)) ≡ true

  -- A block follows another: it carries the hash of that one, and the next height.
  pub record Follows (block previous : Block) : Type 0 where
    pub hash : Value
    pub previous_hash : Value
    pub has_hash : header_item "prev_hash" block ≡ ok hash
    pub has_previous_hash : header_item "tran_hash" previous ≡ ok previous_hash
    pub hash_linked : py_eq hash previous_hash ≡ true
    pub index : Value
    pub previous_index : Value
    pub expected : Value
    pub has_index : item "block_index" block ≡ ok index
    pub has_previous_index : item "block_index" previous ≡ ok previous_index
    pub has_expected : plus_one previous_index ≡ ok expected
    pub index_linked : py_eq index expected ≡ true

  abbrev pub IsLinked : String → Block → Option Block → Type 0
  IsLinked genesis block none = IsFirst genesis block
  IsLinked genesis block (some previous) = Follows block previous

  validate_first-IsFirst :
      (block : Block) (genesis : String)
      → validate_first block genesis ≡ pass tt
      → IsFirst genesis block
  unfolding validate_first
  validate_first-IsFirst block genesis h =
      let (index, has_index, h₁) = lift-eq-pass _ _ h in
      let (index_one, h₂) = require-eq-pass _ _ _ h₁ in
      let (header, has_header, h₃) = lift-eq-pass _ _ h₂ in
      let (prev_hash, has_prev_hash, h₄) = lift-eq-pass _ _ h₃ in
      let equal : py_eq prev_hash (str genesis) ≡ true = require_last-eq-pass _ _ h₄ in
      let same : prev_hash ≡ str genesis = py_eq-str prev_hash genesis equal in
      record {
        starts = rw has_header (has_prev_hash ∙ ap ok same);
        index = index;
        has_index = has_index;
        index_one = index_one;
      }

  validate_successor-Follows :
      (block previous : Block)
      → validate_successor block previous ≡ pass tt
      → Follows block previous
  unfolding validate_successor
  validate_successor-Follows block previous h =
      let (previous_header, has_previous_header, h₁) = lift-eq-pass _ _ h in
      let (prev_tran, has_prev_tran, h₂) = lift-eq-pass _ _ h₁ in
      let (header, has_header, h₃) = lift-eq-pass _ _ h₂ in
      let (prev_hash, has_prev_hash, h₄) = lift-eq-pass _ _ h₃ in
      let (hash_linked, h₅) = require-eq-pass _ _ _ h₄ in
      let (index, has_index, h₆) = lift-eq-pass _ _ h₅ in
      let (previous_index, has_previous_index, h₇) = lift-eq-pass _ _ h₆ in
      let (expected, has_expected, h₈) = lift-eq-pass _ _ h₇ in
      record {
        hash = prev_hash;
        previous_hash = prev_tran;
        has_hash = rw has_header has_prev_hash;
        has_previous_hash = rw has_previous_header has_prev_tran;
        hash_linked = hash_linked;
        index = index;
        previous_index = previous_index;
        expected = expected;
        has_index = has_index;
        has_previous_index = has_previous_index;
        has_expected = has_expected;
        index_linked = require_last-eq-pass _ _ h₈;
      }

  -- Whatever link is accepted, the block is a genuine first block (genesis hash, height 1), or
  -- carries the hash of its predecessor and the next height.
  pub validate_chain_link-IsLinked :
      (own_genesis : String) (block : Block) (previous : Option Block)
      (genesis_prev_hash : Option String)
      → validate_chain_link own_genesis block previous genesis_prev_hash ≡ pass tt
      → IsLinked (or_text genesis_prev_hash own_genesis) block previous
  unfolding validate_chain_link
  validate_chain_link-IsLinked own block none given h = validate_first-IsFirst block _ h
  validate_chain_link-IsLinked own block (some previous) given h =
      validate_successor-Follows block previous h
