-- ===== src/Consensus/Link.antt =====
-- useful_blockchain/consensus/base.py: how a block is linked to the one before it.
pub mod Sound
use easyblockchain.Prelude.{
  ℕ, Bool, String, Option, none, some, List, str_eq, if◌then◌else◌, length,
}
use easyblockchain.Prelude.Int.{pos}
use easyblockchain.Python.Value.{Value, int, str}
use easyblockchain.Python.Fields.{item, subscript}
use easyblockchain.Platform.{Platform}
use easyblockchain.Dynamic.{py_eq, plus_one}
use easyblockchain.Types.{Block}
use easyblockchain.Types.Check.{ValidationResult, lift, require, ◌>>=◌, ◌>>◌}

-- `s or d` for an optional text
abbrev pub or_text : Option String → String → String
or_text none d = d
or_text (some s) d = if str_eq s "" then d else s

module _ ⦃env : Platform⦄ where
  -- the branch of a block with a predecessor
  validate_successor : Block → Block → ValidationResult
  validate_successor block previous = do
    previous_header ← lift (item "block_header" previous)
    prev_tran ← lift (subscript previous_header "tran_hash")
    header ← lift (item "block_header" block)
    prev_hash ← lift (subscript header "prev_hash")
    require (py_eq prev_hash prev_tran) "prev_hash mismatch"
    index ← lift (item "block_index" block)
    previous_index ← lift (item "block_index" previous)
    expected ← lift (plus_one previous_index)
    require (py_eq index expected) "block_index mismatch"

  -- the branch of a chain's first block
  validate_first : Block → String → ValidationResult
  validate_first block expected_genesis = do
    index ← lift (item "block_index" block)
    require (py_eq index (int (pos 1))) "first block_index must be 1"
    header ← lift (item "block_header" block)
    prev_hash ← lift (subscript header "prev_hash")
    require (py_eq prev_hash (str expected_genesis)) "genesis prev_hash mismatch"

  -- `self.genesis_prev_hash` is the first argument.
  unfoldable pub validate_chain_link :
      String → Block → Option Block → Option String → ValidationResult
  unfolding validate_successor validate_first
  validate_chain_link own_genesis block none genesis_prev_hash =
      validate_first block (or_text genesis_prev_hash own_genesis)
  validate_chain_link own_genesis block (some previous) genesis_prev_hash =
      validate_successor block previous

  -- `ConsensusProtocol.score_chain`
  unfoldable pub score_chain : List Block → ℕ × ℕ
  score_chain chain = (length chain, 0)
