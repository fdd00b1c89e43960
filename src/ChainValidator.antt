-- ===== src/ChainValidator.antt =====
-- useful_blockchain/chain_validator.py: the integrity of a whole chain.
pub mod Checks
pub mod Failure
pub mod Loop
pub mod StakeLoop
use easyblockchain.Prelude.{ℕ, suc, Bool, String, Option, none, some, List, [], ◌∷◌, ◌++◌}
use easyblockchain.Prelude.Int.{pos}
use easyblockchain.Prelude.Dict.{Dict}
use easyblockchain.Python.{Result, ok, err}
use easyblockchain.Python.Value.{Value, str, int, obj, end, is_none}
use easyblockchain.Python.Fields.{item, get, get_or, subscript, as_dict}
use easyblockchain.Platform.{Platform}
use easyblockchain.Dynamic.{py_eq, plus_one}
use easyblockchain.Types.{Block, ChainVerificationResult, chain_valid, chain_invalid}
use easyblockchain.Types.Check.{
  Check, ValidationResult, pass, reject, raise, lift, require, ◌>>=◌, ◌>>◌,
}
use easyblockchain.Hash.{calc_body_hash, calc_legacy_tran_hash, as_text}
use easyblockchain.Consensus.Stake.{apply_block_reward}
use easyblockchain.Consensus.Pos.{ProofOfStake}
use easyblockchain.Consensus.Pos
use easyblockchain.Consensus.Protocol.{
  ConsensusProtocol, proof_of_work, proof_of_stake, validate_chain_link, validate_block,
}

-- the result at an index where a check fails, else the rest
unfoldable pub check_at :
    ℕ → ValidationResult → Result ChainVerificationResult → Result ChainVerificationResult
check_at index (pass u) rest = rest
check_at index (reject reason) rest = ok (chain_invalid index reason)
check_at index (raise e) rest = err e

abbrev pub and_then {ℓ κ} : {A : Type ℓ} {B : Type κ} → Result A → (A → Result B) → Result B
and_then (ok a) f = f a
and_then (err e) f = err e

module _ ⦃env : Platform⦄ where
  genesis_check : Block → String → ValidationResult
  genesis_check block genesis_prev_hash = do
    header ← lift (item "block_header" block)
    prev_hash ← lift (subscript header "prev_hash")
    require (py_eq prev_hash (str genesis_prev_hash)) "genesis prev_hash mismatch"

  first_index_check : Block → ValidationResult
  first_index_check block = do
    index ← lift (item "block_index" block)
    require (py_eq index (int (pos 1))) "first block_index must be 1"

  -- the link without a consensus protocol
  legacy_link : Block → Block → ValidationResult
  legacy_link block previous = do
    previous_header ← lift (item "block_header" previous)
    prev_tran ← lift (subscript previous_header "tran_hash")
    header ← lift (item "block_header" block)
    prev_hash ← lift (subscript header "prev_hash")
    require (py_eq prev_hash prev_tran) "prev_hash mismatch"
    index ← lift (item "block_index" block)
    previous_index ← lift (item "block_index" previous)
    expected ← lift (plus_one previous_index)
    require (py_eq index expected) "block_index mismatch"

  legacy_seal : Block → ValidationResult
  legacy_seal block = do
    header ← lift (as_dict (get_or "block_header" block (obj end)))
    require (is_none (get "consensus_type" header))
        "consensus_type present but no consensus validator configured"
    body ← lift (item "tran_body" block)
    prev_hash_value ← lift (item "prev_hash" header)
    prev_hash ← lift (as_text prev_hash_value)
    require
        (py_eq (get "tran_hash" header)
          (str (calc_legacy_tran_hash prev_hash (calc_body_hash body))))
        "legacy tran_hash mismatch"

  -- the checks of a block under proof of stake with the genesis stakes
  unfoldable pub stake_block_check :
      ProofOfStake → String → List Block → Option Block → ℕ → Dict ℕ → Block → ValidationResult
  unfolding genesis_check
  stake_block_check self genesis chain (some previous) index validators block = do
    validate_chain_link (proof_of_stake self) block (some previous) genesis
    Pos.validate_block self block chain (some validators) (some (suc index))
  stake_block_check self genesis chain none index validators block = do
    genesis_check block genesis
    validate_chain_link (proof_of_stake self) block none genesis
    Pos.validate_block self block chain (some validators) (some (suc index))

  -- the checks of a block otherwise, `before` the blocks that stand before it
  unfoldable pub block_check :
      Option ConsensusProtocol → String → List Block → Option Block → Block → ValidationResult
  unfolding genesis_check first_index_check legacy_link legacy_seal
  block_check (some c) genesis before (some previous) block = do
    validate_chain_link c block (some previous) genesis
    lift (as_dict (get_or "block_header" block (obj end))) >>= λ header.
        validate_block c block before none none
  block_check (some c) genesis before none block = do
    genesis_check block genesis
    first_index_check block
    validate_chain_link c block none genesis
    lift (as_dict (get_or "block_header" block (obj end))) >>= λ header.
        validate_block c block before none none
  block_check none genesis before (some previous) block = do
    legacy_link block previous
    legacy_seal block
  block_check none genesis before none block = do
    genesis_check block genesis
    first_index_check block
    legacy_seal block

  -- the first loop
  unfoldable pub verify_stakes_from :
      ProofOfStake
      → String
      → List Block
      → Option Block
      → ℕ
      → Dict ℕ
      → List Block
      → Result ChainVerificationResult
  unfolding stake_block_check
  verify_stakes_from self genesis chain previous index validators [] = ok chain_valid
  verify_stakes_from self genesis chain previous index validators (block ∷ rest) =
      check_at (suc index) (stake_block_check self genesis chain previous index validators block) (
        and_then (apply_block_reward validators block self.settings) (λ rewarded.
          verify_stakes_from self genesis chain (some block) (suc index) rewarded rest))

  -- the second loop
  unfoldable pub verify_from :
      Option ConsensusProtocol
      → String
      → List Block
      → Option Block
      → ℕ
      → List Block
      → Result ChainVerificationResult
  unfolding block_check
  verify_from consensus genesis before previous index [] = ok chain_valid
  verify_from consensus genesis before previous index (block ∷ rest) =
      check_at (suc index) (block_check consensus genesis before previous block)
        (verify_from consensus genesis (before ++ block ∷ []) (some block) (suc index) rest)

  unfoldable pub verify_chain_integrity :
      List Block
      → Option ConsensusProtocol
      → String
      → Option (Dict ℕ)
      → Result ChainVerificationResult
  unfolding verify_stakes_from verify_from
  verify_chain_integrity chain (some (proof_of_stake self)) genesis (some stakes) =
      verify_stakes_from self genesis chain none 0 stakes chain
  verify_chain_integrity chain (some (proof_of_stake self)) genesis none =
      verify_from (some (proof_of_stake self)) genesis [] none 0 chain
  verify_chain_integrity chain (some (proof_of_work self)) genesis stakes =
      verify_from (some (proof_of_work self)) genesis [] none 0 chain
  verify_chain_integrity chain none genesis stakes = verify_from none genesis [] none 0 chain
