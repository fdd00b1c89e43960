-- ===== src/BlockCheck.antt =====
-- useful_blockchain/blockchain.py: the checks that `BlockChain.add_block` makes before it appends.
pub mod Sound
use easyblockchain.Prelude.{ℕ, String, Option, none, some, List, get_last?}
use easyblockchain.Prelude.Int.{pos}
use easyblockchain.Prelude.Dict.{Dict}
use easyblockchain.Python.Value.{Value, str, int, is_none}
use easyblockchain.Python.Fields.{item, get, subscript, as_dict}
use easyblockchain.Prelude.{Bool, true, false, not}
use easyblockchain.Platform.{Platform}
use easyblockchain.Dynamic.{py_eq, plus_one}
use easyblockchain.Types.{Block}
use easyblockchain.Types.Check.{ValidationResult, lift, require, ◌>>=◌, ◌>>◌}
use easyblockchain.Hash.{calc_body_hash, calc_legacy_tran_hash, as_text}
use easyblockchain.Consensus.Stake.{compute_validators_from_chain}
use easyblockchain.Consensus.Pos
use easyblockchain.Consensus.Protocol.{
  ConsensusProtocol, proof_of_work, proof_of_stake, validate_chain_link, validate_block,
}

module _ ⦃env : Platform⦄ where
  -- the link without a consensus protocol
  legacy_addition_link : String → Option Block → Block → ValidationResult
  legacy_addition_link genesis (some previous) block = do
    header ← lift (item "block_header" block)
    prev_hash ← lift (subscript header "prev_hash")
    previous_header ← lift (item "block_header" previous)
    prev_tran ← lift (subscript previous_header "tran_hash")
    require (py_eq prev_hash prev_tran) "prev_hash mismatch"
    previous_index ← lift (item "block_index" previous)
    expected ← lift (plus_one previous_index)
    require (py_eq (get "block_index" block) expected) "block_index mismatch"
  legacy_addition_link genesis none block = do
    header ← lift (item "block_header" block)
    prev_hash ← lift (subscript header "prev_hash")
    require (py_eq prev_hash (str genesis)) "genesis prev_hash mismatch"

  legacy_addition_seal : Block → ValidationResult
  legacy_addition_seal block = do
    require (not (is_none (get "tran_body" block))) "no tran_body"
    header ← lift (item "block_header" block)
    prev_hash_value ← lift (subscript header "prev_hash")
    prev_hash ← lift (as_text prev_hash_value)
    fields ← lift (as_dict header)
    require
        (py_eq (get "tran_hash" fields)
          (str (calc_legacy_tran_hash prev_hash (calc_body_hash (get "tran_body" block)))))
        "tran_hash mismatch"

  -- the block itself, under the protocol
  rules_check : ConsensusProtocol → List Block → Block → Option (Dict ℕ) → ValidationResult
  rules_check (proof_of_stake p) chain block (some stakes) = do
    validators ← lift (compute_validators_from_chain chain stakes p.settings)
    Pos.validate_block p block chain (some validators) none
  rules_check c chain block genesis_stakes = validate_block c block chain none none

  -- only a block of height 1 is the first
  first_height_check : Option Block → Block → ValidationResult
  first_height_check none block =
      require (py_eq (get "block_index" block) (int (pos 1))) "not the first block"
  first_height_check (some previous) block = require true ""

  protocol_check :
      Option ConsensusProtocol → String → List Block → Block → Option (Dict ℕ) → ValidationResult
  unfolding legacy_addition_link legacy_addition_seal rules_check
  protocol_check (some c) genesis chain block genesis_stakes = do
    validate_chain_link c block (get_last? chain) genesis
    rules_check c chain block genesis_stakes
  protocol_check none genesis chain block genesis_stakes = do
    legacy_addition_link genesis (get_last? chain) block
    legacy_addition_seal block

  unfoldable pub addition_check :
      Option ConsensusProtocol → String → List Block → Block → Option (Dict ℕ) → ValidationResult
  unfolding first_height_check protocol_check
  addition_check consensus genesis chain block genesis_stakes = do
    first_height_check (get_last? chain) block
    protocol_check consensus genesis chain block genesis_stakes
