-- ===== src/Consensus/Propose.antt =====
-- useful_blockchain/consensus/pos.py: the proposal of a block, rewards on addition, and the stake
-- state rebuilt from a chain.
use easyblockchain.Prelude.{ℕ, suc, String, none, some, List, str_eq, length}
use easyblockchain.Prelude.Int.{pos}
use easyblockchain.Prelude.Dict.{Dict}
use easyblockchain.Python.{Result, ok, err, value_error, type_error, or_raise, guard, ◌>>=◌, ◌>>◌}
use easyblockchain.Python.Value.{Value, str, int, obj, Fields}
use easyblockchain.Python.Fields.{item, put, update}
use easyblockchain.Platform.{Platform}
use easyblockchain.Types.{Block}
use easyblockchain.Hash.{calc_body_hash, calc_pos_tran_hash, as_text}
use easyblockchain.Signature.{sign_block}
use easyblockchain.Consensus.Stake.{
  apply_block_reward, compute_validators_from_chain, select_proposer,
}
use easyblockchain.Consensus.Pos.{ProofOfStake}

-- a value whose items are assigned to
abbrev pub as_mapping : Value → Result Fields
as_mapping (obj f) = ok f
as_mapping _ = err type_error

module _ ⦃env : Platform⦄ where
  -- the validators from which the next proposer is drawn
  abbrev pub proposing_validators : ProofOfStake → List Block → Result (Dict ℕ)
  proposing_validators self chain = elim self.genesis_stakes [
    | none ↦ ok self.validators
    | some stakes ↦ compute_validators_from_chain chain stakes self.settings
  ]

  -- the block with the proposer's header fields
  propose : Block → Value → String → ℕ → Result Block
  propose block header proposer slot = do
    body ← item "tran_body" block
    fields ← as_mapping header
    prev_hash_value ← item "prev_hash" fields
    prev_hash ← as_text prev_hash_value
    let tran_hash = calc_pos_tran_hash prev_hash (calc_body_hash body) proposer (pos slot)
    ok (
        put "block_header"
          (obj (
            put "consensus_type" (str "pos") (
              put "tran_hash" (str tran_hash)
                (put "slot" (int (pos slot)) (put "validator_id" (str proposer) fields)))))
          block)

  unfoldable pub prepare_block : ProofOfStake → Block → List Block → Result Block
  unfolding propose
  prepare_block self block chain = do
    let slot = suc (length chain)
    validators ← proposing_validators self chain
    proposer ← select_proposer (pos slot) validators
    node ← or_raise self.node_validator_id value_error
    guard (str_eq proposer node) value_error
    key ← or_raise self.signature_manager.private_key value_error
    header ← item "block_header" block
    proposed ← propose block header proposer slot
    signed ← sign_block self.signature_manager proposed
    ok (update proposed signed)

  unfoldable pub on_block_added : ProofOfStake → Block → Result ProofOfStake
  on_block_added self block = do
    rewarded ← apply_block_reward self.validators block self.settings
    ok (record self { validators = rewarded })

  unfoldable pub sync_validators_from_chain :
      ProofOfStake → List Block → Dict ℕ → Result ProofOfStake
  sync_validators_from_chain self chain genesis_stakes = do
    validators ← compute_validators_from_chain chain genesis_stakes self.settings
    ok (record self { genesis_stakes = some genesis_stakes; validators = validators })
