-- ===== src/Tests/Stakes.antt =====
-- A chain under proof of stake, with one validator.
use easyblockchain.Prelude.{ℕ, String, ◌≡◌, ◌<◌, arith, refl, none, some, [], ◌∷◌, true}
use easyblockchain.Prelude.Int.{pos}
use easyblockchain.Prelude.Dict.{Dict, lookup, contains, insert}
use easyblockchain.Python.{ok, guard}
use easyblockchain.Python.Value.{str, int, obj, end, field}
use easyblockchain.Python.Fields.{update, remove}
use easyblockchain.Types.{Block, chain_valid}
use easyblockchain.Signature.{with_private_key, sign_block, verify_block_signature}
use easyblockchain.Consensus.Stake
use easyblockchain.Consensus.Stake.Chosen.{IsChosen, select_proposer-IsChosen}
use easyblockchain.Consensus.Pos
use easyblockchain.Consensus.Pos.{ProofOfStake}
use easyblockchain.Consensus.Propose
use easyblockchain.Consensus.Protocol.{proof_of_stake}
use easyblockchain.Hash.{calc_pos_tran_hash}
use easyblockchain.ChainValidator.{verify_chain_integrity}
use easyblockchain.BlockChain.StakeExtends.{stake_add_block-verify_chain}
use easyblockchain.BlockChain.{BlockChain, add_new_block, add_block, verify_chain}
use easyblockchain.Tests.Toy.{toy, pow_code}

abbrev pub stakes : Dict ℕ
stakes = ("a", 5) ∷ []

abbrev pub staker : ProofOfStake
staker = record {
  settings = record { min_stake = 1; block_reward = 2; epoch_length = 10 };
  node_validator_id = some "a";
  signature_manager = with_private_key ⦃env = toy⦄ 4;
  validators = stakes;
  genesis_stakes = some stakes;
  validator_public_keys = ("a", "0") ∷ [];
  genesis_prev_hash = "g";
}

abbrev pub staked_chain : BlockChain
staked_chain = record {
  chain = [];
  enable_signature = true;
  consensus = some (proof_of_stake staker);
  genesis_prev_hash = "g";
  signature_manager = none;
}

abbrev pub proposed : Block
proposed = field "block_index" (int (pos 1)) (
    field "block_item" (str "t") (
      field "block_header"
        (obj (
          field "prev_hash" (str "g") (
            field "consensus_type" (str "pos") (
              field "tran_hash" (str "0g0van")
                (field "validator_id" (str "a") (field "slot" (int (pos 1)) end))))))
        (field "tran_counter" (int (pos 2)) (
          field "tran_body" (obj (field "input_data" (str "a") (field "output_data" (str "b") end)))
            (field "signature" (str "0") (field "public_key" (str "0") end))))))

abbrev rewarded_chain : BlockChain
rewarded_chain = record staked_chain {
  chain = proposed ∷ [];
  consensus = some (proof_of_stake (record staker { validators = ("a", 7) ∷ [] }));
}

-- The code of proof of stake, beside that of proof of work.
unfoldable pub pos_code : ℕ
unfolding pow_code Propose.prepare_block Propose.on_block_added Stake.select_proposer
    Stake.apply_block_reward Stake.compute_validators_from_chain Stake.get_total_stake Stake.walk
    Stake.sorted_items Stake.draw sign_block guard Pos.validate_block verify_block_signature insert
    contains lookup update remove calc_pos_tran_hash with_private_key
pos_code = 0

-- The validator proposes a block, and is paid for it.
propose_first :
    add_new_block ⦃env = toy⦄ staked_chain (str "a") (str "b") "t" ≡ (ok proposed, rewarded_chain)
unfolding pos_code
propose_first = refl

add_proposed : add_block ⦃env = toy⦄ staked_chain proposed (some stakes) ≡ (ok true, rewarded_chain)
unfolding pos_code
add_proposed = refl

stake_add_block-verify_chain_example :
    verify_chain ⦃env = toy⦄ rewarded_chain (some stakes) ≡ ok chain_valid
unfolding verify_chain verify_chain_integrity
stake_add_block-verify_chain_example =
    stake_add_block-verify_chain ⦃env = toy⦄ staker staked_chain rewarded_chain proposed stakes refl
      refl refl add_proposed

abbrev two_stakes : Dict ℕ
two_stakes = ("b", 3) ∷ ("a", 5) ∷ []

two_stakes-positive : 0 < Stake.get_total_stake two_stakes
unfolding Stake.get_total_stake
two_stakes-positive = omega arith

select_proposer-IsChosen_example :
    (id : String) × (Stake.select_proposer ⦃env = toy⦄ (pos 4) two_stakes ≡ ok id)
    × IsChosen
        (Stake.draw ⦃env = toy⦄ (pos 4) (Stake.get_total_stake two_stakes))
        0
        (Stake.sorted_items two_stakes)
        id
select_proposer-IsChosen_example =
    select_proposer-IsChosen ⦃env = toy⦄ (pos 4) two_stakes two_stakes-positive
