-- ===== src/Tests/Chains.antt =====
-- A mined chain.
use easyblockchain.Prelude.{
  ℕ, suc, str_eq, ◌↔◌, ◌≡◌, refl, none, some, [], ◌∷◌, false, true, String,
}
use easyblockchain.Prelude.Int.{pos}
use easyblockchain.Python.{ok}
use easyblockchain.Python.Value.{Value, str, int, obj, end, field}
use easyblockchain.Python.Fields.{find}
use easyblockchain.Types.{Block, PowSettings, chain_valid}
use easyblockchain.Types.Check.{pass}
use easyblockchain.Hash.{meets_difficulty}
use easyblockchain.Consensus.Protocol.{ProofOfWork, proof_of_work}
use easyblockchain.Consensus.Mining.{search_nonce}
use easyblockchain.Consensus.Mining.Accepted.{mine_block-validate_block}
use easyblockchain.Consensus.Pow
use easyblockchain.ChainValidator.{verify_chain_integrity}
use easyblockchain.BlockChain.Extends.{add_block-verify_chain}
use easyblockchain.BlockChain.{BlockChain, add_new_block, add_block, verify_chain}
use easyblockchain.Tests.Toy.{toy, pow_code, toy-CryptoLaws}
use easyblockchain.Consensus.Pow.Sound.{IsSealed, validate_block-IsSealed}
use easyblockchain.Consensus.Mining.Search.{Finds, search_nonce-Finds}
use easyblockchain.Consensus.Link.{validate_chain_link}
use easyblockchain.Consensus.Link.Sound.{IsLinked, validate_chain_link-IsLinked}
use easyblockchain.ChainValidator.{check_at}
use easyblockchain.ChainValidator.Failure.{IsLocated, verify_chain_integrity-IsLocated}
use easyblockchain.Types.{chain_invalid}
use easyblockchain.ChainValidator.Loop.{IsChecked, verify_chain_integrity_iff}
use easyblockchain.Hash.Difficulty.{ZeroPrefix, meets_difficulty_iff}
use easyblockchain.Signature.{no_keys, with_private_key, sign_block, verify_block_signature}
use easyblockchain.Signature.Laws.{sign_block-verifies}

abbrev settings : PowSettings
settings = record {
  initial_difficulty = pos 1;
  adjustment_interval = pos 10;
  max_adjustment_factor = 2;
  max_mining_iterations = pos 5;
  target_block_time_seconds = pos 10;
}

abbrev pub work : ProofOfWork
work = record { settings = settings; genesis_prev_hash = "g" }

abbrev pub empty_chain : BlockChain
empty_chain = record {
  chain = [];
  enable_signature = false;
  consensus = some (proof_of_work work);
  genesis_prev_hash = "g";
  signature_manager = none;
}

abbrev mined_header : Value
mined_header = obj (
    field "prev_hash" (str "g") (
      field "consensus_type" (str "pow") (
        field "tran_hash" (str "0g0vn")
          (field "nonce" (int (pos 0)) (field "difficulty" (int (pos 1)) end)))))

abbrev pub mined : Block
mined = field "block_index" (int (pos 1)) (
    field "block_item" (str "t") (
      field "block_header" mined_header (
        field "tran_counter" (int (pos 2)) (
          field "tran_body" (obj (field "input_data" (str "a") (field "output_data" (str "b") end)))
            end))))

abbrev unmined : Block
unmined = field "block_index" (int (pos 1)) (
    field "block_item" (str "t") (
      field "block_header"
        (obj (
          field "prev_hash" (str "g")
            (field "consensus_type" (str "pow") (field "tran_hash" (str "") end))))
        (field "tran_counter" (int (pos 2)) (
          field "tran_body" (obj (field "input_data" (str "a") (field "output_data" (str "b") end)))
            end))))

add_first :
    add_new_block ⦃env = toy⦄ empty_chain (str "a") (str "b") "t"
    ≡ (ok mined, record empty_chain { chain = mined ∷ [] })
unfolding pow_code
add_first = refl

-- What one node has mined, another adds to its own chain.
add_received :
    add_block ⦃env = toy⦄ empty_chain mined none
    ≡ (ok true, record empty_chain { chain = mined ∷ [] })
unfolding pow_code
add_received = refl

add_block-verify_chain_example :
    verify_chain ⦃env = toy⦄ (record empty_chain { chain = mined ∷ [] }) none ≡ ok chain_valid
unfolding verify_chain verify_chain_integrity
add_block-verify_chain_example =
    add_block-verify_chain ⦃env = toy⦄ work empty_chain (record empty_chain { chain = mined ∷ [] })
      mined none refl refl refl add_received

mine_block-validate_block_example : Pow.validate_block ⦃env = toy⦄ settings mined [] ≡ pass tt
unfolding pow_code Pow.check_time
mine_block-validate_block_example =
    mine_block-validate_block ⦃env = toy⦄ settings unmined [] mined refl refl

mined_accepted : Pow.validate_block ⦃env = toy⦄ settings mined [] ≡ pass tt
unfolding pow_code Pow.check_time
mined_accepted = refl

validate_block-IsSealed_example : IsSealed ⦃env = toy⦄ settings mined []
validate_block-IsSealed_example =
    validate_block-IsSealed ⦃env = toy⦄ settings mined [] mined_accepted

search_nonce-Finds_example :
    Finds ⦃env = toy⦄ "g" "b" (pos 1) 5 0 (search_nonce ⦃env = toy⦄ "g" "b" (pos 1) 5 0)
search_nonce-Finds_example = search_nonce-Finds ⦃env = toy⦄ "g" "b" (pos 1) 5 0

first_linked : validate_chain_link ⦃env = toy⦄ "h" mined none (some "g") ≡ pass tt
unfolding pow_code
first_linked = refl

validate_chain_link-IsLinked_example : IsLinked ⦃env = toy⦄ "g" mined none
validate_chain_link-IsLinked_example =
    validate_chain_link-IsLinked ⦃env = toy⦄ "h" mined none (some "g") first_linked

verify_chain_integrity_iff_example :
    (verify_chain_integrity ⦃env = toy⦄ (mined ∷ []) (some (proof_of_work work)) "g" none
      ≡ ok chain_valid)
    ↔ IsChecked ⦃env = toy⦄ (some (proof_of_work work)) "g" [] none (mined ∷ [])
verify_chain_integrity_iff_example =
    verify_chain_integrity_iff ⦃env = toy⦄ work "g" none (mined ∷ [])

unmined_fails :
    verify_chain_integrity ⦃env = toy⦄ (unmined ∷ []) (some (proof_of_work work)) "g" none
    ≡ ok (chain_invalid 1 "missing PoW fields: nonce, difficulty")
unfolding pow_code verify_chain_integrity check_at
unmined_fails = refl

verify_chain_integrity-IsLocated_example :
    IsLocated ⦃env = toy⦄ "g"
      (unmined ∷ [])
      1
      "missing PoW fields: nonce, difficulty"
      (some (proof_of_work work))
      none
verify_chain_integrity-IsLocated_example =
    verify_chain_integrity-IsLocated ⦃env = toy⦄ "g" (unmined ∷ []) 1
      "missing PoW fields: nonce, difficulty" (some (proof_of_work work)) none unmined_fails

meets_difficulty_iff_example :
    (meets_difficulty "00a" (pos 2) ≡ true)
    ↔ ((d : ℕ) × (pos 2 ≡ pos (suc d)) × ZeroPrefix (suc d) "00a")
meets_difficulty_iff_example = meets_difficulty_iff "00a" (pos 2)

sign_block-verifies_example :
    (signed : Block) × (sign_block ⦃env = toy⦄ (with_private_key ⦃env = toy⦄ 4) mined ≡ ok signed)
    × (verify_block_signature ⦃env = toy⦄ no_keys signed ≡ ok true)
    × ((k : String)
        → str_eq "signature" k ≡ false
        → str_eq "public_key" k ≡ false
        → find k signed ≡ find k mined)
sign_block-verifies_example = sign_block-verifies ⦃env = toy⦄ toy-CryptoLaws no_keys 4 mined
