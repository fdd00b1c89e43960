-- ===== src/Consensus/Pos.antt =====
-- useful_blockchain/consensus/pos.py: the class ProofOfStake, its registration of validators, the
-- proposal of a block and the validation of one.
use easyblockchain.Prelude.{
  ℕ, suc, Bool, true, false, ◌&&◌, not, String, Option, none, some, List, str_eq, ltb, ◌==◌, length,
  if◌then◌else◌,
}
use easyblockchain.Prelude.Int.{pos}
use easyblockchain.Prelude.Dict.{Dict, lookup, contains, insert}
use easyblockchain.Python.{Result, ok, err, value_error, type_error}
use easyblockchain.Python.Value.{Value, str, int, obj, arr, end, is_dict, is_none}
use easyblockchain.Python.Fields.{has, get, get_or, as_dict}
use easyblockchain.Platform.{Platform}
use easyblockchain.Dynamic.{py_eq, truthy}
use easyblockchain.Types.{Block, PosSettings}
use easyblockchain.Types.Check.{
  Check, ValidationResult, pass, reject, raise, lift, require, ◌>>=◌, ◌>>◌,
}
use easyblockchain.Hash.{calc_body_hash, calc_pos_tran_hash}
use easyblockchain.Signature.{SignatureManager, export_public_key, verify_block_signature}
use easyblockchain.Consensus.Stake.{select_proposer}

pub record ProofOfStake : Type 0 where
  pub settings : PosSettings
  pub node_validator_id : Option String
  pub signature_manager : SignatureManager
  pub validators : Dict ℕ
  pub genesis_stakes : Option (Dict ℕ)
  pub validator_public_keys : Dict String
  pub genesis_prev_hash : String

-- A slot that is an int, no bool and not negative.
abbrev pub slot_number : Value → Option ℕ
slot_number (int (pos n)) = some n
slot_number _ = none

-- `validator_id not in validators` rejects; a key that is in the map is a text.
abbrev pub known_validator : Value → Dict ℕ → Check String
known_validator (str s) validators =
    if contains s validators then pass s else reject "unknown validator"
known_validator (arr xs) validators = raise type_error
known_validator (obj f) validators = raise type_error
known_validator _ validators = reject "unknown validator"

abbrev pub or_reject {ℓ} : {A : Type ℓ} → Option A → String → Check A
or_reject none reason = reject reason
or_reject (some a) reason = pass a

abbrev pub text_field : Value → String → Check String
text_field (str s) reason = pass s
text_field _ reason = reject reason

abbrev pub is_empty {ℓ} : {V : Type ℓ} → Dict V → Bool
is_empty List.[] = true
is_empty (List.◌∷◌ e d) = false

module _ ⦃env : Platform⦄ where
  -- the own key, where the node registers itself
  own_key : ProofOfStake → String → Dict String
  own_key self id = own self.node_validator_id (export_public_key self.signature_manager)
    where
      own : Option String → Result String → Dict String
      own (some node_id) (ok pem) =
          if str_eq node_id id
          then insert id pem self.validator_public_keys
          else self.validator_public_keys
      own _ _ = self.validator_public_keys

  -- the key that is recorded for a newly registered validator
  registered_keys : ProofOfStake → String → Option String → Dict String
  registered_keys self id (some pem) =
      if str_eq pem "" then own_key self id else insert id pem self.validator_public_keys
  registered_keys self id none = own_key self id

  unfoldable pub register_validator :
      ProofOfStake → String → ℕ → Option String → Result ProofOfStake
  unfolding registered_keys own_key
  register_validator self id stake public_key_pem =
      if ltb stake self.settings.min_stake
      then err value_error
      else ok (record self {
        validators = insert id stake self.validators;
        validator_public_keys = registered_keys self id public_key_pem;
      })

  -- `self.validators` and `validators_at_state`
  abbrev pub stake_state : ProofOfStake → Option (Dict ℕ) → Dict ℕ
  stake_state self none = self.validators
  stake_state self (some validators) = validators

  abbrev pub height_after : List Block → Option ℕ → ℕ
  height_after chain none = suc (length chain)
  height_after chain (some height) = height

  -- the checks on the header's own fields, up to the known validator; the slot and the validator
  check_slot : Block → List Block → Dict ℕ → Option ℕ → Check (ℕ × String)
  check_slot block chain validators expected_height = do
    header ← lift (as_dict (get_or "block_header" block (obj end)))
    require (py_eq (get "consensus_type" header) (str "pos")) "consensus_type is not pos"
    require (truthy (get "validator_id" header)) "missing PoS fields"
    slot ← or_reject (slot_number (get "slot" header)) "missing PoS fields"
    require (not (is_empty validators)) "no validators registered"
    require (slot == height_after chain expected_height) "slot does not match block height"
    validator_id ← known_validator (get "validator_id" header) validators
    pass (slot, validator_id)

  -- the proposer and the seal
  check_seal : Block → Dict ℕ → ℕ → String → ValidationResult
  check_seal block validators slot validator_id = do
    header ← lift (as_dict (get_or "block_header" block (obj end)))
    require (is_dict (get "tran_body" block)) "missing PoS fields"
    prev_hash ← text_field (get "prev_hash" header) "missing PoS fields"
    require (not (is_none (get "tran_hash" header))) "missing PoS fields"
    expected_proposer ← lift (select_proposer (pos slot) validators)
    require (str_eq validator_id expected_proposer) "invalid proposer for slot"
    require
        (py_eq (get "tran_hash" header) (
          str (
            calc_pos_tran_hash prev_hash (calc_body_hash (get "tran_body" block)) validator_id
              (pos slot))))
        "tran_hash mismatch"

  -- the validator's key and signature
  check_signer : ProofOfStake → Block → String → ValidationResult
  check_signer self block validator_id = do
    require (has "signature" block && has "public_key" block) "missing validator signature"
    registered_key ←
        or_reject (lookup validator_id self.validator_public_keys)
          "validator public key not registered"
    require (py_eq (get "public_key" block) (str registered_key))
        "public key does not match validator_id"
    genuine ← lift (verify_block_signature self.signature_manager block)
    require genuine "invalid validator signature"

  unfoldable pub validate_block :
      ProofOfStake → Block → List Block → Option (Dict ℕ) → Option ℕ → ValidationResult
  unfolding check_slot check_seal check_signer
  validate_block self block chain validators_at_state expected_height = do
    found ← check_slot block chain (stake_state self validators_at_state) expected_height
    check_seal block (stake_state self validators_at_state) found.0 found.1
    check_signer self block found.1
