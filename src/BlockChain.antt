-- ===== src/BlockChain.antt =====
-- useful_blockchain/blockchain.py: class BlockChain. A method that may raise returns its result
-- beside the object, since what was written before a raise stays written.
pub mod Extends
pub mod Replace
pub mod StakeExtends
use easyblockchain.Prelude.{
  ℕ, suc, ◌-◌, ◌+◌, Bool, true, false, not, ◌||◌, String, Option, none, some, List, [], ◌∷◌, ◌++◌,
  length, take, drop, get_elem?, get_last?, ltb, if◌then◌else◌,
}
use easyblockchain.Prelude.Int.{ℤ, pos, negsuc}
use easyblockchain.Prelude.Dict.{Dict}
use easyblockchain.Python.{Result, ok, err, value_error, type_error, or_raise, guard, ◌>>=◌, ◌>>◌}
use easyblockchain.Python.Value.{Value, str, int, obj, arr, end, field, to_list, is_none}
use easyblockchain.Python.Fields.{item, get, has, put, subscript}
use easyblockchain.Platform.{Platform}
use easyblockchain.Dynamic.{py_eq, count_fields}
use easyblockchain.Types.{Block, ChainVerificationResult}
use easyblockchain.Types.Check.{ValidationResult, pass, reject, raise}
use easyblockchain.Hash.{calc_body_hash, calc_legacy_tran_hash, as_text, text_length}
use easyblockchain.Signature.{SignatureManager, sign_block, with_private_key}
use easyblockchain.Signature
use easyblockchain.Consensus.Pos.{ProofOfStake}
use easyblockchain.Consensus.Propose.{sync_validators_from_chain}
use easyblockchain.Consensus.Protocol.{
  ConsensusProtocol, proof_of_work, proof_of_stake, consensus_type, prepare_block, on_block_added,
}
use easyblockchain.ChainValidator.{verify_chain_integrity}
use easyblockchain.BlockCheck.{addition_check}

pub record BlockChain : Type 0 where
  pub chain : List Block
  pub enable_signature : Bool
  pub consensus : Option ConsensusProtocol
  pub genesis_prev_hash : String
  -- present where signatures are enabled
  pub signature_manager : Option SignatureManager

-- `len(v)`
abbrev pub len_of : Value → Result ℕ
len_of (str s) = ok (text_length s)
len_of (arr xs) = ok (length (to_list xs))
len_of (obj f) = ok (count_fields f)
len_of _ = err type_error

-- `BlockChain(...)`
unfoldable pub new_chain : Bool → Option ConsensusProtocol → String → BlockChain
new_chain enable_signature consensus genesis_prev_hash = record {
  chain = [];
  enable_signature = enable_signature;
  consensus = consensus;
  genesis_prev_hash = genesis_prev_hash;
  signature_manager = if enable_signature then some Signature.no_keys else none;
}

module _ ⦃env : Platform⦄ where
  -- `self.chain.append(block)` and the hook
  append_block : BlockChain → Block → Result (Unit {0}) × BlockChain
  append_block self block =
      let appended = record self { chain = self.chain ++ block ∷ [] } in
      elim self.consensus [
        | none ↦ (ok tt, appended)
        | some c ↦ elim (on_block_added c block) [
          | ok c' ↦ (ok tt, record appended { consensus = some c' })
          | err e ↦ (err e, appended)
        ]
      ]

  returning {ℓ} : {A : Type ℓ} → A → Result (Unit {0}) × BlockChain → Result A × BlockChain
  returning a (ok u, self) = (ok a, self)
  returning a (err e, self) = (err e, self)

  -- the hash that the next block carries on
  tip_link : BlockChain → Result Value
  tip_link self = elim (get_last? self.chain) [
    | none ↦ ok (str self.genesis_prev_hash)
    | some last ↦ do header ← item "block_header" last; subscript header "tran_hash"
  ]

  initial_header : Option ConsensusProtocol → Value → Value → Result Value
  initial_header (some c) prev_hash transaction = ok (
      obj (
        field "prev_hash" prev_hash
          (field "consensus_type" (str (consensus_type c)) (field "tran_hash" (str "") end))))
  initial_header none prev_hash transaction = do
    text ← as_text prev_hash
    ok (
        obj (
          field "prev_hash" prev_hash (
            field "tran_hash" (str (calc_legacy_tran_hash text (calc_body_hash transaction))) end)))

  -- the block with the consensus requirements, or with a signature
  finish_block : BlockChain → Block → Result Block
  finish_block self block = elim self.consensus [
    | some c ↦ prepare_block c block self.chain
    | none ↦
        if not self.enable_signature
        then ok block
        else elim self.signature_manager [ none ↦ ok block | some m ↦ sign_block m block ]
  ]

  -- The block that `add_new_block` appends; `now` is the formatted time.
  unfoldable pub new_block : BlockChain → Value → Value → String → Result Block
  unfolding tip_link initial_header finish_block
  new_block self input_data output_data now = do
    let transaction = obj (field "input_data" input_data (field "output_data" output_data end))
    prev_hash ← tip_link self
    header ← initial_header self.consensus prev_hash transaction
    inputs ← len_of input_data
    outputs ← len_of output_data
    finish_block self (
        field "block_index" (int (pos (suc (length self.chain)))) (
          field "block_item" (str now) (
            field "block_header" header (
              field "tran_counter" (int (pos (inputs + outputs)))
                (field "tran_body" transaction end)))))

  unfoldable pub add_new_block : BlockChain → Value → Value → String → Result Block × BlockChain
  unfolding append_block returning new_block
  add_new_block self input_data output_data now = elim (new_block self input_data output_data now) [
    | err e ↦ (err e, self)
    | ok block ↦ returning block (append_block self block)
  ]

  -- `add_block(block, validate=True, genesis_stakes=...)`
  unfoldable pub add_block : BlockChain → Block → Option (Dict ℕ) → Result Bool × BlockChain
  unfolding append_block returning
  add_block self block genesis_stakes =
      elim (addition_check self.consensus self.genesis_prev_hash self.chain block genesis_stakes) [
        | reject reason ↦ (ok false, self)
        | raise e ↦ (err e, self)
        | pass u ↦ returning true (append_block self block)
      ]

  -- `add_block(block, validate=False)`
  unfoldable pub add_unchecked : BlockChain → Block → Result Bool × BlockChain
  unfolding append_block returning
  add_unchecked self block = returning true (append_block self block)

  -- the validators of the new chain, under proof of stake with the genesis stakes
  synced :
      Option ConsensusProtocol → List Block → Option (Dict ℕ) → Result (Option ConsensusProtocol)
  synced (some (proof_of_stake p)) chain (some stakes) = do
    p' ← sync_validators_from_chain p chain stakes
    ok (some (proof_of_stake p'))
  synced consensus chain genesis_stakes = ok consensus

  unfoldable pub verify_chain : BlockChain → Option (Dict ℕ) → Result ChainVerificationResult
  verify_chain self genesis_stakes =
      verify_chain_integrity self.chain self.consensus self.genesis_prev_hash genesis_stakes

  unfoldable pub replace_chain :
      BlockChain → List Block → Option (Dict ℕ) → Result Bool × BlockChain
  unfolding synced
  replace_chain self new_chain genesis_stakes =
      elim (verify_chain_integrity new_chain self.consensus self.genesis_prev_hash genesis_stakes) [
        | err e ↦ (err e, self)
        | ok verification ↦
            if not verification.valid
            then (ok false, self)
            else elim (synced self.consensus new_chain genesis_stakes) [
              | ok consensus ↦ (ok true, record self { chain = new_chain; consensus = consensus })
              | err e ↦ (err e, record self { chain = new_chain })
            ]
      ]

  -- `blocks[:limit]`
  abbrev pub limited : List Block → Option ℤ → List Block
  limited blocks none = blocks
  limited blocks (some (pos n)) = take n blocks
  limited blocks (some (negsuc n)) = take (length blocks - (n + 1)) blocks

  -- the heights below 1 are read as 1
  abbrev pub start_index : ℤ → ℕ
  start_index (pos n) = n - 1
  start_index (negsuc n) = 0

  unfoldable pub get_blocks_from : BlockChain → ℤ → Option ℤ → List Block
  get_blocks_from self from_height limit = limited (drop (start_index from_height) self.chain) limit

  unfoldable pub generate_key_pair : BlockChain → ℕ → Option BlockChain
  generate_key_pair self key =
      if not self.enable_signature then none else elim self.signature_manager [
        | none ↦ none
        | some m ↦ some (record self { signature_manager = some (with_private_key key) })
      ]

  signed_check : SignatureManager → Option Block → Result Bool
  signed_check m none = ok false
  signed_check m (some block) =
      if has "signature" block then Signature.verify_block_signature m block else ok false

  unfoldable pub verify_block_signature : BlockChain → ℤ → Result Bool
  unfolding signed_check
  verify_block_signature self (negsuc n) = ok false
  verify_block_signature self (pos n) =
      if not self.enable_signature || ltb n 1 then ok false else elim self.signature_manager [
        | none ↦ ok false
        | some m ↦ signed_check m (get_elem? self.chain (n - 1))
      ]
