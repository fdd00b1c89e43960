-- ===== src/Consensus/PosChain.antt =====
-- useful_blockchain/consensus/pos.py: whole chains under proof of stake, their validation and the
-- choice of the canonical one.
use easyblockchain.Prelude.{
  ℕ, suc, Bool, true, false, String, Option, none, some, List, [], ◌∷◌, length, get_last?,
  if◌then◌else◌,
}
use easyblockchain.Prelude.Dict.{Dict}
use easyblockchain.Python.{Result, ok, err, ◌>>=◌}
use easyblockchain.Python.Value.{str, end}
use easyblockchain.Python.Fields.{get, get_or, as_dict}
use easyblockchain.Platform.{Platform}
use easyblockchain.Dynamic.{truthy}
use easyblockchain.Types.{Block}
use easyblockchain.Types.Check.{ValidationResult, pass, reject, raise}
use easyblockchain.Consensus.Link.{validate_chain_link, or_text}
use easyblockchain.Consensus.Choice.{max_from, triple_less}
use easyblockchain.Consensus.Stake.{apply_block_reward, compute_validators_from_chain, stake_weight}
use easyblockchain.Consensus.Pos.{ProofOfStake, validate_block}

-- `if not result.valid: return False`, then the rest
abbrev pub if_valid : ValidationResult → Result Bool → Result Bool
if_valid (pass u) rest = rest
if_valid (reject reason) rest = ok false
if_valid (raise e) rest = err e

module _ ⦃env : Platform⦄ (self : ProofOfStake) where
  -- the loop of `_is_chain_valid`: `chain` is the whole chain in every round
  chain_valid_from : List Block → Option Block → List Block → Result Bool
  chain_valid_from chain previous [] = ok true
  chain_valid_from chain previous (block ∷ rest) =
      if_valid
        (validate_chain_link self.genesis_prev_hash block previous (some self.genesis_prev_hash))
        (if_valid (validate_block self block chain none none)
          (chain_valid_from chain (some block) rest))

  unfoldable pub is_chain_valid : List Block → Result Bool
  unfolding chain_valid_from
  is_chain_valid chain = chain_valid_from chain none chain

  -- the loop of `validate_chain_with_genesis_stakes`, at a height and a stake state
  stakes_valid_from : String → List Block → Option Block → ℕ → Dict ℕ → List Block → Result Bool
  stakes_valid_from genesis chain previous index validators [] = ok true
  stakes_valid_from genesis chain previous index validators (block ∷ rest) =
      if_valid (validate_chain_link self.genesis_prev_hash block previous (some genesis)) (
        if_valid (validate_block self block chain (some validators) (some (suc index))) (
          apply_block_reward validators block self.settings >>= λ rewarded.
          stakes_valid_from genesis chain (some block) (suc index) rewarded rest))

  unfoldable pub validate_chain_with_genesis_stakes :
      List Block → Dict ℕ → Option String → Result Bool
  unfolding stakes_valid_from
  validate_chain_with_genesis_stakes chain genesis_stakes genesis_prev_hash =
      stakes_valid_from (or_text genesis_prev_hash self.genesis_prev_hash) chain none 0
        genesis_stakes chain

  chain_accepted : Option (Dict ℕ) → List Block → Result Bool
  unfolding is_chain_valid validate_chain_with_genesis_stakes
  chain_accepted none chain = is_chain_valid chain
  chain_accepted (some genesis_stakes) chain =
      validate_chain_with_genesis_stakes chain genesis_stakes none

  valid_chains : Option (Dict ℕ) → List (List Block) → Result (List (List Block))
  unfolding chain_accepted
  valid_chains genesis_stakes [] = ok []
  valid_chains genesis_stakes (chain ∷ chains) = do
    is_valid ← chain_accepted genesis_stakes chain
    rest ← valid_chains genesis_stakes chains
    ok (if is_valid then chain ∷ rest else rest)

  -- `str((chain[-1].get("block_header") or {}).get("tran_hash", ""))`
  tip_hash : List Block → Result String
  tip_hash chain = elim (get_last? chain) [
    | none ↦ ok ""
    | some block ↦ do
      let header = get "block_header" block
      fields ← if truthy header then as_dict header else ok end
      ok (env.to_text (get_or "tran_hash" fields (str "")))
  ]

  scoring_validators : Option (Dict ℕ) → List Block → Result (Dict ℕ)
  scoring_validators none chain = ok self.validators
  scoring_validators (some genesis_stakes) chain =
      compute_validators_from_chain chain genesis_stakes self.settings

  unfoldable pub score : Option (Dict ℕ) → List Block → Result (ℕ × ℕ × String)
  unfolding tip_hash scoring_validators
  score genesis_stakes chain = do
    tip ← tip_hash chain
    validators ← scoring_validators genesis_stakes chain
    weight ← stake_weight chain validators
    ok (length chain, weight, tip)

  -- each valid chain with its score
  scored : Option (Dict ℕ) → List (List Block) → Result (List ((ℕ × ℕ × String) × List Block))
  scored genesis_stakes [] = ok []
  scored genesis_stakes (chain ∷ chains) = do
    s ← score genesis_stakes chain
    rest ← scored genesis_stakes chains
    ok ((s, chain) ∷ rest)

  best : List ((ℕ × ℕ × String) × List Block) → List Block
  best [] = []
  best (c ∷ cs) = (max_from (λ (e : (ℕ × ℕ × String) × List Block). e.0) triple_less c cs).1

  unfoldable pub select_canonical_chain : List (List Block) → Option (Dict ℕ) → Result (List Block)
  unfolding valid_chains scored best
  select_canonical_chain chains genesis_stakes = do
    valid ← valid_chains genesis_stakes chains
    candidates ← scored genesis_stakes valid
    ok (best candidates)

  -- `score_chain`
  unfoldable pub score_chain : List Block → Result (ℕ × ℕ)
  score_chain chain = do weight ← stake_weight chain self.validators; ok (length chain, weight)
