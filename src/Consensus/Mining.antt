-- ===== src/Consensus/Mining.antt =====
-- useful_blockchain/consensus/pow.py: `mine_block`, and the choice among chains.
pub mod Search
pub mod Accepted
pub mod Best
use easyblockchain.Prelude.{
  ℕ, zero, suc, ◌+◌, Bool, true, false, String, Option, none, some, List, [], ◌∷◌, ◌++◌, length,
  if◌then◌else◌,
}
use easyblockchain.Prelude.Int.{ℤ, pos, pos_part, ◌+ℤ◌, ltb_ℤ, eq_ℤ}
use easyblockchain.Python.{Result, ok, err, runtime_error, or_raise, ◌>>=◌}
use easyblockchain.Python.Value.{Value, str, int, obj, Fields}
use easyblockchain.Python.Fields.{item, get_or, put, as_dict}
use easyblockchain.Platform.{Platform}
use easyblockchain.Dynamic.{int_of}
use easyblockchain.Types.{Block, PowSettings}
use easyblockchain.Types.Check.{ValidationResult}
use easyblockchain.Hash.{calc_body_hash, calc_pow_tran_hash, meets_difficulty, as_text}
use easyblockchain.Consensus.Link.{validate_chain_link}
use easyblockchain.Consensus.Choice.{max_from}
use easyblockchain.Consensus.Difficulty.{get_difficulty}
use easyblockchain.Consensus.Propose.{as_mapping}
use easyblockchain.Consensus.PosChain.{if_valid}
use easyblockchain.Consensus.Pow.{validate_block}

-- Lexicographic order on an integer and a length.
abbrev pub work_less : ℤ × ℕ → ℤ × ℕ → Bool
work_less (a, m) (b, n) =
    if ltb_ℤ a b then true else if eq_ℤ a b then ltb_ℤ (pos m) (pos n) else false

module _ ⦃env : Platform⦄ where
  -- The loop over `range(max_mining_iterations)`, from a nonce, with the rounds left.
  unfoldable pub search_nonce : String → String → ℤ → ℕ → ℕ → Option ℕ
  search_nonce prev_hash body_hash difficulty zero nonce = none
  search_nonce prev_hash body_hash difficulty (suc rounds) nonce =
      let later = search_nonce prev_hash body_hash difficulty rounds (suc nonce) in
      if meets_difficulty (calc_pow_tran_hash prev_hash body_hash (pos nonce)) difficulty
      then some nonce
      else later

  -- the header of the mined block
  unfoldable pub seal_header : Fields → String → String → ℤ → ℕ → Fields
  seal_header header prev_hash body_hash difficulty nonce = put "consensus_type" (str "pow") (
      put "tran_hash" (str (calc_pow_tran_hash prev_hash body_hash (pos nonce)))
        (put "difficulty" (int difficulty) (put "nonce" (int (pos nonce)) header)))

  unfoldable pub mine_block : PowSettings → Block → List Block → Result Block
  mine_block settings block chain = do
    header_value ← item "block_header" block
    header ← as_mapping header_value
    prev_hash_value ← item "prev_hash" header
    body ← item "tran_body" block
    difficulty ← get_difficulty settings chain
    prev_hash ← as_text prev_hash_value
    nonce ←
        or_raise
          (search_nonce prev_hash (calc_body_hash body) difficulty
            (pos_part settings.max_mining_iterations) 0)
          runtime_error
    ok (
        put "block_header"
          (obj (seal_header header prev_hash (calc_body_hash body) difficulty nonce)) block)

  module _ (settings : PowSettings) where
    -- the loop of `_is_chain_valid`, with the blocks before
    chain_valid_from : String → List Block → Option Block → List Block → Result Bool
    chain_valid_from genesis before previous [] = ok true
    chain_valid_from genesis before previous (block ∷ rest) =
        if_valid (validate_chain_link genesis block previous (some genesis)) (
          if_valid (validate_block settings block before)
            (chain_valid_from genesis (before ++ block ∷ []) (some block) rest))

    unfoldable pub is_chain_valid : String → List Block → Result Bool
    unfolding chain_valid_from
    is_chain_valid genesis chain = chain_valid_from genesis [] none chain

  -- `_total_difficulty`
  unfoldable pub total_difficulty : List Block → Result ℤ
  total_difficulty [] = ok (pos 0)
  total_difficulty (block ∷ chain) = do
    header ← item "block_header" block
    fields ← as_dict header
    difficulty ← int_of (get_or "difficulty" fields (int (pos 0)))
    rest ← total_difficulty chain
    ok (difficulty +ℤ rest)

  valid_chains : PowSettings → String → List (List Block) → Result (List (List Block))
  valid_chains settings genesis [] = ok []
  valid_chains settings genesis (chain ∷ chains) = do
    is_valid ← is_chain_valid settings genesis chain
    rest ← valid_chains settings genesis chains
    ok (if is_valid then chain ∷ rest else rest)

  scored : List (List Block) → Result (List ((ℤ × ℕ) × List Block))
  scored [] = ok []
  scored (chain ∷ chains) = do
    work ← total_difficulty chain
    rest ← scored chains
    ok (((work, length chain), chain) ∷ rest)

  best : List ((ℤ × ℕ) × List Block) → List Block
  best [] = []
  best (c ∷ cs) = (max_from (λ (e : (ℤ × ℕ) × List Block). e.0) work_less c cs).1

  unfoldable pub select_canonical_chain :
      PowSettings → String → List (List Block) → Result (List Block)
  unfolding valid_chains scored best
  select_canonical_chain settings genesis chains = do
    valid ← valid_chains settings genesis chains
    candidates ← scored valid
    ok (best candidates)

  -- `score_chain`
  unfoldable pub score_chain : List Block → Result (ℤ × ℕ)
  score_chain chain = do work ← total_difficulty chain; ok (work, length chain)
