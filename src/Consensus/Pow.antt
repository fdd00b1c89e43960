-- ===== src/Consensus/Pow.antt =====
-- useful_blockchain/consensus/pow.py: mining, the validation of a block, and the choice of a chain.
pub mod Sound
pub mod Complete
use easyblockchain.Prelude.{
  ℕ, zero, suc, ◌+◌, Bool, true, false, ◌&&◌, not, String, Option, none, some, List, [], ◌∷◌, ◌++◌,
  length, get_last?, ltb, leb, if◌then◌else◌,
}
use easyblockchain.Prelude.Int.{ℤ, pos, pos_part, eq_ℤ}
use easyblockchain.Python.{
  Exc, Result, ok, err, runtime_error, type_error, is_conversion_error, or_raise,
}
use easyblockchain.Python.Value.{Value, str, int, obj, end, Fields}
use easyblockchain.Python.Fields.{has, item, get, get_or, put, subscript, as_dict}
use easyblockchain.Platform.{Platform}
use easyblockchain.Dynamic.{py_eq, int_of}
use easyblockchain.Types.{Block, PowSettings}
use easyblockchain.Types.Check.{
  Check, ValidationResult, pass, reject, raise, lift, require, ◌>>=◌, ◌>>◌,
}
use easyblockchain.Hash.{calc_body_hash, calc_pow_tran_hash, meets_difficulty, as_text}
use easyblockchain.Consensus.Difficulty.{get_difficulty}
use Prim.Native.String.{◌++◌ as append}

-- The names of the absent fields, in the order of the source's table.
abbrev pub missing : String → Fields → List String → List String
missing name container rest = if has name container then rest else name ∷ rest

abbrev pub missing_fields : Block → Fields → List String
missing_fields block header = missing "nonce" header (
    missing "difficulty" header
      (missing "tran_body" block (missing "prev_hash" header (missing "tran_hash" header []))))

-- `', '.join(names)`
abbrev pub join : List String → String
join [] = ""
join (name ∷ []) = name
join (name ∷ next ∷ names) = append name (append ", " (join (next ∷ names)))

abbrev pub require_none : List String → ValidationResult
require_none [] = pass tt
require_none (name ∷ names) = reject (append "missing PoW fields: " (join (name ∷ names)))

module _ ⦃env : Platform⦄ where
  -- `int(v)` where the three conversion errors reject the block
  unfoldable pub int_or_reject : Value → String → Check ℤ
  int_or_reject v reason = elim (int_of v) [
    | ok n ↦ pass n
    | err e ↦ if is_conversion_error e then reject reason else raise e
  ]

  -- the time of a `block_item`
  abbrev pub item_time : Value → String → String → Check ℕ
  item_time (str s) not_text bad_format = elim (env.strptime s) [
    | none ↦ reject bad_format
    | some t ↦ pass t
  ]
  item_time _ not_text bad_format = reject not_text

  -- the timestamp does not run behind the parent's
  unfoldable pub check_time : Block → Option Block → ValidationResult
  check_time block parent = do
    block_time ←
        item_time (get "block_item" block) "missing or invalid block_item"
          "invalid block_item format"
    elim parent [
      | none ↦ pass tt
      | some previous ↦ do
        parent_time ←
            item_time (get "block_item" previous) "parent block_item missing or invalid"
              "parent block_item missing or invalid"
        require (leb parent_time block_time) "block_item earlier than parent"
    ]

  -- the seal: the hash is that of the contents, and it meets the difficulty
  check_work : Block → Fields → ℤ → ℤ → ValidationResult
  check_work block header nonce difficulty = do
    prev_hash ← lift (as_text (get "prev_hash" header))
    let expected_hash = calc_pow_tran_hash prev_hash (calc_body_hash (get "tran_body" block)) nonce
    require (py_eq (get "tran_hash" header) (str expected_hash)) "tran_hash mismatch"
    require (meets_difficulty expected_hash difficulty) "difficulty not met"

  unfoldable pub validate_block : PowSettings → Block → List Block → ValidationResult
  unfolding check_time check_work
  validate_block settings block chain = do
    header ← lift (as_dict (get_or "block_header" block (obj end)))
    require (py_eq (get "consensus_type" header) (str "pow")) "consensus_type is not pow"
    require_none (missing_fields block header)
    declared_difficulty ← int_or_reject (get "difficulty" header) "invalid difficulty"
    nonce ← int_or_reject (get "nonce" header) "invalid nonce"
    expected_difficulty ← lift (get_difficulty settings chain)
    require (eq_ℤ declared_difficulty expected_difficulty)
        "difficulty does not match network expectation"
    check_time block (get_last? chain)
    check_work block header nonce declared_difficulty
