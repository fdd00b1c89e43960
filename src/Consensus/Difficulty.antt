-- ===== src/Consensus/Difficulty.antt =====
-- useful_blockchain/consensus/pow.py: `get_difficulty` and `_elapsed_seconds`, and Python's slices
-- with a signed start.
use easyblockchain.Prelude.{
  ℕ, ◌+◌, ◌-◌, ◌||◌, Option, none, some, List, [], ◌∷◌, length, drop, get_last?, if◌then◌else◌,
}
use easyblockchain.Prelude.Int.{ℤ, pos, negsuc, sub_ℕ, ◌-ℤ◌, ◌*ℤ◌, ltb_ℤ, leb_ℤ, max_ℤ}
use easyblockchain.Python.{Result, ok, index_error, or_raise, ◌>>=◌}
use easyblockchain.Python.Value.{Value, str, int}
use easyblockchain.Python.Fields.{item, get, get_or, as_dict}
use easyblockchain.Platform.{Platform}
use easyblockchain.Dynamic.{int_of}
use easyblockchain.Types.{Block, PowSettings}

module _ {ℓ} {A : Type ℓ} where
  -- `xs[i:]`
  abbrev pub slice_from : ℤ → List A → List A
  slice_from (pos i) xs = drop i xs
  slice_from (negsuc i) xs = drop (length xs - (i + 1)) xs

  abbrev pub head? : List A → Option A
  head? [] = none
  head? (x ∷ xs) = some x

-- the two timestamps, where both are texts
abbrev pub times : ⦃env : Platform⦄ → Value → Value → Option (ℕ × ℕ)
times ⦃env⦄ (str s) (str t) = elim (env.strptime s) [
  | none ↦ none
  | some a ↦ elim (env.strptime t) [ none ↦ none | some b ↦ some (a, b) ]
]
times ⦃env⦄ _ _ = none

module _ ⦃env : Platform⦄ (settings : PowSettings) where
  -- `int(header.get("difficulty", initial_difficulty))` of a block in the chain
  recorded_difficulty : Block → Result ℤ
  recorded_difficulty block = do
    header ← item "block_header" block
    fields ← as_dict header
    int_of (get_or "difficulty" fields (int settings.initial_difficulty))

  elapsed_seconds : Block → Block → ℤ
  elapsed_seconds start_block end_block =
      elim (times (get "block_item" start_block) (get "block_item" end_block)) [
        | none ↦ settings.target_block_time_seconds *ℤ settings.adjustment_interval
        | some (start, finish) ↦ max_ℤ (pos 1) (sub_ℕ finish start)
      ]

  -- slower than wanted: the new value falls, by the factor at most
  lowered : ℤ → ℕ → Result ℤ
  lowered first_difficulty ratio = do
    let factor =
        if env.float_lt settings.max_adjustment_factor ratio
        then settings.max_adjustment_factor
        else ratio
    quotient ← env.int_div_float first_difficulty factor
    truncated ← env.float_to_int quotient
    bound ← env.int_div_float first_difficulty settings.max_adjustment_factor
    lower_bound ← env.float_ceil bound
    ok (max_ℤ (max_ℤ (pos 1) truncated) lower_bound)

  -- faster than wanted: it rises, by the factor at most
  raised : ℤ → ℕ → Result ℤ
  raised first_difficulty ratio = do
    least ← env.int_div_float (pos 1) settings.max_adjustment_factor
    let divisor = if env.float_lt ratio least then least else ratio
    quotient ← env.int_div_float first_difficulty divisor
    truncated ← env.float_to_int quotient
    ok (max_ℤ (pos 1) truncated)

  adjusted : ℤ → ℤ → ℤ → Result ℤ
  unfolding lowered raised
  adjusted first_difficulty actual_time expected_time =
      if leb_ℤ expected_time (pos 0) || leb_ℤ actual_time (pos 0) then ok first_difficulty else (do
        ratio ← env.int_div actual_time expected_time
        if env.float_lt env.float_one ratio
            then lowered first_difficulty ratio
            else if env.float_lt ratio env.float_one
            then raised first_difficulty ratio
            else ok first_difficulty)

  unfoldable pub get_difficulty : List Block → Result ℤ
  unfolding recorded_difficulty elapsed_seconds adjusted
  get_difficulty [] = ok settings.initial_difficulty
  get_difficulty (b ∷ bs) =
      let chain = b ∷ bs in
      let interval = settings.adjustment_interval in
      if ltb_ℤ (pos (length chain)) interval
      then (do last ← or_raise (get_last? chain) index_error; recorded_difficulty last)
      else (do
        let recent = slice_from (pos 0 -ℤ interval) chain
        first ← or_raise (head? recent) index_error
        last ← or_raise (get_last? recent) index_error
        first_difficulty ← recorded_difficulty first
        adjusted first_difficulty (elapsed_seconds first last)
            (settings.target_block_time_seconds *ℤ (interval -ℤ pos 1)))
