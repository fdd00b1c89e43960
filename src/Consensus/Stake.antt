-- ===== src/Consensus/Stake.antt =====
-- The stake map of useful_blockchain/consensus/pos.py: rewards, totals, weights and the choice of
-- a slot's proposer. Stakes and rewards are not negative.
pub mod Chosen
use easyblockchain.Prelude.{
  ℕ, ◌+◌, ◌%◌, Bool, false, String, Option, none, some, List, [], ◌∷◌, ltb, ◌==◌, if◌then◌else◌,
}
use easyblockchain.Prelude.Int.{ℤ}
use easyblockchain.Prelude.Dict.{Dict, lookup, contains, insert}
use easyblockchain.Python.{Result, ok, err, value_error, type_error, zero_division_error, ◌>>=◌}
use easyblockchain.Python.Value.{Value, str, int, arr, obj, end}
use easyblockchain.Python.Fields.{get, as_dict}
use easyblockchain.Platform.{Platform}
use easyblockchain.Dynamic.{truthy}
use easyblockchain.Types.{Block, PosSettings}
use Prim.Native.String.{◌++◌, compare}
use text.Mathlib.Text.{is_le}

-- `v in validators`
abbrev pub is_member : Value → Dict ℕ → Result Bool
is_member (str s) validators = ok (contains s validators)
is_member (arr xs) validators = err type_error
is_member (obj f) validators = err type_error
is_member _ validators = ok false

-- the stake of a key that is there
abbrev pub stake_of : String → Dict ℕ → ℕ
stake_of id validators = elim (lookup id validators) [ none ↦ 0 | some s ↦ s ]

-- `validators[v] += amount`, where `v in validators` holds
abbrev pub add_stake : Value → ℕ → Dict ℕ → Dict ℕ
add_stake (str id) amount validators = insert id (stake_of id validators + amount) validators
add_stake _ amount validators = validators

-- `stake_map[v]`, where `v in stake_map` holds
abbrev member_stake : Value → Dict ℕ → ℕ
member_stake (str id) validators = stake_of id validators
member_stake _ validators = 0

unfoldable pub get_total_stake : Dict ℕ → ℕ
get_total_stake [] = 0
get_total_stake ((id, stake) ∷ rest) = stake + get_total_stake rest

abbrev str_le : String → String → Bool
str_le s t = is_le (compare s t)

unfoldable pub insert_sorted : String × ℕ → Dict ℕ → Dict ℕ
insert_sorted e [] = e ∷ []
insert_sorted e (f ∷ rest) = if str_le e.0 f.0 then e ∷ f ∷ rest else f ∷ insert_sorted e rest

-- `sorted(stake_map.items())`: keys are distinct, so they alone decide
unfoldable pub sorted_items : Dict ℕ → Dict ℕ
unfolding insert_sorted
sorted_items [] = []
sorted_items (e ∷ rest) = insert_sorted e (sorted_items rest)

-- `sorted(stake_map.keys())[-1]`, for the part of the sorted items that the loop has not left
last_key : String → Dict ℕ → String
last_key id [] = id
last_key id ((next, stake) ∷ rest) = last_key next rest

-- The loop of `select_proposer`, from a running total; absent where it ends without a return.
unfoldable pub walk : ℕ → ℕ → Dict ℕ → Option String
walk pick cumulative [] = none
walk pick cumulative ((id, stake) ∷ rest) =
    let later = walk pick (cumulative + stake) rest in
    if ltb pick (cumulative + stake) then some id else later

unfoldable pub fallback : Dict ℕ → Result String
unfolding last_key
fallback [] = err value_error
fallback ((id, stake) ∷ rest) = ok (last_key id rest)

module _ ⦃env : Platform⦄ where
  -- `(block.get("block_header") or {}).get("validator_id")`
  abbrev pub block_validator : Block → Result Value
  block_validator block = do
    let header = get "block_header" block
    fields ← if truthy header then as_dict header else ok end
    ok (get "validator_id" fields)

  unfoldable pub apply_block_reward : Dict ℕ → Block → PosSettings → Result (Dict ℕ)
  apply_block_reward validators block settings = do
    validator_id ← block_validator block
    known ← if truthy validator_id then is_member validator_id validators else ok false
    ok (if known then add_stake validator_id settings.block_reward validators else validators)

  unfoldable pub compute_validators_from_chain : List Block → Dict ℕ → PosSettings → Result (Dict ℕ)
  unfolding apply_block_reward
  compute_validators_from_chain [] validators settings = ok validators
  compute_validators_from_chain (block ∷ chain) validators settings = do
    rewarded ← apply_block_reward validators block settings
    compute_validators_from_chain chain rewarded settings

  -- the number that the slot's hash draws, below the total stake
  unfoldable pub draw : ℤ → ℕ → ℕ
  draw slot total = env.hex_value (env.sha256 ("slot-" ++ env.to_text (int slot))) % total

  unfoldable pub select_proposer : ℤ → Dict ℕ → Result String
  unfolding draw walk fallback
  select_proposer slot [] = err value_error
  select_proposer slot (e ∷ rest) =
      let total = get_total_stake (e ∷ rest) in
      if total == 0
      then err zero_division_error
      else elim (walk (draw slot total) 0 (sorted_items (e ∷ rest))) [
        | some id ↦ ok id
        | none ↦ fallback (sorted_items (e ∷ rest))
      ]

  -- `_stake_weight`
  unfoldable pub stake_weight : List Block → Dict ℕ → Result ℕ
  stake_weight [] validators = ok 0
  stake_weight (block ∷ chain) validators = do
    validator_id ← block_validator block
    known ← if truthy validator_id then is_member validator_id validators else ok false
    weight ← stake_weight chain validators
    ok ((if known then member_stake validator_id validators else 0) + weight)
