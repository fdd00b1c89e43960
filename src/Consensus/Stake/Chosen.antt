-- ===== src/Consensus/Stake/Chosen.antt =====
-- useful_blockchain/consensus/pos.py: whom select_proposer chooses.
use easyblockchain.Prelude.{
  ℕ, ◌+◌, ◌<◌, ◌≤◌, ◌≡◌, ◌∙◌, refl, ap, Bool-cases, false, String, Option, some, none, [], ◌∷◌,
  ◌++◌, ltb, ◌==◌, arith, inl, inr, if◌then◌else◌,
}
use easyblockchain.Prelude.Int.{ℤ}
use easyblockchain.Prelude.Dict.{Dict}
use easyblockchain.Python.{Result, ok, err, zero_division_error}
use easyblockchain.Platform.{Platform}
use easyblockchain.Consensus.Stake.{
  get_total_stake, insert_sorted, sorted_items, walk, draw, fallback, select_proposer,
}
use easyblockchain.Python.Value.{int}
use Prim.Native.String.{◌++◌ as ◌++ˢ◌}
use native.Mathlib.Nat.{mod-lt}

-- In the items, the number falls into the interval of this one's stake, where the intervals follow
-- each other from the start on.
pub record IsChosen (pick start : ℕ) (items : Dict ℕ) (id : String) : Type 0 where
  pub before : Dict ℕ
  pub stake : ℕ
  pub after : Dict ℕ
  pub split : items ≡ before ++ (id, stake) ∷ after
  pub above : start + get_total_stake before ≤ pick
  pub below : pick < start + get_total_stake before + stake

get_total_stake-insert_sorted :
    (e : String × ℕ) (d : Dict ℕ) → get_total_stake (insert_sorted e d) ≡ e.1 + get_total_stake d
unfolding insert_sorted get_total_stake
get_total_stake-insert_sorted e [] = refl
get_total_stake-insert_sorted e (f ∷ rest) = ground (arith, get_total_stake-insert_sorted e rest)

pub get_total_stake-sorted_items :
    (d : Dict ℕ) → get_total_stake (sorted_items d) ≡ get_total_stake d
unfolding sorted_items get_total_stake
get_total_stake-sorted_items [] = refl
get_total_stake-sorted_items (e ∷ rest) =
    get_total_stake-insert_sorted e (sorted_items rest)
    ∙ ap (λ n. e.1 + n) (get_total_stake-sorted_items rest)

-- one step of the walk, and what it leaves to the rest
skip-IsChosen :
    {pick start : ℕ} {id other : String} {stake : ℕ} {rest : Dict ℕ}
    → IsChosen pick (start + stake) rest id
    → IsChosen pick start ((other, stake) ∷ rest) id
unfolding get_total_stake
skip-IsChosen {start = start} {other = other} {stake = stake} c = record {
  before = (other, stake) ∷ c.before;
  stake = c.stake;
  after = c.after;
  split = ap (λ l. (other, stake) ∷ l) c.split;
  above = (let h = c.above in omega arith);
  below = (let h = c.below in omega arith);
}

walk-IsChosen :
    (pick start : ℕ) (items : Dict ℕ)
    → start ≤ pick
    → pick < start + get_total_stake items
    → (id : String) × (walk pick start items ≡ some id) × IsChosen pick start items id
unfolding walk get_total_stake
walk-IsChosen pick start [] low high = absurd (omega arith)
walk-IsChosen pick start ((id, stake) ∷ rest) low high =
    elim (Bool-cases (ltb pick (start + stake))) [
      | inl e ↦ (
        id,
        ap (λ t. if t then some id else walk pick (start + stake) rest) e,
        record {
          before = [];
          stake = stake;
          after = rest;
          split = refl;
          above = omega arith;
          below = ground arith;
        },
      )
      | inr e ↦
          let found = walk-IsChosen pick (start + stake) rest (ground arith) (omega arith) in
          (
            found.0,
            ap (λ t. if t then some id else walk pick (start + stake) rest) e ∙ found.1,
            skip-IsChosen found.2,
          )
    ]

-- what the loop returned, and the last item's name where it ended without a return
abbrev chosen_or_last : Dict ℕ → Option String → Result String
chosen_or_last items (some id) = ok id
chosen_or_last items none = fallback items

module _ ⦃env : Platform⦄ where
  -- Where the stakes do not sum to 0, every slot has a proposer. It is the validator into whose
  -- interval the slot's draw falls, where each validator's interval is as long as its stake and the
  -- intervals follow each other from 0 on, in the order of sorted_items.
  pub select_proposer-IsChosen :
      (slot : ℤ) (validators : Dict ℕ)
      → 0 < get_total_stake validators
      → (id : String) × (select_proposer slot validators ≡ ok id)
        × IsChosen (draw slot (get_total_stake validators)) 0 (sorted_items validators) id
  unfolding select_proposer draw get_total_stake
  select_proposer-IsChosen slot [] positive = absurd (omega arith)
  select_proposer-IsChosen slot (e ∷ rest) positive =
      let total = get_total_stake (e ∷ rest) in
      let pick = draw slot total in
      let items = sorted_items (e ∷ rest) in
      let small =
        mod-lt (env.hex_value (env.sha256 ("slot-" ++ˢ env.to_text (int slot)))) positive in
      let same = get_total_stake-sorted_items (e ∷ rest) in
      let found = walk-IsChosen pick 0 items (omega arith) (omega arith) in
      let nonzero : (total == 0) ≡ false = ground arith in
      (
        found.0,
        ap (λ t. if t then err zero_division_error else chosen_or_last items (walk pick 0 items))
              nonzero
            ∙ ap (chosen_or_last items) found.1,
        found.2,
      )
