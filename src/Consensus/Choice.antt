-- ===== src/Consensus/Choice.antt =====
-- Python's `max(xs, key=score)`: the first of the elements with the greatest score.
use easyblockchain.Prelude.{ℕ, Bool, true, false, List, [], ◌∷◌, if◌then◌else◌, ltb, ◌==◌, String}
use Prim.Native.String.{compare}
use text.Mathlib.Text.{is_lt}

module _ {ℓ κ} {A : Type ℓ} {S : Type κ} (score : A → S) (less : S → S → Bool) where
  unfoldable pub max_from : A → List A → A
  max_from best [] = best
  max_from best (x ∷ xs) = max_from (if less (score best) (score x) then x else best) xs

-- The order of Python's tuples, on (int, int) and (int, int, str).
abbrev pub pair_less : ℕ × ℕ → ℕ × ℕ → Bool
pair_less (a, b) (c, d) = if ltb a c then true else if a == c then ltb b d else false

abbrev pub triple_less : ℕ × ℕ × String → ℕ × ℕ × String → Bool
triple_less (a, b, s) (c, d, t) =
    if ltb a c
    then true
    else if a == c
    then (if ltb b d then true else if b == d then is_lt (compare s t) else false)
    else false
