-- ===== src/Hash/Difficulty.antt =====
-- What the difficulty test of hash_utils.py accepts.
use easyblockchain.Prelude.{ℕ, zero, suc, ◌-◌, ◌≤◌, ◌≡◌, refl, ◌↔◌, true, String, arith}
use easyblockchain.Prelude.Int.{ℤ, pos, negsuc}
use easyblockchain.Hash.{text_length, lstrip_zeros, meets_difficulty}
use Prim.Native.Char.{code}

-- The first `d` characters are there and are all `0`.
abbrev pub ZeroPrefix : ℕ → String → Type 0
ZeroPrefix zero s = Unit
ZeroPrefix (suc d) String.[] = ⊥
ZeroPrefix (suc d) (String.◌∷◌ c s) = (code c ≡ b'0') × ZeroPrefix d s

lstrip_zeros-length-le : (s : String) → text_length (lstrip_zeros s) ≤ text_length s
unfolding text_length lstrip_zeros
lstrip_zeros-length-le String.[] = omega arith
lstrip_zeros-length-le (String.◌∷◌ c s) = ground (arith, lstrip_zeros-length-le s)

leading_zeros_sound :
    (d : ℕ) (s : String) → d ≤ text_length s - text_length (lstrip_zeros s) → ZeroPrefix d s
unfolding text_length lstrip_zeros
leading_zeros_sound zero s h = tt
leading_zeros_sound (suc d) String.[] h = absurd (omega arith)
leading_zeros_sound (suc d) (String.◌∷◌ c s) h =
    ground (arith, lstrip_zeros-length-le s, leading_zeros_sound d s)

leading_zeros_complete :
    (d : ℕ) (s : String) → ZeroPrefix d s → d ≤ text_length s - text_length (lstrip_zeros s)
unfolding text_length lstrip_zeros
leading_zeros_complete zero s h = omega arith
leading_zeros_complete (suc d) String.[] h = absurd h
leading_zeros_complete (suc d) (String.◌∷◌ c s) h =
    ground (arith, lstrip_zeros-length-le s, leading_zeros_complete d s h.1)

-- A hash meets a difficulty exactly when the difficulty is at least 1 and that many leading
-- characters of the hash are zeros; a difficulty of zero or less is met by none.
pub meets_difficulty_iff :
    (hash_hex : String) (difficulty : ℤ)
    → (meets_difficulty hash_hex difficulty ≡ true)
      ↔ ((d : ℕ) × (difficulty ≡ pos (suc d)) × ZeroPrefix (suc d) hash_hex)
unfolding meets_difficulty
meets_difficulty_iff s (negsuc n) = (λ h. absurd (ground arith), λ h. absurd (ground arith))
meets_difficulty_iff s (pos zero) = (λ h. absurd (ground arith), λ h. absurd (ground arith))
meets_difficulty_iff s (pos (suc d)) = (
  λ h. (d, refl, leading_zeros_sound (suc d) s (ground arith)),
  λ h. ground (arith, leading_zeros_complete (suc d) s),
)
