-- ===== src/Consensus/Mining/Search.antt =====
-- The mining loop finds the least nonce that works, or there is none in the range.
use easyblockchain.Prelude.{
  ℕ, zero, suc, ◌+◌, ◌≤◌, ◌<◌, ◌≡◌, Bool, true, false, String, Option, none, some, arith,
  Bool-cases, inl, inr, ◌≢◌, ◌⊎◌,
}
use easyblockchain.Prelude.Int.{ℤ, pos}
use easyblockchain.Platform.{Platform}
use easyblockchain.Hash.{calc_pow_tran_hash, meets_difficulty}
use easyblockchain.Consensus.Mining.{search_nonce}

module _ ⦃env : Platform⦄ (prev_hash body_hash : String) (difficulty : ℤ) where
  -- the nonce's hash meets the difficulty
  abbrev pub works : ℕ → Bool
  works nonce = meets_difficulty (calc_pow_tran_hash prev_hash body_hash (pos nonce)) difficulty

  -- What the loop over `rounds` nonces from `start` returns.
  abbrev pub Finds : ℕ → ℕ → Option ℕ → Type 0
  Finds rounds start (some nonce) =
      (start ≤ nonce)
      × (nonce < start + rounds)
      × (works nonce ≡ true)
      × ((k : ℕ) → start ≤ k → k < nonce → works k ≡ false)
  Finds rounds start none = (k : ℕ) → start ≤ k → k < start + rounds → works k ≡ false

  later_Finds :
      (rounds start : ℕ) (r : Option ℕ)
      → works start ≡ false
      → Finds rounds (suc start) r
      → Finds (suc rounds) start r
  later_Finds rounds start none fails f = λ k lo hi. below k (dec_eq k) lo hi
    where
      dec_eq : (k : ℕ) → (k ≡ start) ⊎ (k ≢ start)
      dec_eq k = omega arith

      below :
          (k : ℕ) → (k ≡ start) ⊎ (k ≢ start) → start ≤ k → k < start + suc rounds → works k ≡ false
      below k (inl e) lo hi = rw e fails
      below k (inr ne) lo hi = f k (omega arith) (omega arith)
  later_Finds rounds start (some nonce) fails f =
      (omega (arith, f.0), omega (arith, f.1), f.2, λ k lo hi. below k (dec_eq k) lo hi)
    where
      dec_eq : (k : ℕ) → (k ≡ start) ⊎ (k ≢ start)
      dec_eq k = omega arith

      below : (k : ℕ) → (k ≡ start) ⊎ (k ≢ start) → start ≤ k → k < nonce → works k ≡ false
      below k (inl e) lo hi = rw e fails
      below k (inr ne) lo hi = f.3 k (omega arith) (omega arith)

  -- The loop stops at the first nonce of its range whose hash meets the difficulty; without a
  -- result, no nonce of the range does.
  pub search_nonce-Finds :
      (rounds start : ℕ)
      → Finds rounds start (search_nonce prev_hash body_hash difficulty rounds start)
  unfolding search_nonce
  search_nonce-Finds zero start = λ k lo hi. absurd (omega arith)
  search_nonce-Finds (suc rounds) start = elim (Bool-cases (works start)) [
    | inl hit ↦ rw hit (omega arith, omega arith, hit, λ k lo hi. absurd (omega arith))
    | inr miss ↦ rw miss (later_Finds rounds start _ miss (search_nonce-Finds rounds (suc start)))
  ]
