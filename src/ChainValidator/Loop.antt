-- ===== src/ChainValidator/Loop.antt =====
-- The loops of `verify_chain_integrity` against "every block passes its check".
use easyblockchain.Prelude.{
  ℕ, suc, ◌+◌, ◌≡◌, ◌∙◌, refl, ap, String, Option, none, some, List, [], ◌∷◌, ◌++◌, length,
  get_last?, arith, ◌⊎◌, ◌↔◌, inl, inr,
}
use easyblockchain.Prelude.Dict.{Dict}
use easyblockchain.Python.{Result, ok}
use easyblockchain.Platform.{Platform}
use easyblockchain.Types.{Block, ChainVerificationResult, chain_valid, chain_invalid}
use easyblockchain.Types.Check.{ValidationResult, pass, reject, raise}
use easyblockchain.Consensus.Protocol.{ConsensusProtocol, proof_of_work, ProofOfWork}
use easyblockchain.ChainValidator.{check_at, block_check, verify_from, verify_chain_integrity}
use mathlib.Core.List.{append-nil, append_assoc}

-- the last of the blocks, or else the one before them
abbrev pub last_of : Option Block → List Block → Option Block
last_of previous [] = previous
last_of previous (block ∷ rest) = last_of (some block) rest

pub last_of-none : (chain : List Block) → last_of none chain ≡ get_last? chain
last_of-none [] = refl
last_of-none (b ∷ []) = refl
last_of-none (b ∷ c ∷ rest) = last_of-none (c ∷ rest)

pub check_at-eq-valid :
    (index : ℕ) (v : ValidationResult) (rest : Result ChainVerificationResult)
    → check_at index v rest ≡ ok chain_valid
    → (v ≡ pass tt) × (rest ≡ ok chain_valid)
unfolding check_at
check_at-eq-valid index (pass u) rest h = (refl, h)
check_at-eq-valid index (reject r) rest h = cc
check_at-eq-valid index (raise e) rest h = cc

pub check_at-eq-invalid :
    (index : ℕ) (v : ValidationResult) (rest : Result ChainVerificationResult) (i : ℕ)
    (reason : String)
    → check_at index v rest ≡ ok (chain_invalid i reason)
    → ((v ≡ reject reason) × (i ≡ index)) ⊎ ((v ≡ pass tt) × (rest ≡ ok (chain_invalid i reason)))
unfolding check_at
check_at-eq-invalid index (pass u) rest i reason h = inr (refl, h)
check_at-eq-invalid index (reject r) rest i reason h = inl (ground arith, ground arith)
check_at-eq-invalid index (raise e) rest i reason h = cc

module _ ⦃env : Platform⦄ (consensus : Option ConsensusProtocol) (genesis : String) where
  -- Every block passes the check against the blocks before it.
  abbrev pub IsChecked : List Block → Option Block → List Block → Type 0
  IsChecked before previous [] = Unit
  IsChecked before previous (block ∷ rest) =
      (block_check consensus genesis before previous block ≡ pass tt)
      × IsChecked (before ++ block ∷ []) (some block) rest

  pub verify_from-IsChecked :
      (before : List Block) (previous : Option Block) (index : ℕ) (chain : List Block)
      → verify_from consensus genesis before previous index chain ≡ ok chain_valid
      → IsChecked before previous chain
  unfolding verify_from
  verify_from-IsChecked before previous index [] h = tt
  verify_from-IsChecked before previous index (block ∷ rest) h =
      let (now, later) = check_at-eq-valid (suc index) _ _ h in
      (now, verify_from-IsChecked (before ++ block ∷ []) (some block) (suc index) rest later)

  pub IsChecked-verify_from :
      (before : List Block) (previous : Option Block) (index : ℕ) (chain : List Block)
      → IsChecked before previous chain
      → verify_from consensus genesis before previous index chain ≡ ok chain_valid
  unfolding verify_from check_at
  IsChecked-verify_from before previous index [] h = refl
  IsChecked-verify_from before previous index (block ∷ rest) h =
      ap
        (λ v.
          check_at (suc index) v
            (verify_from consensus genesis (before ++ block ∷ []) (some block) (suc index) rest))
        h.0
      ∙ IsChecked-verify_from (before ++ block ∷ []) (some block) (suc index) rest h.1

  pub IsChecked-append_one :
      (before : List Block) (previous : Option Block) (chain : List Block) (block : Block)
      → IsChecked before previous chain
      → block_check consensus genesis (before ++ chain) (last_of previous chain) block ≡ pass tt
      → IsChecked before previous (chain ++ block ∷ [])
  IsChecked-append_one before previous [] block h c = (rw append-nil at c, tt)
  IsChecked-append_one before previous (b ∷ rest) block h c =
      (h.0, IsChecked-append_one (before ++ b ∷ []) (some b) rest block h.1 (rw append_assoc c))

  -- The block at height `i` of the chain is the first that fails, for the reason given.
  pub record FirstFailure (before : List Block) (previous : Option Block) (index : ℕ)
      (chain : List Block) (i : ℕ) (reason : String) : Type 0 where
    pub good : List Block
    pub bad : Block
    pub rest : List Block
    pub split : chain ≡ good ++ bad ∷ rest
    pub height : i ≡ index + length good + 1
    pub good_checked : IsChecked before previous good
    pub bad_rejected :
        block_check consensus genesis (before ++ good) (last_of previous good) bad ≡ reject reason

  -- Where the second loop reports a height and a reason, the block at that height is the first that
  -- fails its check, and fails for that reason; the blocks before it all pass.
  pub verify_from-FirstFailure :
      (before : List Block) (previous : Option Block) (index : ℕ) (chain : List Block) (i : ℕ)
      (reason : String)
      → verify_from consensus genesis before previous index chain ≡ ok (chain_invalid i reason)
      → FirstFailure before previous index chain i reason
  unfolding verify_from
  verify_from-FirstFailure before previous index [] i reason h = absurd (ground arith)
  verify_from-FirstFailure before previous index (block ∷ rest) i reason h =
      elim (check_at-eq-invalid (suc index) _ _ i reason h) [
        | inl (rejected, here) ↦ record {
          good = [];
          bad = block;
          rest = rest;
          split = refl;
          height = omega arith;
          good_checked = tt;
          bad_rejected = rw append-nil rejected;
        }
        | inr (passed, later) ↦
            let f =
              verify_from-FirstFailure (before ++ block ∷ []) (some block) (suc index) rest i reason
                later in
            record {
              good = block ∷ f.good;
              bad = f.bad;
              rest = f.rest;
              split = ap (◌∷◌ block) f.split;
              height = omega (arith, f.height);
              good_checked = (passed, f.good_checked);
              bad_rejected = rw append_assoc at f.bad_rejected;
            }
      ]

module _ ⦃env : Platform⦄ (w : ProofOfWork) (genesis : String) (stakes : Option (Dict ℕ)) where
  -- Under proof of work a chain verifies exactly when every block passes its check.
  pub verify_chain_integrity_iff :
      (chain : List Block)
      → (verify_chain_integrity chain (some (proof_of_work w)) genesis stakes ≡ ok chain_valid)
        ↔ IsChecked (some (proof_of_work w)) genesis [] none chain
  unfolding verify_chain_integrity
  verify_chain_integrity_iff chain = (
    verify_from-IsChecked (some (proof_of_work w)) genesis [] none 0 chain,
    IsChecked-verify_from (some (proof_of_work w)) genesis [] none 0 chain,
  )
