-- ===== src/ChainValidator/StakeLoop.antt =====
-- The loop of `verify_chain_integrity` under proof of stake with the genesis stakes: a chain that
-- it accepts can be extended by a block that passes the check at the stakes the chain has led to.
use easyblockchain.Prelude.{
  ℕ, suc, ◌+◌, ◌≡◌, ◌∙◌, refl, ap, sym, String, Option, none, some, List, [], ◌∷◌, ◌++◌, length,
  arith,
}
use easyblockchain.Prelude.Dict.{Dict}
use easyblockchain.Python.{Result, ok, err, >>=-eq-ok}
use easyblockchain.Platform.{Platform}
use easyblockchain.Types.{Block, ChainVerificationResult, chain_valid}
use easyblockchain.Types.Check.{pass}
use easyblockchain.Consensus.Stake.{apply_block_reward, compute_validators_from_chain}
use easyblockchain.Consensus.Pos.{ProofOfStake, validate_block}
use easyblockchain.ChainValidator.{check_at, and_then, stake_block_check, verify_stakes_from}
use easyblockchain.ChainValidator.Loop.{last_of, check_at-eq-valid}

pub and_then-eq-ok :
    {A B : Type 0} (r : Result A) (f : A → Result B) (b : B)
    → and_then r f ≡ ok b
    → (a : A) × (r ≡ ok a) × (f a ≡ ok b)
and_then-eq-ok (ok a) f b h = (a, refl, h)
and_then-eq-ok (err e) f b h = cc

module _ ⦃env : Platform⦄ (self : ProofOfStake) (genesis : String) where
  -- The chain that is handed on is not read, since the height and the stakes are given.
  pub stake_block_check-chain :
      (chain chain' : List Block) (previous : Option Block) (index : ℕ) (validators : Dict ℕ)
      (block : Block)
      → stake_block_check self genesis chain previous index validators block
        ≡ stake_block_check self genesis chain' previous index validators block
  unfolding stake_block_check validate_block
  stake_block_check-chain chain chain' none index validators block = refl
  stake_block_check-chain chain chain' (some previous) index validators block = refl

  -- a round that passes and pays goes on with the rest
  round :
      (chain : List Block) (previous : Option Block) (index : ℕ) (validators rewarded : Dict ℕ)
      (block : Block) (rest : List Block)
      → stake_block_check self genesis chain previous index validators block ≡ pass tt
      → apply_block_reward validators block self.settings ≡ ok rewarded
      → verify_stakes_from self genesis chain (some block) (suc index) rewarded rest
        ≡ ok chain_valid
      → verify_stakes_from self genesis chain previous index validators (block ∷ rest)
        ≡ ok chain_valid
  unfolding verify_stakes_from check_at
  round chain previous index validators rewarded block rest passes reward later =
      ap
        (λ v.
          check_at (suc index) v
            (and_then (apply_block_reward validators block self.settings) after))
        passes
      ∙ ap (λ r. check_at (suc index) (pass tt) (and_then r after)) reward
      ∙ later
    where
      after : Dict ℕ → Result ChainVerificationResult
      after paid = verify_stakes_from self genesis chain (some block) (suc index) paid rest

  pub verify_stakes_from-append_one :
      (chain chain' : List Block) (previous : Option Block) (index : ℕ)
      (validators reached rewarded : Dict ℕ) (rest : List Block) (block : Block)
      → verify_stakes_from self genesis chain previous index validators rest ≡ ok chain_valid
      → compute_validators_from_chain rest validators self.settings ≡ ok reached
      → stake_block_check self genesis chain
          (last_of previous rest)
          (index + length rest)
          reached
          block
        ≡ pass tt
      → apply_block_reward reached block self.settings ≡ ok rewarded
      → verify_stakes_from self genesis chain' previous index validators (rest ++ block ∷ [])
        ≡ ok chain_valid
  unfolding verify_stakes_from compute_validators_from_chain check_at
  verify_stakes_from-append_one chain chain' previous index validators reached rewarded [] block h c
        passes reward =
      let same : validators ≡ reached = ground arith in
      let here = stake_block_check-chain chain chain' previous index validators block in
      let n : index + 0 ≡ index = omega arith in
      round chain' previous index validators rewarded block [] (sym here ∙ rw same (rw n at passes))
        (rw same reward) refl
  verify_stakes_from-append_one chain chain' previous index validators reached rewarded (b ∷ rest)
        block h c passes reward =
      let (now, later) = check_at-eq-valid (suc index) _ _ h in
      let (paid, paid_eq, rest_valid) = and_then-eq-ok _ _ _ later in
      let (paid', paid'_eq, reaches) = >>=-eq-ok _ _ c in
      let same : paid' ≡ paid = ground arith in
      let here = stake_block_check-chain chain chain' previous index validators b in
      let n : index + suc (length rest) ≡ suc index + length rest = omega arith in
      let more =
        verify_stakes_from-append_one chain chain' (some b) (suc index) paid reached rewarded rest
          block rest_valid (rw same at reaches) (rw n at passes) reward in
      round chain' previous index validators paid b (rest ++ block ∷ []) (sym here ∙ now) paid_eq
        more

-- The validators that the protocol itself records play no part.
module _ ⦃env : Platform⦄ (self : ProofOfStake) (recorded : Dict ℕ) (genesis : String)
    (chain : List Block) where
  recorded_unread :
      (previous : Option Block) (index : ℕ) (validators : Dict ℕ) (block : Block)
      → stake_block_check
          (record self { validators = recorded })
          genesis
          chain
          previous
          index
          validators
          block
        ≡ stake_block_check self genesis chain previous index validators block
  unfolding stake_block_check validate_block
  recorded_unread none index validators block = refl
  recorded_unread (some previous) index validators block = refl

  pub verify_stakes_from-validators :
      (previous : Option Block) (index : ℕ) (validators : Dict ℕ) (rest : List Block)
      → verify_stakes_from
          (record self { validators = recorded })
          genesis
          chain
          previous
          index
          validators
          rest
        ≡ verify_stakes_from self genesis chain previous index validators rest
  unfolding verify_stakes_from
  verify_stakes_from-validators previous index validators [] = refl
  verify_stakes_from-validators previous index validators (block ∷ rest) =
      ap
        (λ v. check_at (suc index) v (
          and_then (apply_block_reward validators block self.settings) (λ rewarded.
            verify_stakes_from (record self { validators = recorded }) genesis chain (some block)
              (suc index) rewarded rest)))
        (recorded_unread previous index validators block)
      ∙ ap
          (λ after.
            check_at (suc index)
              (stake_block_check self genesis chain previous index validators block)
              (and_then (apply_block_reward validators block self.settings) after))
          (λ i rewarded. verify_stakes_from-validators (some block) (suc index) rewarded rest i)
