-- ===== src/ChainValidator/Failure.antt =====
-- What `verify_chain_integrity` reports of a chain that fails, in either of its loops.
use easyblockchain.Prelude.{
  ℕ, suc, ◌+◌, ◌≡◌, refl, ap, String, Option, none, some, List, [], ◌∷◌, ◌++◌, length, arith, inl,
  inr,
}
use easyblockchain.Prelude.Dict.{Dict}
use easyblockchain.Python.{ok, >>=-ok}
use easyblockchain.Platform.{Platform}
use easyblockchain.Types.{Block, chain_invalid}
use easyblockchain.Types.Check.{pass, reject}
use easyblockchain.Consensus.Stake.{apply_block_reward, compute_validators_from_chain}
use easyblockchain.Consensus.Pos.{ProofOfStake}
use easyblockchain.Consensus.Protocol.{ConsensusProtocol, proof_of_work, proof_of_stake}
use easyblockchain.ChainValidator.{stake_block_check, verify_stakes_from, verify_chain_integrity}
use easyblockchain.ChainValidator.Loop.{
  last_of, check_at-eq-invalid, FirstFailure, verify_from-FirstFailure,
}
use easyblockchain.ChainValidator.StakeLoop.{and_then-eq-ok}

module _ ⦃env : Platform⦄ (self : ProofOfStake) (genesis : String) (chain : List Block) where
  -- Every block passes the check at the stakes that the blocks before it have led to.
  abbrev pub IsStakeChecked : Option Block → ℕ → Dict ℕ → List Block → Type 0
  IsStakeChecked previous index validators [] = Unit
  IsStakeChecked previous index validators (block ∷ rest) =
      (stake_block_check self genesis chain previous index validators block ≡ pass tt)
      × (rewarded : Dict ℕ) × (apply_block_reward validators block self.settings ≡ ok rewarded)
      × IsStakeChecked (some block) (suc index) rewarded rest

  -- The block at height `i` of the blocks is the first that fails, for the reason given, at the
  -- stakes that the rewards of the blocks before it make.
  pub record FirstStakeFailure (previous : Option Block) (index : ℕ) (validators : Dict ℕ)
      (blocks : List Block) (i : ℕ) (reason : String) : Type 0 where
    pub good : List Block
    pub bad : Block
    pub rest : List Block
    pub split : blocks ≡ good ++ bad ∷ rest
    pub height : i ≡ index + length good + 1
    pub reached : Dict ℕ
    pub rewards : compute_validators_from_chain good validators self.settings ≡ ok reached
    pub good_checked : IsStakeChecked previous index validators good
    pub bad_rejected :
        stake_block_check self genesis chain
          (last_of previous good)
          (index + length good)
          reached
          bad
        ≡ reject reason

  verify_stakes_from-FirstStakeFailure :
      (previous : Option Block) (index : ℕ) (validators : Dict ℕ) (blocks : List Block) (i : ℕ)
      (reason : String)
      → verify_stakes_from self genesis chain previous index validators blocks
        ≡ ok (chain_invalid i reason)
      → FirstStakeFailure previous index validators blocks i reason
  unfolding verify_stakes_from compute_validators_from_chain
  verify_stakes_from-FirstStakeFailure previous index validators [] i reason h =
      absurd (ground arith)
  verify_stakes_from-FirstStakeFailure previous index validators (block ∷ rest) i reason h =
      elim (check_at-eq-invalid (suc index) _ _ i reason h) [
        | inl (rejected, here) ↦
            let n : index + 0 ≡ index = omega arith in
            record {
              good = [];
              bad = block;
              rest = rest;
              split = refl;
              height = omega arith;
              reached = validators;
              rewards = refl;
              good_checked = tt;
              bad_rejected = rw n rejected;
            }
        | inr (passed, later) ↦
            let (rewarded, paid, fails) = and_then-eq-ok _ _ _ later in
            let f =
              verify_stakes_from-FirstStakeFailure (some block) (suc index) rewarded rest i reason
                fails in
            let n : index + suc (length f.good) ≡ suc index + length f.good = omega arith in
            record {
              good = block ∷ f.good;
              bad = f.bad;
              rest = f.rest;
              split = ap (◌∷◌ block) f.split;
              height = omega (arith, f.height);
              reached = f.reached;
              rewards = >>=-ok _ paid f.rewards;
              good_checked = (passed, rewarded, paid, f.good_checked);
              bad_rejected = rw n f.bad_rejected;
            }
      ]

module _ ⦃env : Platform⦄ (genesis : String) (chain : List Block) (i : ℕ) (reason : String) where
  -- the first failure of the loop that the validator takes
  abbrev pub IsLocated : Option ConsensusProtocol → Option (Dict ℕ) → Type 0
  IsLocated (some (proof_of_stake self)) (some stakes) =
      FirstStakeFailure self genesis chain none 0 stakes chain i reason
  IsLocated (some (proof_of_stake self)) none =
      FirstFailure (some (proof_of_stake self)) genesis [] none 0 chain i reason
  IsLocated (some (proof_of_work self)) stakes =
      FirstFailure (some (proof_of_work self)) genesis [] none 0 chain i reason
  IsLocated none stakes = FirstFailure none genesis [] none 0 chain i reason

  -- Whatever the protocol, with genesis stakes or without: where the validator reports a height and a
  -- reason, the blocks before that height all pass their checks, and the block at that height fails
  -- its check for that reason. Under proof of stake with genesis stakes, each check is made at the
  -- stakes that the rewards of the blocks before have led to.
  pub verify_chain_integrity-IsLocated :
      (consensus : Option ConsensusProtocol) (stakes : Option (Dict ℕ))
      → verify_chain_integrity chain consensus genesis stakes ≡ ok (chain_invalid i reason)
      → IsLocated consensus stakes
  unfolding verify_chain_integrity
  verify_chain_integrity-IsLocated (some (proof_of_stake self)) (some stakes) h =
      verify_stakes_from-FirstStakeFailure self genesis chain none 0 stakes chain i reason h
  verify_chain_integrity-IsLocated (some (proof_of_stake self)) none h =
      verify_from-FirstFailure (some (proof_of_stake self)) genesis [] none 0 chain i reason h
  verify_chain_integrity-IsLocated (some (proof_of_work self)) stakes h =
      verify_from-FirstFailure (some (proof_of_work self)) genesis [] none 0 chain i reason h
  verify_chain_integrity-IsLocated none stakes h =
      verify_from-FirstFailure none genesis [] none 0 chain i reason h
