-- ===== src/BlockChain/StakeExtends.antt =====
-- A chain that verifies under proof of stake still verifies after `add_block`.
use easyblockchain.Prelude.{
  ℕ, suc, ◌+◌, ◌≡◌, ◌∙◌, refl, subst, Bool, true, false, String, Option, none, some, List, [], ◌∷◌,
  ◌++◌, length, get_last?, arith, if◌then◌else◌, inl, inr,
}
use easyblockchain.Prelude.Dict.{Dict, contains}
use easyblockchain.Python.{ok, err, >>=-eq-ok, >>=-ok, >>=-err, Exc, Result-cases}
use easyblockchain.Python.Value.{Value, str, obj, arr}
use easyblockchain.Platform.{Platform}
use easyblockchain.Dynamic.{truthy}
use easyblockchain.Types.{Block, PosSettings, chain_valid}
use easyblockchain.Types.Check.{pass, lift-eq-pass, >>=-eq-pass}
use easyblockchain.Consensus.Link.Sound.{IsFirst, validate_chain_link-IsLinked}
use easyblockchain.Consensus.Stake.{is_member, apply_block_reward, compute_validators_from_chain}
use easyblockchain.Consensus.Pos.{ProofOfStake}
use easyblockchain.Consensus.Pos
use easyblockchain.Consensus.Propose
use easyblockchain.Consensus.Protocol.{proof_of_stake, on_block_added, validate_chain_link}
use easyblockchain.ChainValidator.{stake_block_check, verify_chain_integrity}
use easyblockchain.ChainValidator.Checks.{first_stake_check, next_stake_check}
use easyblockchain.ChainValidator.Loop.{last_of-none}
use easyblockchain.ChainValidator.StakeLoop.{
  verify_stakes_from-append_one, verify_stakes_from-validators,
}
use easyblockchain.BlockCheck.{addition_check}
use easyblockchain.BlockCheck.Sound.{SameGenesis}
use easyblockchain.BlockChain.{BlockChain, add_block, verify_chain}

module _ ⦃env : Platform⦄ where
  is_member-any :
      (v : Value) (d d' : Dict ℕ) (known : Bool)
      → is_member v d ≡ ok known
      → (k : Bool) × (is_member v d' ≡ ok k)
  is_member-any (str s) d d' known h = (contains s d', refl)
  is_member-any (arr xs) d d' known h = absurd (cc)
  is_member-any (obj f) d d' known h = absurd (cc)
  is_member-any _ d d' known h = (false, refl)

  membership-any :
      (t : Bool) (v : Value) (d d' : Dict ℕ) (known : Bool)
      → (if t then is_member v d else ok false) ≡ ok known
      → (k : Bool) × ((if t then is_member v d' else ok false) ≡ ok k)
  membership-any true v d d' known h = is_member-any v d d' known h
  membership-any false v d d' known h = (false, refl)

  -- Whether the reward raises hangs on the block alone.
  apply_block_reward-any :
      (d d' rewarded : Dict ℕ) (block : Block) (settings : PosSettings)
      → apply_block_reward d block settings ≡ ok rewarded
      → (r : Dict ℕ) × (apply_block_reward d' block settings ≡ ok r)
  unfolding apply_block_reward
  apply_block_reward-any d d' rewarded block settings h =
      let (v, e, h₁) = >>=-eq-ok _ _ h in
      let (known, e₁, h₂) = >>=-eq-ok _ _ h₁ in
      let (k, e₂) = membership-any (truthy v) v d d' known e₁ in (_, >>=-ok _ e (>>=-ok _ e₂ refl))

  -- What `add_block` has checked is what the validator checks, at the stakes of the chain.
  addition_check-stake_block_check :
      (p : ProofOfStake) (genesis : String) (chain whole : List Block) (block : Block)
      (stakes : Dict ℕ)
      → SameGenesis (proof_of_stake p) genesis
      → addition_check (some (proof_of_stake p)) genesis chain block (some stakes) ≡ pass tt
      → (reached : Dict ℕ) × (compute_validators_from_chain chain stakes p.settings ≡ ok reached)
        × (stake_block_check p genesis whole (get_last? chain) (length chain) reached block
            ≡ pass tt)
  unfolding addition_check Pos.validate_block
  addition_check-stake_block_check p genesis chain whole block stakes same h =
      let (u, height, h₁) = >>=-eq-pass _ _ h in
      let (v, link, h₂) = >>=-eq-pass _ _ h₁ in
      let (reached, reaches, valid) = lift-eq-pass _ _ h₂ in
      (reached, reaches, checked reached (get_last? chain) link valid)
    where
      checked :
          (reached : Dict ℕ) (previous : Option Block)
          → validate_chain_link (proof_of_stake p) block previous genesis ≡ pass tt
          → Pos.validate_block p block whole (some reached) (some (suc (length chain))) ≡ pass tt
          → stake_block_check p genesis whole previous (length chain) reached block ≡ pass tt
      checked reached none link valid =
          first_stake_check p genesis whole (length chain) _ block valid
            (subst (λ g. IsFirst g block) same
              (validate_chain_link-IsLinked p.genesis_prev_hash block none (some genesis) link))
            link
      checked reached (some previous) link valid =
          next_stake_check p genesis whole (length chain) _ block valid previous link

  hook_pays :
      (p : ProofOfStake) (block : Block) (rewarded : Dict ℕ)
      → apply_block_reward p.validators block p.settings ≡ ok rewarded
      → on_block_added (proof_of_stake p) block
        ≡ ok (proof_of_stake (record p { validators = rewarded }))
  unfolding on_block_added Propose.on_block_added
  hook_pays p block rewarded pays = >>=-ok _ (>>=-ok _ pays refl) refl

  hook_raises :
      (p : ProofOfStake) (block : Block) (raised : Exc)
      → apply_block_reward p.validators block p.settings ≡ err raised
      → on_block_added (proof_of_stake p) block ≡ err raised
  unfolding on_block_added Propose.on_block_added
  hook_raises p block raised e = >>=-err _ (>>=-err _ e)

  module _ (p : ProofOfStake) (self self' : BlockChain) (block : Block) (stakes : Dict ℕ)
      (mode : self.consensus ≡ some (proof_of_stake p)) where
    -- the chain after the addition, and the reward that the hook has paid
    record Added : Type 0 where
      passed :
          addition_check
            (some (proof_of_stake p))
            self.genesis_prev_hash
            self.chain
            block
            (some stakes)
          ≡ pass tt
      rewarded : Dict ℕ
      pays : apply_block_reward p.validators block p.settings ≡ ok rewarded
      after : self' ≡ record self {
        chain = self.chain ++ block ∷ [];
        consensus = some (proof_of_stake (record p { validators = rewarded }));
      }

    added : add_block self block (some stakes) ≡ (ok true, self') → Added
    unfolding add_block
    added h = elim (Result-cases (apply_block_reward p.validators block p.settings)) [
      | inl (rewarded, pays) ↦ record {
        passed = ground arith;
        rewarded = rewarded;
        pays = pays;
        after = ground (arith, hook_pays p block rewarded pays);
      }
      | inr (raised, e) ↦ absurd (ground (arith, hook_raises p block raised e))
    ]

    -- Under proof of stake with the genesis stakes, where the chain and the protocol are configured
    -- with one genesis hash, a verified chain to which `add_block` has added a block verifies.
    pub stake_add_block-verify_chain :
        SameGenesis (proof_of_stake p) self.genesis_prev_hash
        → verify_chain self (some stakes) ≡ ok chain_valid
        → add_block self block (some stakes) ≡ (ok true, self')
        → verify_chain self' (some stakes) ≡ ok chain_valid
    unfolding verify_chain verify_chain_integrity
    stake_add_block-verify_chain same verified h =
        let a = added h in
        let from_zero : length self.chain ≡ 0 + length self.chain = omega arith in
        let (reached, reaches, passes) =
          addition_check-stake_block_check p self.genesis_prev_hash self.chain self.chain block
            stakes same a.passed in
        let (reward, pays) =
          apply_block_reward-any p.validators reached a.rewarded block p.settings a.pays in
        let kept =
          verify_stakes_from-append_one p self.genesis_prev_hash self.chain
            (self.chain ++ block ∷ []) none 0 stakes reached reward self.chain block
            (rw mode at verified) reaches
            (rw last_of-none (
              subst
                (λ n.
                  stake_block_check p self.genesis_prev_hash self.chain (get_last? self.chain) n
                    reached block
                  ≡ pass tt)
                from_zero passes))
            pays in
        rw a.after (
          verify_stakes_from-validators p a.rewarded self.genesis_prev_hash
            (self.chain ++ block ∷ []) none 0 stakes (self.chain ++ block ∷ [])
          ∙ kept)
