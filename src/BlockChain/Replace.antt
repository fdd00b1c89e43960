-- ===== src/BlockChain/Replace.antt =====
-- A replaced chain verifies, and a rejected one changes nothing.
use easyblockchain.Prelude.{
  ℕ, ◌≡◌, ◌≢◌, refl, true, false, Option, some, List, ◌⊎◌, inl, inr, Bool-cases,
}
use easyblockchain.Prelude.Dict.{Dict}
use easyblockchain.Python.{Exc, ok, err, Result-cases}
use easyblockchain.Platform.{Platform}
use easyblockchain.Types.{Block, ChainVerificationResult}
use easyblockchain.Consensus.Protocol.{proof_of_work, ProofOfWork}
use easyblockchain.ChainValidator.{verify_chain_integrity}
use easyblockchain.BlockChain.{BlockChain, replace_chain, verify_chain, synced}

module _ ⦃env : Platform⦄ where
  -- The outcome of an attempt to put another chain in the place of the node's.
  pub record IsReplaced (self : BlockChain) (new_chain : List Block) (stakes : Option (Dict ℕ))
      (self' : BlockChain) : Type 0 where
    pub chain : self'.chain ≡ new_chain
    pub rules :
        (self'.consensus ≡ self.consensus) × (self'.genesis_prev_hash ≡ self.genesis_prev_hash)
    pub verification : ChainVerificationResult
    pub verifies : verify_chain self' stakes ≡ ok verification
    pub is_valid : verification.valid ≡ true

  replace_pow :
      (w : ProofOfWork) (self : BlockChain) (new_chain : List Block) (stakes : Option (Dict ℕ))
      (v : ChainVerificationResult)
      → self.consensus ≡ some (proof_of_work w)
      → verify_chain_integrity new_chain self.consensus self.genesis_prev_hash stakes ≡ ok v
      → v.valid ≡ true
      → replace_chain self new_chain stakes
        ≡ (ok true, record self { chain = new_chain; consensus = self.consensus })
  unfolding replace_chain synced
  replace_pow w self new_chain stakes v mode checks valid =
      rw (replace_chain, checks, valid, mode) refl

  replace_invalid :
      (self : BlockChain) (new_chain : List Block) (stakes : Option (Dict ℕ))
      (v : ChainVerificationResult)
      → verify_chain_integrity new_chain self.consensus self.genesis_prev_hash stakes ≡ ok v
      → v.valid ≡ false
      → replace_chain self new_chain stakes ≡ (ok false, self)
  unfolding replace_chain
  replace_invalid self new_chain stakes v checks invalid = rw (replace_chain, checks, invalid) refl

  replace_raises :
      (self : BlockChain) (new_chain : List Block) (stakes : Option (Dict ℕ)) (e : Exc)
      → verify_chain_integrity new_chain self.consensus self.genesis_prev_hash stakes ≡ err e
      → replace_chain self new_chain stakes ≡ (err e, self)
  unfolding replace_chain
  replace_raises self new_chain stakes e checks = rw (replace_chain, checks) refl

  -- Under proof of work, either `replace_chain` answers True, the chain is the new one under the same
  -- rules, and it verifies; or it answers False or raises, and nothing has changed.
  pub replace_chain-IsReplaced :
      (w : ProofOfWork) (self : BlockChain) (new_chain : List Block) (stakes : Option (Dict ℕ))
      → self.consensus ≡ some (proof_of_work w)
      → (((replace_chain self new_chain stakes).0 ≡ ok true)
          × IsReplaced self new_chain stakes (replace_chain self new_chain stakes).1)
        ⊎ (((replace_chain self new_chain stakes).0 ≢ ok true)
            × ((replace_chain self new_chain stakes).1 ≡ self))
  unfolding verify_chain
  replace_chain-IsReplaced w self new_chain stakes mode =
      elim (Result-cases
        (verify_chain_integrity new_chain self.consensus self.genesis_prev_hash stakes)) [
          | inr (e, checks) ↦
              rw (replace_raises self new_chain stakes e checks) (inr (λ h. cc, refl))
          | inl (v, checks) ↦ elim (Bool-cases v.valid) [
            | inr invalid ↦
                rw (replace_invalid self new_chain stakes v checks invalid) (inr (λ h. cc, refl))
            | inl valid ↦ rw (replace_pow w self new_chain stakes v mode checks valid) (
                inl (
                  refl,
                  record {
                    chain = refl;
                    rules = (refl, refl);
                    verification = v;
                    verifies = checks;
                    is_valid = valid;
                  },
                ))
          ]
        ]
