-- ===== src/BlockChain/Extends.antt =====
-- A chain that verifies still verifies after `add_block` and `replace_chain`.
use easyblockchain.Prelude.{ℕ, ◌≡◌, true, String, Option, none, some, [], ◌∷◌, ◌++◌, arith}
use easyblockchain.Prelude.Dict.{Dict}
use easyblockchain.Python.{ok}
use easyblockchain.Platform.{Platform}
use easyblockchain.Types.{Block, chain_valid}
use easyblockchain.Types.Check.{pass}
use easyblockchain.Consensus.Protocol.{proof_of_work, ProofOfWork, on_block_added}
use easyblockchain.ChainValidator.Loop.{
  last_of-none, verify_chain_integrity_iff, IsChecked-append_one, IsChecked,
}
use easyblockchain.BlockCheck.{addition_check}
use easyblockchain.BlockCheck.Sound.{SameGenesis, addition_check-block_check}
use easyblockchain.BlockChain.{BlockChain, add_block, verify_chain}

module _ ⦃env : Platform⦄ where
  -- `add_block` answers True exactly when the check passes and the hook does not raise.
  added :
      (self : BlockChain) (block : Block) (stakes : Option (Dict ℕ)) (self' : BlockChain)
      → add_block self block stakes ≡ (ok true, self')
      → addition_check self.consensus self.genesis_prev_hash self.chain block stakes ≡ pass tt
  unfolding add_block
  added self block stakes self' h = ground arith

  module _ (w : ProofOfWork) (self self' : BlockChain) (block : Block) (stakes : Option (Dict ℕ))
      (mode : self.consensus ≡ some (proof_of_work w)) where
    added_pow :
        add_block self block stakes ≡ (ok true, self')
        → self' ≡ record self { chain = self.chain ++ block ∷ [] }
    unfolding add_block on_block_added
    added_pow h = ground arith

    -- Under proof of work, where the chain and the protocol are configured with one genesis hash, a
    -- verified chain to which `add_block` has added a block verifies.
    pub add_block-verify_chain :
        SameGenesis (proof_of_work w) self.genesis_prev_hash
        → verify_chain self stakes ≡ ok chain_valid
        → add_block self block stakes ≡ (ok true, self')
        → verify_chain self' stakes ≡ ok chain_valid
    unfolding verify_chain
    add_block-verify_chain same verified h =
        let checked : IsChecked (some (proof_of_work w)) genesis [] none self.chain =
          (verify_chain_integrity_iff w genesis stakes self.chain).0 (rw mode at verified) in
        let passed : addition_check (some (proof_of_work w)) genesis self.chain block stakes
            ≡ pass tt =
          rw mode at (added self block stakes self' h) in
        let last = addition_check-block_check w genesis self.chain block stakes same passed in
        let longer =
          IsChecked-append_one (some (proof_of_work w)) genesis [] none self.chain block checked
            (rw last_of-none last) in
        rw (added_pow h, mode)
          ((verify_chain_integrity_iff w genesis stakes (self.chain ++ block ∷ [])).1 longer)
      where
        genesis : String
        genesis = self.genesis_prev_hash
