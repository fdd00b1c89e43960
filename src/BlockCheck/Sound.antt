-- ===== src/BlockCheck/Sound.antt =====
-- A block that `add_block` lets in passes the check that `verify_chain` makes of it.
use easyblockchain.Prelude.{ℕ, ◌≡◌, String, Option, none, some, List, get_last?, subst}
use easyblockchain.Prelude.Dict.{Dict}
use easyblockchain.Python.{ok}
use easyblockchain.Python.Value.{obj, end, Fields}
use easyblockchain.Python.Fields.{get_or, as_dict}
use easyblockchain.Platform.{Platform}
use easyblockchain.Types.{Block}
use easyblockchain.Types.Check.{pass, >>=-eq-pass}
use easyblockchain.Consensus.Link.{or_text}
use easyblockchain.Consensus.Link.Sound.{IsFirst, validate_chain_link-IsLinked}
use easyblockchain.Consensus.Pow.Sound.{validate_block-IsSealed}
use easyblockchain.Consensus.Protocol.{
  ConsensusProtocol, proof_of_work, own_genesis, validate_chain_link, validate_block, ProofOfWork,
}
use easyblockchain.ChainValidator.{block_check}
use easyblockchain.ChainValidator.Checks.{first_block_check, next_block_check}
use easyblockchain.BlockCheck.{addition_check}

-- The chain and its protocol are configured with one genesis hash.
abbrev pub SameGenesis : ConsensusProtocol → String → Type 0
SameGenesis c genesis = or_text (some genesis) (own_genesis c) ≡ genesis

module _ ⦃env : Platform⦄ (w : ProofOfWork) (genesis : String) (chain : List Block)
    (block : Block) where
  -- Under proof of work, with the genesis stakes or without.
  pub addition_check-block_check :
      (stakes : Option (Dict ℕ))
      → SameGenesis (proof_of_work w) genesis
      → addition_check (some (proof_of_work w)) genesis chain block stakes ≡ pass tt
      → block_check (some (proof_of_work w)) genesis chain (get_last? chain) block ≡ pass tt
  unfolding addition_check validate_block
  addition_check-block_check stakes same h =
      let (u, height, h₁) = >>=-eq-pass _ _ h in
      let (v, link, valid) = >>=-eq-pass _ _ h₁ in
      let sealed = validate_block-IsSealed w.settings block chain valid in
      checked (get_last? chain) link sealed.header sealed.has_header valid
    where
      checked :
          (previous : Option Block)
          → validate_chain_link (proof_of_work w) block previous genesis ≡ pass tt
          → (header : Fields) → as_dict (get_or "block_header" block (obj end)) ≡ ok header
          → validate_block (proof_of_work w) block chain none none ≡ pass tt
          → block_check (some (proof_of_work w)) genesis chain previous block ≡ pass tt
      checked none link header has_header valid =
          first_block_check (proof_of_work w) genesis chain block header has_header valid
            (subst (λ g. IsFirst g block) same
              (validate_chain_link-IsLinked w.genesis_prev_hash block none (some genesis) link))
            link
      checked (some previous) link header has_header valid =
          next_block_check (proof_of_work w) genesis chain block header has_header valid previous
            link
