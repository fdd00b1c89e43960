-- ===== src/Consensus/Protocol.antt =====
-- useful_blockchain/consensus: the two implementations of ConsensusProtocol behind one type, as a
-- chain holds them, and factory.py.
use easyblockchain.Prelude.{ℕ, String, Option, none, some, List, [], ◌∷◌, str_eq, if◌then◌else◌}
use easyblockchain.Prelude.Dict.{Dict, contains, insert}
use easyblockchain.Python.{Result, ok, ◌>>=◌}
use easyblockchain.Platform.{Platform}
use easyblockchain.Types.{Block, PowSettings, ConsensusSettings, ConsensusType, GenesisSettings}
use easyblockchain.Types.Check.{ValidationResult}
use easyblockchain.Signature.{SignatureManager}
use easyblockchain.Consensus.Link
use easyblockchain.Consensus.Pos
use easyblockchain.Consensus.Pos.{ProofOfStake}
use easyblockchain.Consensus.Pow
use easyblockchain.Consensus.Mining
use easyblockchain.Consensus.Propose
use easyblockchain.Consensus.PosChain

pub record ProofOfWork : Type 0 where
  pub settings : PowSettings
  pub genesis_prev_hash : String

pub data ConsensusProtocol : Type 0 where
  proof_of_work : ProofOfWork → ConsensusProtocol
  proof_of_stake : ProofOfStake → ConsensusProtocol

abbrev pub own_genesis : ConsensusProtocol → String
own_genesis (proof_of_work p) = p.genesis_prev_hash
own_genesis (proof_of_stake p) = p.genesis_prev_hash

-- the property `consensus_type`
abbrev pub consensus_type : ConsensusProtocol → String
consensus_type (proof_of_work p) = "pow"
consensus_type (proof_of_stake p) = "pos"

module _ ⦃env : Platform⦄ where
  abbrev pub validate_chain_link :
      ConsensusProtocol → Block → Option Block → String → ValidationResult
  validate_chain_link c block previous genesis_prev_hash =
      Link.validate_chain_link (own_genesis c) block previous (some genesis_prev_hash)

  -- with the two arguments that only proof of stake takes
  unfoldable pub validate_block :
      ConsensusProtocol → Block → List Block → Option (Dict ℕ) → Option ℕ → ValidationResult
  validate_block (proof_of_work p) block chain validators height =
      Pow.validate_block p.settings block chain
  validate_block (proof_of_stake p) block chain validators height =
      Pos.validate_block p block chain validators height

  unfoldable pub prepare_block : ConsensusProtocol → Block → List Block → Result Block
  prepare_block (proof_of_work p) block chain = Mining.mine_block p.settings block chain
  prepare_block (proof_of_stake p) block chain = Propose.prepare_block p block chain

  unfoldable pub on_block_added : ConsensusProtocol → Block → Result ConsensusProtocol
  on_block_added (proof_of_work p) block = ok (proof_of_work p)
  on_block_added (proof_of_stake p) block = do
    rewarded ← Propose.on_block_added p block
    ok (proof_of_stake rewarded)

  unfoldable pub select_canonical_chain :
      ConsensusProtocol → List (List Block) → Option (Dict ℕ) → Result (List Block)
  select_canonical_chain (proof_of_work p) chains genesis_stakes =
      Mining.select_canonical_chain p.settings p.genesis_prev_hash chains
  select_canonical_chain (proof_of_stake p) chains genesis_stakes =
      PosChain.select_canonical_chain p chains genesis_stakes

  unfoldable pub register_all : ProofOfStake → Dict ℕ → Result ProofOfStake
  register_all pos [] = ok pos
  register_all pos ((id, stake) ∷ rest) = do
    registered ← Pos.register_validator pos id stake none
    register_all registered rest

  -- `stakes`: those of the genesis, and the node's own with the least stake if it has none
  abbrev pub initial_stakes : Option (Dict ℕ) → Option String → ℕ → Dict ℕ
  initial_stakes genesis_stakes node min_stake =
      let stakes : Dict ℕ = elim genesis_stakes [ none ↦ [] | some s ↦ s ] in
      elim node [
        | none ↦ stakes
        | some id ↦
            if str_eq id ""
            then stakes
            else if contains id stakes
            then stakes
            else insert id min_stake stakes
      ]

  unfoldable pub create_consensus :
      ConsensusSettings
      → GenesisSettings
      → Option String
      → SignatureManager
      → Option (Dict ℕ)
      → Result ConsensusProtocol
  create_consensus settings genesis node signature_manager genesis_stakes = elim settings.type [
    | ConsensusType.pow ↦
        ok (
          proof_of_work (record { settings = settings.pow; genesis_prev_hash = genesis.prev_hash }))
    | ConsensusType.pos ↦ do
      registered ←
          register_all
            (record {
              settings = settings.pos;
              node_validator_id = node;
              signature_manager = signature_manager;
              validators = [];
              genesis_stakes = genesis_stakes;
              validator_public_keys = [];
              genesis_prev_hash = genesis.prev_hash;
            })
            (initial_stakes genesis_stakes node settings.pos.min_stake)
      ok (proof_of_stake registered)
  ]
