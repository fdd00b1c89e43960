-- ===== src/ChainValidator/Checks.antt =====
-- The check of one block in `verify_chain_integrity`, put together from what `add_block` has seen.
use easyblockchain.Prelude.Dict.{Dict}
use easyblockchain.Consensus.Pos.{ProofOfStake}
use easyblockchain.Consensus.Pos
use easyblockchain.Prelude.{ℕ, suc, ◌≡◌, true, String, none, some, List, arith}
use easyblockchain.Prelude.Int.{pos}
use easyblockchain.Python.{ok}
use easyblockchain.Python.Value.{Value, str, int, obj, end, Fields}
use easyblockchain.Python.Fields.{item, get_or, as_dict}
use easyblockchain.Platform.{Platform}
use easyblockchain.Dynamic.{py_eq}
use easyblockchain.Dynamic.Laws.{py_eq-str_refl}
use easyblockchain.Types.{Block}
use easyblockchain.Types.Check.{pass, lift, require, ◌>>=◌}
use easyblockchain.Consensus.Link.Sound.{IsFirst, header_item}
use easyblockchain.Consensus.Protocol.{
  ConsensusProtocol, validate_chain_link, validate_block, proof_of_stake,
}
use easyblockchain.ChainValidator.{genesis_check, first_index_check, block_check, stake_block_check}

module _ ⦃env : Platform⦄ where
  genesis_check_passes :
      (genesis : String) (block : Block)
      → header_item "prev_hash" block ≡ ok (str genesis)
      → genesis_check block genesis ≡ pass tt
  unfolding genesis_check ◌>>=◌ lift require
  genesis_check_passes genesis block h = ground (arith, py_eq-str_refl genesis)

  first_index_check_passes :
      (block : Block) (index : Value)
      → item "block_index" block ≡ ok index
      → py_eq index (int (pos 1)) ≡ true
      → first_index_check block ≡ pass tt
  unfolding first_index_check ◌>>=◌ lift require
  first_index_check_passes block index h one = ground arith

  module _ (c : ConsensusProtocol) (genesis : String) (before : List Block) (block : Block)
      (header : Fields) (has_header : as_dict (get_or "block_header" block (obj end)) ≡ ok header)
      (valid : validate_block c block before none none ≡ pass tt) where
    pub first_block_check :
        IsFirst genesis block
        → validate_chain_link c block none genesis ≡ pass tt
        → block_check (some c) genesis before none block ≡ pass tt
    unfolding block_check ◌>>=◌ lift
    first_block_check f link = ground (
      arith,
      link,
      valid,
      has_header,
      genesis_check_passes genesis block f.starts,
      first_index_check_passes block f.index f.has_index f.index_one,
    )

    pub next_block_check :
        (previous : Block)
        → validate_chain_link c block (some previous) genesis ≡ pass tt
        → block_check (some c) genesis before (some previous) block ≡ pass tt
    unfolding block_check ◌>>=◌ lift
    next_block_check previous link = ground (arith, link, valid, has_header)

  -- the same under proof of stake, at given stakes
  module _ (p : ProofOfStake) (genesis : String) (chain : List Block) (index : ℕ)
      (validators : Dict ℕ) (block : Block)
      (valid : Pos.validate_block p block chain (some validators) (some (suc index))
        ≡ pass tt) where
    pub first_stake_check :
        IsFirst genesis block
        → validate_chain_link (proof_of_stake p) block none genesis ≡ pass tt
        → stake_block_check p genesis chain none index validators block ≡ pass tt
    unfolding stake_block_check ◌>>=◌
    first_stake_check f link =
        ground (arith, link, valid, genesis_check_passes genesis block f.starts)

    pub next_stake_check :
        (previous : Block)
        → validate_chain_link (proof_of_stake p) block (some previous) genesis ≡ pass tt
        → stake_block_check p genesis chain (some previous) index validators block ≡ pass tt
    unfolding stake_block_check ◌>>=◌
    next_stake_check previous link = ground (arith, link, valid)
