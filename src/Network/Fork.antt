-- ===== src/Network/Fork.antt =====
-- useful_blockchain/network/node.py: what the node does with a chain that a peer has sent. The node's
-- protocol is the one of its chain, and its genesis stakes are always given.
pub mod Sound
use easyblockchain.Prelude.{
  ℕ, Bool, true, false, not, String, Option, none, some, List, [], ◌∷◌, ◌++◌, get_last?,
  if◌then◌else◌,
}
use easyblockchain.Prelude.Dict.{Dict}
use easyblockchain.Python.{Result, ok, err, attribute_error, ◌>>=◌}
use easyblockchain.Python.Value.{Value, obj, arr, Items, nil, cons}
use easyblockchain.Python.Fields.{item, get, as_dict}
use easyblockchain.Platform.{Platform}
use easyblockchain.Dynamic.{py_eq}
use easyblockchain.Types.{Block}
use easyblockchain.Consensus.Protocol.{ConsensusProtocol, select_canonical_chain}
use easyblockchain.BlockChain.{BlockChain, replace_chain}
use easyblockchain.Network.Answer.{of_blocks}

-- `block["block_header"].get(key)`
abbrev pub header_get : String → Block → Result Value
header_get key block = do
  header_value ← item "block_header" block
  header ← as_dict header_value
  ok (get key header)

module _ ⦃env : Platform⦄ where
  -- Both lists are non-empty: `last` ends the local chain, `first` begins the fragment.
  unfoldable pub join_chain_suffix :
      List Block → Block → Block → List Block → Result (Option (List Block))
  join_chain_suffix local last first rest = do
    prev_hash ← header_get "prev_hash" first
    tran_hash ← header_get "tran_hash" last
    ok (if not (py_eq prev_hash tran_hash) then none else some (local ++ first ∷ rest))

  -- the chain that competes with the local one
  unfoldable pub joined_chain : List Block → Block → Block → List Block → Result (List Block)
  joined_chain local last first rest = do
    joined ← join_chain_suffix local last first rest
    ok (elim joined [ none ↦ first ∷ rest | some chain ↦ chain ])

  -- `candidates`
  unfoldable pub candidate_chains : List Block → Block → List Block → Result (List (List Block))
  candidate_chains local first rest = elim (get_last? local) [
    | none ↦ ok ((first ∷ rest) ∷ [])
    | some last ↦ do remote ← joined_chain local last first rest; ok (local ∷ remote ∷ [])
  ]

  is_empty : List Block → Bool
  is_empty [] = true
  is_empty _ = false

  same_chain : List Block → List Block → Bool
  same_chain xs ys = py_eq (arr (of_blocks xs)) (arr (of_blocks ys))

  -- `if canonical and canonical != local: replace_chain(...)`; the answer is whether the chain was
  -- replaced
  adopt : BlockChain → Dict ℕ → Result (List Block) → Result Bool × BlockChain
  adopt self genesis_stakes (err e) = (err e, self)
  adopt self genesis_stakes (ok canonical) =
      if is_empty canonical
      then (ok false, self)
      else if same_chain canonical self.chain
      then (ok false, self)
      else replace_chain self canonical (some genesis_stakes)

  unfoldable pub canonical_chain :
      ConsensusProtocol → List Block → Block → List Block → Dict ℕ → Result (List Block)
  canonical_chain consensus local first rest genesis_stakes = do
    candidates ← candidate_chains local first rest
    select_canonical_chain consensus candidates (some genesis_stakes)

  unfoldable pub resolve_fork :
      ConsensusProtocol → BlockChain → Dict ℕ → List Block → Result Bool × BlockChain
  unfolding is_empty same_chain adopt
  resolve_fork consensus self genesis_stakes [] = (ok false, self)
  resolve_fork consensus self genesis_stakes (first ∷ rest) =
      adopt self genesis_stakes (canonical_chain consensus self.chain first rest genesis_stakes)
