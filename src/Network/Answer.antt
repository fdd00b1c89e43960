-- ===== src/Network/Answer.antt =====
-- useful_blockchain/network/node.py: the answer to GET_CHAIN.
use easyblockchain.Prelude.{◌&&◌, String, some, List, [], ◌∷◌, length}
use easyblockchain.Prelude.Int.{ℤ, pos, ◌+ℤ◌, eq_ℤ, leb_ℤ}
use easyblockchain.Python.{Result, ok, ◌>>=◌}
use easyblockchain.Python.Value.{bool, int, str, arr, obj, Items, nil, cons, end, field}
use easyblockchain.Python.Fields.{get}
use easyblockchain.Platform.{Platform}
use easyblockchain.Types.{Block, NetworkSettings}
use easyblockchain.BlockChain.{BlockChain, get_blocks_from}
use easyblockchain.Network.Requests.{resolve_get_chain_from_height, resolve_get_chain_batch_size}

abbrev pub of_blocks : List Block → Items
of_blocks [] = nil
of_blocks (block ∷ blocks) = cons (obj block) (of_blocks blocks)

module _ ⦃env : Platform⦄ where
  -- the payload of the CHAIN_RESPONSE, from a height and a batch size
  unfoldable pub chain_response : BlockChain → String → ℤ → ℤ → Block
  chain_response self node_id from_height batch_size =
      let blocks = get_blocks_from self from_height (some batch_size) in
      let next_height = from_height +ℤ pos (length blocks) in
      let has_more =
        eq_ℤ (pos (length blocks)) batch_size && leb_ℤ next_height (pos (length self.chain)) in
      field "blocks" (arr (of_blocks blocks)) (
        field "from_height" (int from_height) (
          field "next_height" (int next_height)
            (field "has_more" (bool has_more) (field "node_id" (str node_id) end))))

  unfoldable pub answer_get_chain : NetworkSettings → BlockChain → String → Block → Result Block
  answer_get_chain settings self node_id payload = do
    from_height ← resolve_get_chain_from_height (get "from_height" payload)
    batch_size ←
        resolve_get_chain_batch_size (get "limit" payload) (pos settings.chain_sync_batch_size)
    ok (chain_response self node_id from_height batch_size)

  -- the payload of the GET_CHAIN that `_send_chain_request` sends
  unfoldable pub chain_request : NetworkSettings → String → ℤ → Block
  chain_request settings node_id from_height = field "from_height" (int from_height) (
      field "limit" (int (pos settings.chain_sync_batch_size))
        (field "requester" (str node_id) end))
