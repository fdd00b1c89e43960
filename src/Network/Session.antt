-- ===== src/Network/Session.antt =====
-- useful_blockchain/network/node.py: a session in which the node fetches a peer's chain, batch by
-- batch. `expected_prev_hash` is `null` where the code has None.
pub mod Sound
pub mod Honest
use easyblockchain.Prelude.{
  ℕ, ◌+◌, Bool, true, false, not, ◌&&◌, ◌||◌, String, Option, none, some, List, [], ◌∷◌, ◌++◌,
  length, get_last?, ltb, if◌then◌else◌,
}
use easyblockchain.Prelude.Int.{ℤ, pos, ◌+ℤ◌, eq_ℤ}
use easyblockchain.Python.{Result, ok, err, ◌>>=◌}
use easyblockchain.Python.Value.{Value, null, bool, int, str, arr, obj, Items, to_list, is_none}
use easyblockchain.Python.Fields.{get, get_or, item, subscript}
use easyblockchain.Platform.{Platform}
use easyblockchain.Dynamic.{py_eq, truthy}
use easyblockchain.Types.{Block, NetworkSettings}

pub record ChainSyncSession : Type 0 where
  pub blocks : List Block
  pub done : Bool
  pub expected_height : ℤ
  pub expected_prev_hash : Value
  pub received_bytes : ℕ

-- what `_request_chain` opens a session with, on the local chain
unfoldable pub open_session : List Block → Result ChainSyncSession
open_session chain = elim (get_last? chain) [
  | none ↦ ok (record {
    blocks = [];
    done = false;
    expected_height = pos 1;
    expected_prev_hash = null;
    received_bytes = 0;
  })
  | some last ↦ do
    header ← item "block_header" last
    tran_hash ← subscript header "tran_hash"
    ok (record {
      blocks = [];
      done = false;
      expected_height = pos (length chain + 1);
      expected_prev_hash = tran_hash;
      received_bytes = 0;
    })
]

module _ ⦃env : Platform⦄ where
  -- The two hashes of a header are texts, and the block continues the expected hash; the result
  -- is the block's own hash.
  hash_check : Value → Value → Value → Option String
  hash_check expected (str tran_hash) (str prev_hash) =
      if not (is_none expected) && not (py_eq (str prev_hash) expected)
      then none
      else some tran_hash
  hash_check expected _ _ = none

  header_check : Value → Value → Option String
  unfolding hash_check
  header_check expected (obj header) =
      hash_check expected (get "tran_hash" header) (get "prev_hash" header)
  header_check expected _ = none

  height_check : ℤ → Value → Bool
  height_check index (int n) = eq_ℤ n index
  height_check index _ = false

  -- one round of the loop, on a block that is a dict
  batch_block_check : ℤ → Value → Block → Option String
  unfolding header_check height_check
  batch_block_check index expected block =
      if height_check index (get "block_index" block)
      then header_check expected (get "block_header" block)
      else none

  -- The loop over the batch, from a height and the hash before it. The result is the batch and
  -- the hash of its last block.
  read_batch : ℤ → Value → List Value → Option (List Block × Value)
  unfolding batch_block_check
  read_batch index expected [] = some ([], expected)
  read_batch index expected (obj block ∷ rest) = elim (batch_block_check index expected block) [
    | none ↦ none
    | some hash ↦ elim (read_batch (index +ℤ pos 1) (str hash) rest) [
      | none ↦ none
      | some tail ↦ some (block ∷ tail.0, tail.1)
    ]
  ]
  read_batch index expected (_ ∷ rest) = none

  is_empty : List Value → Bool
  is_empty [] = true
  is_empty _ = false

  -- the batch is not the one that the session waits for, or is too large
  misplaced : NetworkSettings → ChainSyncSession → List Value → Bool → ℤ → ℤ → Bool
  unfolding is_empty
  misplaced settings session blocks has_more from_height next_height =
      not (eq_ℤ from_height session.expected_height)
      || not (eq_ℤ next_height (from_height +ℤ pos (length blocks)))
      || (has_more && is_empty blocks)
      || ltb settings.chain_sync_batch_size (length blocks)
      || ltb settings.chain_sync_max_blocks (length session.blocks + length blocks)

  -- what follows the loop
  store_batch :
      NetworkSettings
      → ChainSyncSession
      → Items
      → ℤ
      → Option (List Block × Value)
      → Bool × ChainSyncSession
  store_batch settings session items next_height none = (false, session)
  store_batch settings session items next_height (some batch) =
      let received = session.received_bytes + env.dumps_size (arr items) in
      if ltb settings.chain_sync_max_bytes received then (false, session) else (
        true,
        record session {
          blocks = session.blocks ++ batch.0;
          expected_height = next_height;
          expected_prev_hash = batch.1;
          received_bytes = received;
        },
      )

  -- the fields have the types that the protocol wants
  accept_values :
      NetworkSettings → ChainSyncSession → Value → Value → Value → Value → Bool × ChainSyncSession
  unfolding read_batch misplaced store_batch
  accept_values settings session (arr items) (bool has_more) (int from_height) (int next_height) =
      if misplaced settings session (to_list items) has_more from_height next_height
      then (false, session)
      else store_batch settings session items next_height
          (read_batch from_height session.expected_prev_hash (to_list items))
  accept_values settings session _ _ _ _ = (false, session)

  unfoldable pub accept_chain_batch :
      NetworkSettings → ChainSyncSession → Block → Bool × ChainSyncSession
  unfolding accept_values
  accept_chain_batch settings session payload =
      accept_values settings session (get "blocks" payload) (get_or "has_more" payload (bool false))
        (get "from_height" payload) (get "next_height" payload)

-- What the node does after a CHAIN_RESPONSE.
pub data Reply : Type 0 where
  nothing : Reply
  close_peer : Reply
  request_from : ℤ → Reply

module _ ⦃env : Platform⦄ where
  -- `_handle_message` on CHAIN_RESPONSE, with a session that the peer has open
  unfoldable pub on_chain_response :
      NetworkSettings → ChainSyncSession → Block → ChainSyncSession × Reply
  on_chain_response settings session payload =
      if session.done
      then (session, nothing)
      else let answer = accept_chain_batch settings session payload in
        if not answer.0
        then (record session { blocks = []; done = true }, close_peer)
        else if truthy (get_or "has_more" payload (bool false))
        then (answer.1, request_from (answer.1).expected_height)
        else (record answer.1 { done = true }, nothing)
