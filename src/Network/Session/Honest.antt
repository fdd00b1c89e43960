-- ===== src/Network/Session/Honest.antt =====
-- The answer of an honest peer is accepted.
use easyblockchain.Prelude.{
  ℕ, zero, suc, ◌+◌, ◌-◌, ◌≤◌, ◌≡◌, ◌∙◌, refl, sym, ap, Bool, true, false, String, some, List, [],
  ◌∷◌, ◌++◌, length, take, drop, min, length-take, arith, ◌⊎◌, inl, inr, str_eq_refl, ◌&&◌,
}
use easyblockchain.Prelude.Int.{ℤ, pos, ◌+ℤ◌, eq_ℤ_iff, eq_ℤ, leb_ℤ}
use easyblockchain.Python.{ok, ◌>>=◌}
use easyblockchain.Python.Value.{Value, null, bool, int, str, arr, Items, to_list}
use easyblockchain.Python.Fields.{find}
use easyblockchain.Platform.{Platform}
use easyblockchain.Dynamic.{py_eq}
use easyblockchain.Types.{Block, NetworkSettings}
use easyblockchain.BlockChain.{BlockChain, get_blocks_from}
use easyblockchain.Network.Requests.{resolve_get_chain_from_height, resolve_get_chain_batch_size}
use easyblockchain.Network.Answer.{of_blocks, answer_get_chain, chain_request, chain_response}
use easyblockchain.Network.Session.{
  ChainSyncSession, batch_block_check, header_check, hash_check, height_check, read_batch,
  accept_values, accept_chain_batch, misplaced, store_batch, is_empty,
}
use easyblockchain.Network.Session.Sound.{IsNext, Contiguous}

Contiguous-take :
    (n : ℕ) (index : ℤ) (expected : Value) (blocks : List Block) (last : Value)
    → Contiguous index expected blocks last
    → (middle : Value) × Contiguous index expected (take n blocks) middle
Contiguous-take zero index expected blocks last h = (expected, refl)
Contiguous-take (suc n) index expected [] last h = (last, h)
Contiguous-take (suc n) index expected (b ∷ blocks) last (hash, next, h) =
    let (middle, k) = Contiguous-take n (index +ℤ pos 1) (str hash) blocks last h in
    (middle, (hash, next, k))

of_blocks-length : (blocks : List Block) → length (to_list (of_blocks blocks)) ≡ length blocks
of_blocks-length [] = refl
of_blocks-length (b ∷ blocks) = ap suc (of_blocks-length blocks)

module _ ⦃env : Platform⦄ where
  hash_check-continues :
      (expected : Value) (tran prev : String)
      → (expected ≡ null) ⊎ (expected ≡ str prev)
      → hash_check expected (str tran) (str prev) ≡ some tran
  unfolding hash_check py_eq
  hash_check-continues expected tran prev (inl e) = rw e refl
  hash_check-continues expected tran prev (inr e) = rw (e, str_eq_refl prev) refl

  IsNext-batch_block_check :
      (index : ℤ) (expected : Value) (block : Block) (hash : String)
      → IsNext index expected block hash
      → batch_block_check index expected block ≡ some hash
  unfolding batch_block_check header_check height_check
  IsNext-batch_block_check index expected block hash n =
      rw (n.height, n.has_header, n.has_hash, n.has_prev_hash, (eq_ℤ_iff index index).1 refl)
        (hash_check-continues expected hash n.prev_hash n.continues)

  Contiguous-read_batch :
      (index : ℤ) (expected : Value) (blocks : List Block) (last : Value)
      → Contiguous index expected blocks last
      → read_batch index expected (to_list (of_blocks blocks)) ≡ some (blocks, last)
  unfolding read_batch
  Contiguous-read_batch index expected [] last h = ap (λ e. some ([], e)) (sym h)
  Contiguous-read_batch index expected (b ∷ blocks) last (hash, next, h) =
      rw
        (
          read_batch,
          IsNext-batch_block_check index expected b hash next,
          Contiguous-read_batch (index +ℤ pos 1) (str hash) blocks last h,
        )
        refl

-- The blocks that one node asks for at most, or the other gives at most.
abbrev pub common_size : NetworkSettings → NetworkSettings → ℕ
common_size settings server_settings =
    min settings.chain_sync_batch_size server_settings.chain_sync_batch_size

-- What a peer with that chain answers to a request of height `k + 1`, by the settings of the two.
abbrev pub honest_blocks : NetworkSettings → NetworkSettings → BlockChain → ℕ → List Block
honest_blocks settings server_settings server k =
    take (common_size settings server_settings) (drop k server.chain)

module _ ⦃env : Platform⦄ where
  from_height-own : (k : ℕ) → resolve_get_chain_from_height (int (pos (suc k))) ≡ ok (pos (suc k))
  unfolding resolve_get_chain_from_height
  from_height-own k = ground arith

  batch_size-min :
      (m n : ℕ)
      → 1 ≤ m
      → 1 ≤ n
      → resolve_get_chain_batch_size (int (pos m)) (pos n) ≡ ok (pos (min m n))
  unfolding resolve_get_chain_batch_size
  batch_size-min m n h k = ground arith

  answer_get_chain-honest :
      (settings server_settings : NetworkSettings) (server : BlockChain)
      (client_id node_id : String) (k : ℕ)
      → 1 ≤ settings.chain_sync_batch_size
      → 1 ≤ server_settings.chain_sync_batch_size
      → answer_get_chain server_settings server node_id
          (chain_request settings client_id (pos (suc k)))
        ≡ ok (
            chain_response server node_id
              (pos (suc k))
              (pos (common_size settings server_settings)))
  unfolding answer_get_chain chain_request find ◌>>=◌
  answer_get_chain-honest settings server_settings server client_id node_id k h h' =
      rw
        (
          from_height-own k,
          batch_size-min settings.chain_sync_batch_size server_settings.chain_sync_batch_size h h',
        )
        refl

  module _ (settings server_settings : NetworkSettings) (server : BlockChain)
      (session : ChainSyncSession) (k : ℕ) where
    abbrev size : ℕ
    size = common_size settings server_settings

    abbrev blocks : List Block
    blocks = honest_blocks settings server_settings server k

    accept_values-pass :
        (items : Items) (more : Bool) (from_height next_height : ℤ) (batch : List Block × Value)
        → misplaced settings session (to_list items) more from_height next_height ≡ false
        → read_batch from_height session.expected_prev_hash (to_list items) ≡ some batch
        → session.received_bytes + env.dumps_size (arr items) ≤ settings.chain_sync_max_bytes
        → accept_values settings session (arr items) (bool more) (int from_height) (int next_height)
          ≡ (
            true,
            record session {
              blocks = session.blocks ++ batch.0;
              expected_height = next_height;
              expected_prev_hash = batch.1;
              received_bytes = session.received_bytes + env.dumps_size (arr items);
            },
          )
    unfolding accept_values store_batch
    accept_values-pass items more from_height next_height batch m r small =
        rw (m, r) (ground (arith, small))

    is_empty-eq-false : (values : List Value) → 1 ≤ length values → is_empty values ≡ false
    unfolding is_empty
    is_empty-eq-false [] h = absurd (omega arith)
    is_empty-eq-false (v ∷ values) h = refl

    misplaced-eq-false :
        (values : List Value) (more : Bool) (from_height next_height : ℤ)
        → from_height ≡ session.expected_height
        → next_height ≡ from_height +ℤ pos (length values)
        → length session.blocks + length values ≤ settings.chain_sync_max_blocks
        → length values ≤ settings.chain_sync_batch_size
        → (more ≡ true → 1 ≤ length values)
        → misplaced settings session values more from_height next_height ≡ false
    unfolding misplaced
    misplaced-eq-false values true from_height next_height here next few fits full =
        rw
          (
            (eq_ℤ_iff from_height session.expected_height).1 here,
            (eq_ℤ_iff next_height (from_height +ℤ pos (length values))).1 next,
            is_empty-eq-false values (full refl),
          )
          (ground arith)
    misplaced-eq-false values false from_height next_height here next few fits full =
        rw
          (
            (eq_ℤ_iff from_height session.expected_height).1 here,
            (eq_ℤ_iff next_height (from_height +ℤ pos (length values))).1 next,
          )
          (ground arith)

    get_blocks_from-honest : get_blocks_from server (pos (suc k)) (some (pos size)) ≡ blocks
    unfolding get_blocks_from
    get_blocks_from-honest =
        let e : suc k - 1 ≡ k = omega arith in ap (λ n. take size (drop n server.chain)) e

    -- the response as a session reads it
    abbrev pub has_more : Bool
    has_more =
        eq_ℤ (pos (length blocks)) (pos size)
        && leb_ℤ (pos (suc k) +ℤ pos (length blocks)) (pos (length server.chain))

    accept_chain_response-values :
        (node_id : String)
        → accept_chain_batch settings session
            (chain_response server node_id (pos (suc k)) (pos size))
          ≡ accept_values settings session
              (arr (of_blocks blocks))
              (bool has_more)
              (int (pos (suc k)))
              (int (pos (suc k) +ℤ pos (length blocks)))
    unfolding accept_chain_batch chain_response find
    accept_chain_response-values node_id = rw get_blocks_from-honest refl

    accept_chain_response :
        (node_id : String) (middle : Value)
        → session.expected_height ≡ pos (suc k)
        → 1 ≤ settings.chain_sync_batch_size
        → 1 ≤ server_settings.chain_sync_batch_size
        → length session.blocks + length blocks ≤ settings.chain_sync_max_blocks
        → session.received_bytes + env.dumps_size (arr (of_blocks blocks))
          ≤ settings.chain_sync_max_bytes
        → Contiguous (pos (suc k)) session.expected_prev_hash blocks middle
        → accept_chain_batch settings session
            (chain_response server node_id (pos (suc k)) (pos size))
          ≡ (
            true,
            record session {
              blocks = session.blocks ++ blocks;
              expected_height = pos (suc k) +ℤ pos (length blocks);
              expected_prev_hash = middle;
              received_bytes = session.received_bytes + env.dumps_size (arr (of_blocks blocks));
            },
          )
    accept_chain_response node_id middle here some_batch server_batch few small contiguous =
        accept_chain_response-values node_id
        ∙ accept_values-pass (of_blocks blocks) has_more (pos (suc k))
            (pos (suc k) +ℤ pos (length blocks)) (blocks, middle)
            (misplaced-eq-false (to_list (of_blocks blocks)) has_more (pos (suc k))
              (pos (suc k) +ℤ pos (length blocks)) (sym here)
              (ap (λ n. pos (suc k) +ℤ pos n) (sym (of_blocks-length blocks)))
              (rw (of_blocks-length blocks) few)
              (rw (of_blocks-length blocks) (omega (arith, length-take size (drop k server.chain))))
              (λ h. rw (of_blocks-length blocks) (ground arith)))
            (Contiguous-read_batch (pos (suc k)) session.expected_prev_hash blocks middle
              contiguous)
            small

    -- Two nodes, each with its own settings and with batches of at least one block: where the chain
    -- of one continues the session of the other, it answers the other's request with a batch that
    -- the session accepts, after which the session holds the next blocks of that chain, as many as
    -- both batch sizes allow. The limits must leave room for that batch.
    pub answer_get_chain-accepted :
        (client_id node_id : String) (last : Value)
        → session.expected_height ≡ pos (suc k)
        → 1 ≤ settings.chain_sync_batch_size
        → 1 ≤ server_settings.chain_sync_batch_size
        → length session.blocks + length blocks ≤ settings.chain_sync_max_blocks
        → session.received_bytes + env.dumps_size (arr (of_blocks blocks))
          ≤ settings.chain_sync_max_bytes
        → Contiguous (pos (suc k)) session.expected_prev_hash (drop k server.chain) last
        → (payload : Block) × (answer_get_chain server_settings server node_id
              (chain_request settings client_id (pos (suc k)))
            ≡ ok payload)
          × ((accept_chain_batch settings session payload).0 ≡ true)
          × (((accept_chain_batch settings session payload).1).blocks ≡ session.blocks ++ blocks)
    answer_get_chain-accepted client_id node_id last here some_batch server_batch few small
          contiguous =
        let (middle, prefix) =
          Contiguous-take size (pos (suc k)) session.expected_prev_hash (drop k server.chain) last
            contiguous in
        let accepted =
          accept_chain_response node_id middle here some_batch server_batch few small prefix in
        (
          chain_response server node_id (pos (suc k)) (pos size),
          answer_get_chain-honest settings server_settings server client_id node_id k some_batch
              server_batch,
          ap (λ r. r.0) accepted,
          ap (λ r. (r.1).blocks) accepted,
        )
