-- ===== src/Network/Session/Sound.antt =====
-- What the blocks of a session are, whatever a peer has sent.
use easyblockchain.Prelude.{
  ℕ, suc, ◌+◌, ◌≤◌, ◌≡◌, ◌∙◌, refl, ap, Bool, true, false, String, Option, none, some, List, [],
  ◌∷◌, ◌++◌, map, sym, length, length-append, arith, ◌⊎◌, inl, inr, str_eq_iff, Bool-cases, not,
  ◌&&◌, Option-cases, subst, ltb,
}
use easyblockchain.Prelude.Int.{ℤ, pos, ◌+ℤ◌, eq_ℤ_iff}
use easyblockchain.Python.Value.{
  Value, null, bool, int, str, arr, obj, float, Fields, Items, is_none, to_list,
}
use easyblockchain.Python.Fields.{get}
use easyblockchain.Platform.{Platform}
use easyblockchain.Dynamic.{py_eq}
use easyblockchain.Types.{Block, NetworkSettings}
use mathlib.Core.List.{append-nil, append_assoc}
use easyblockchain.Network.Session.{
  ChainSyncSession, batch_block_check, header_check, hash_check, height_check, read_batch,
  accept_values, misplaced, store_batch, accept_chain_batch,
}

-- The block stands at a height, has hash `hash`, and continues the hash `expected`, or any hash
-- where that is null.
pub record IsNext (index : ℤ) (expected : Value) (block : Block) (hash : String) : Type 0 where
  pub header : Fields
  pub prev_hash : String
  pub height : get "block_index" block ≡ int index
  pub has_header : get "block_header" block ≡ obj header
  pub has_hash : get "tran_hash" header ≡ str hash
  pub has_prev_hash : get "prev_hash" header ≡ str prev_hash
  pub continues : (expected ≡ null) ⊎ (expected ≡ str prev_hash)

-- The blocks stand at consecutive heights from `index`, each continues the hash of the one before
-- it, and `last` is the hash of the last.
abbrev pub Contiguous : ℤ → Value → List Block → Value → Type 0
Contiguous index expected [] last = last ≡ expected
Contiguous index expected (block ∷ rest) last =
    (hash : String) × IsNext index expected block hash
    × Contiguous (index +ℤ pos 1) (str hash) rest last

module _ ⦃env : Platform⦄ where
  continues_text :
      (expected : Value) (prev_hash : String)
      → (not (is_none expected) && not (py_eq (str prev_hash) expected)) ≡ false
      → (expected ≡ null) ⊎ (expected ≡ str prev_hash)
  unfolding py_eq
  continues_text null prev_hash h = inl refl
  continues_text (str s) prev_hash h = inr (ground (arith, str_eq_iff prev_hash s))
  continues_text (bool b) prev_hash h = cc
  continues_text (int n) prev_hash h = cc
  continues_text (float x) prev_hash h = cc
  continues_text (arr xs) prev_hash h = cc
  continues_text (obj f) prev_hash h = cc

  height_check-eq-true : (index : ℤ) (v : Value) → height_check index v ≡ true → v ≡ int index
  unfolding height_check
  height_check-eq-true index (int n) h = ap int ((eq_ℤ_iff n index).0 h)
  height_check-eq-true index null h = cc
  height_check-eq-true index (bool b) h = cc
  height_check-eq-true index (float x) h = cc
  height_check-eq-true index (str s) h = cc
  height_check-eq-true index (arr xs) h = cc
  height_check-eq-true index (obj f) h = cc

  hash_check-eq-some :
      (expected tran prev : Value) (hash : String)
      → hash_check expected tran prev ≡ some hash
      → (tran ≡ str hash)
        × (own : String) × (prev ≡ str own)
        × ((expected ≡ null) ⊎ (expected ≡ str own))
  unfolding hash_check
  hash_check-eq-some expected (str tran) (str prev) hash h =
      elim (Bool-cases (not (is_none expected) && not (py_eq (str prev) expected))) [
        | inl broken ↦ absurd (ground (arith, broken))
        | inr good ↦ (ground (arith, good), prev, refl, continues_text expected prev good)
      ]
  hash_check-eq-some expected _ _ hash h = cc

  header_check-IsNext :
      (index : ℤ) (expected : Value) (block : Block) (hash : String) (v : Value)
      → get "block_header" block ≡ v
      → get "block_index" block ≡ int index
      → header_check expected v ≡ some hash
      → IsNext index expected block hash
  unfolding header_check
  header_check-IsNext index expected block hash (obj header) is_header height h =
      let (has_hash, prev_hash, has_prev_hash, continues) =
        hash_check-eq-some expected _ _ hash h in
      record {
        header = header;
        prev_hash = prev_hash;
        height = height;
        has_header = is_header;
        has_hash = has_hash;
        has_prev_hash = has_prev_hash;
        continues = continues;
      }
  header_check-IsNext index expected block hash _ is_header height h = cc

  batch_block_check-IsNext :
      (index : ℤ) (expected : Value) (block : Block) (hash : String)
      → batch_block_check index expected block ≡ some hash
      → IsNext index expected block hash
  unfolding batch_block_check
  batch_block_check-IsNext index expected block hash h =
      elim (Bool-cases (height_check index (get "block_index" block))) [
        | inr wrong ↦ absurd (ground (arith, wrong))
        | inl right ↦
            header_check-IsNext index expected block hash (get "block_header" block) refl
              (height_check-eq-true index _ right) (ground (arith, right))
      ]

  -- what the loop over a batch returns
  abbrev pub Reads : ℤ → Value → List Value → Option (List Block × Value) → Type 0
  Reads index expected values none = Unit
  Reads index expected values (some batch) =
      Contiguous index expected batch.0 batch.1 × (map obj batch.0 ≡ values)

  cons_Reads :
      (index : ℤ) (expected : Value) (block : Block) (rest : List Value) (hash : String)
      (tail : Option (List Block × Value))
      → IsNext index expected block hash
      → Reads (index +ℤ pos 1) (str hash) rest tail
      → Reads index expected
          (obj block ∷ rest)
          (elim tail [ none ↦ none | some batch ↦ some (block ∷ batch.0, batch.1) ])
  cons_Reads index expected block rest hash none next reads = tt
  cons_Reads index expected block rest hash (some batch) next reads =
      ((hash, next, reads.0), ap (◌∷◌ (obj block)) reads.1)

  read_batch-Reads :
      (index : ℤ) (expected : Value) (values : List Value)
      → Reads index expected values (read_batch index expected values)
  unfolding read_batch
  read_batch-Reads index expected [] = (refl, refl)
  read_batch-Reads index expected (obj block ∷ rest) =
      elim (Option-cases (batch_block_check index expected block)) [
        | inl fails ↦ rw (fails, Reads) tt
        | inr (hash, passes) ↦
            rw (passes, Reads)
              (cons_Reads index expected block rest hash _
                (batch_block_check-IsNext index expected block hash passes)
                (read_batch-Reads (index +ℤ pos 1) (str hash) rest))
      ]
  read_batch-Reads index expected (_ ∷ rest) = tt

add_zero : (start : ℤ) → start +ℤ pos 0 ≡ start
add_zero start = ground arith

add_assoc : (start : ℤ) (m n : ℕ) → (start +ℤ pos m) +ℤ pos n ≡ start +ℤ pos (m + n)
add_assoc start m n = ground arith

add_suc : (start : ℤ) (n : ℕ) → start +ℤ pos (suc n) ≡ (start +ℤ pos 1) +ℤ pos n
add_suc start n = ground arith

pub Contiguous-append :
    (index : ℤ) (expected middle last : Value) (xs ys : List Block)
    → Contiguous index expected xs middle
    → Contiguous (index +ℤ pos (length xs)) middle ys last
    → Contiguous index expected (xs ++ ys) last
Contiguous-append index expected middle last [] ys h k =
    subst (λ e. Contiguous index e ys last) h
      (subst (λ i. Contiguous i middle ys last) (add_zero index) k)
Contiguous-append index expected middle last (x ∷ xs) ys (hash, next, h) k = (
  hash,
  next,
  Contiguous-append (index +ℤ pos 1) (str hash) middle last xs ys h
      (subst (λ i. Contiguous i middle ys last) (add_suc index (length xs)) k),
)

length-objects : (blocks : List Block) → length (map obj blocks) ≡ length blocks
length-objects [] = refl
length-objects (b ∷ blocks) = ap suc (length-objects blocks)

objects-append : (xs ys : List Block) → map obj (xs ++ ys) ≡ map obj xs ++ map obj ys
objects-append [] ys = refl
objects-append (x ∷ xs) ys = ap (◌∷◌ (obj x)) (objects-append xs ys)

-- the blocks of batches
abbrev pub joined_values : List Items → List Value
joined_values [] = []
joined_values (items ∷ batches) = to_list items ++ joined_values batches

joined_values-append_one :
    (batches : List Items) (items : Items)
    → joined_values (batches ++ items ∷ []) ≡ joined_values batches ++ to_list items
joined_values-append_one [] items = append-nil (to_list items)
joined_values-append_one (b ∷ batches) items =
    ap (λ l. to_list b ++ l) (joined_values-append_one batches items)
    ∙ sym (append_assoc (to_list b) (joined_values batches) (to_list items))

module _ ⦃env : Platform⦄ where
  -- the bytes of batches, each as it is encoded
  abbrev pub total_size : List Items → ℕ
  total_size [] = 0
  total_size (items ∷ batches) = env.dumps_size (arr items) + total_size batches

  total_size-append_one :
      (batches : List Items) (items : Items)
      → total_size (batches ++ items ∷ []) ≡ total_size batches + env.dumps_size (arr items)
  total_size-append_one [] items = omega arith
  total_size-append_one (b ∷ batches) items =
      let rest = total_size-append_one batches items in omega arith

  -- A session that began at `start`, on the hash `origin`.
  pub record IsSession (settings : NetworkSettings) (start : ℤ) (origin : Value)
      (session : ChainSyncSession) : Type 0 where
    pub contiguous : Contiguous start origin session.blocks session.expected_prev_hash
    pub at_height : session.expected_height ≡ start +ℤ pos (length session.blocks)
    pub few_blocks : length session.blocks ≤ settings.chain_sync_max_blocks
    -- the batches in which the blocks have come
    pub batches : List Items
    pub joined : joined_values batches ≡ map obj session.blocks
    pub counted : session.received_bytes ≡ total_size batches
    pub few_bytes : total_size batches ≤ settings.chain_sync_max_bytes

module _ ⦃env : Platform⦄ (settings : NetworkSettings) (start : ℤ) (origin : Value) where
  placed :
      (session : ChainSyncSession) (blocks : List Value) (has_more : Bool)
      (from_height next_height : ℤ)
      → misplaced settings session blocks has_more from_height next_height ≡ false
      → (from_height ≡ session.expected_height)
        × (next_height ≡ from_height +ℤ pos (length blocks))
        × (length session.blocks + length blocks ≤ settings.chain_sync_max_blocks)
  unfolding misplaced
  placed session blocks has_more from_height next_height h = (
    (eq_ℤ_iff from_height session.expected_height).0 (ground arith),
    (eq_ℤ_iff next_height (from_height +ℤ pos (length blocks))).0 (ground arith),
    ground arith,
  )

  extended :
      (session : ChainSyncSession) (items : Items) (has_more : Bool) (from_height next_height : ℤ)
      (batch : List Block × Value)
      → misplaced settings session (to_list items) has_more from_height next_height ≡ false
      → IsSession settings start origin session
      → Reads from_height session.expected_prev_hash (to_list items) (some batch)
      → session.received_bytes + env.dumps_size (arr items) ≤ settings.chain_sync_max_bytes
      → IsSession settings start origin (record session {
        blocks = session.blocks ++ batch.0;
        expected_height = next_height;
        expected_prev_hash = batch.1;
        received_bytes = session.received_bytes + env.dumps_size (arr items);
      })
  extended session items has_more from_height next_height batch good h reads small =
      let (here, next, few) =
        placed session (to_list items) has_more from_height next_height good in
      let size = total_size-append_one h.batches items in
      let counted = h.counted in
      let same : length batch.0 ≡ length (to_list items) =
        sym (length-objects batch.0) ∙ ap length reads.1 in
      let at : from_height ≡ start +ℤ pos (length session.blocks) = here ∙ h.at_height in
      record {
        contiguous =
            Contiguous-append start origin session.expected_prev_hash batch.1 session.blocks batch.0
              h.contiguous
              (subst (λ i. Contiguous i session.expected_prev_hash batch.0 batch.1) at reads.0);
        at_height =
            next
            ∙ ap (λ i. i +ℤ pos (length (to_list items))) at
            ∙ add_assoc start (length session.blocks) (length (to_list items))
            ∙ ap (λ n. start +ℤ pos n) (omega (arith, length-append session.blocks batch.0, same));
        few_blocks = omega (arith, length-append session.blocks batch.0, same, few);
        batches = h.batches ++ items ∷ [];
        joined =
            joined_values-append_one h.batches items
            ∙ ap (λ l. l ++ to_list items) h.joined
            ∙ ap (λ l. map obj session.blocks ++ l) (sym reads.1)
            ∙ sym (objects-append session.blocks batch.0);
        counted = omega arith;
        few_bytes = omega arith;
      }

  store_batch-IsSession :
      (session : ChainSyncSession) (items : Items) (has_more : Bool) (from_height next_height : ℤ)
      (batch : Option (List Block × Value))
      → misplaced settings session (to_list items) has_more from_height next_height ≡ false
      → IsSession settings start origin session
      → Reads from_height session.expected_prev_hash (to_list items) batch
      → IsSession settings start origin (store_batch settings session items next_height batch).1
  unfolding store_batch
  store_batch-IsSession session items has_more from_height next_height none good h reads = h
  store_batch-IsSession session items has_more from_height next_height (some batch) good h reads =
      elim (Bool-cases
        (ltb settings.chain_sync_max_bytes (session.received_bytes + env.dumps_size (arr items)))) [
          | inl large ↦ rw large h
          | inr small ↦ rw small (
              extended session items has_more from_height next_height batch good h reads
                (ground (arith, small)))
        ]

  accept_values-IsSession :
      (session : ChainSyncSession) (blocks has_more from_height next_height : Value)
      → IsSession settings start origin session
      → IsSession settings start origin
          (accept_values settings session blocks has_more from_height next_height).1
  unfolding accept_values
  accept_values-IsSession session (arr items) (bool has_more) (int from_height) (int next_height)
        h =
      elim (Bool-cases
        (misplaced settings session (to_list items) has_more from_height next_height)) [
          | inl bad ↦ rw bad h
          | inr good ↦ rw good (
              store_batch-IsSession session items has_more from_height next_height _ good h
                (read_batch-Reads from_height session.expected_prev_hash (to_list items)))
        ]
  accept_values-IsSession session _ _ _ _ h = h

  -- Whatever payload is received, a session stays one in which the blocks stand at consecutive
  -- heights from the session's first, each continues the hash of the one before it, the height and
  -- the hash that the session expects next are those after its blocks, there are at most
  -- `chain_sync_max_blocks` blocks, and they have come in batches whose encodings add up to at most
  -- `chain_sync_max_bytes` bytes.
  pub accept_chain_batch-IsSession :
      (session : ChainSyncSession) (payload : Block)
      → IsSession settings start origin session
      → IsSession settings start origin (accept_chain_batch settings session payload).1
  unfolding accept_chain_batch
  accept_chain_batch-IsSession session payload h = accept_values-IsSession session _ _ _ _ h
