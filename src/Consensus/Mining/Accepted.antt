-- ===== src/Consensus/Mining/Accepted.antt =====
-- What a node mines, every node accepts.
use easyblockchain.Prelude.{ℕ, ◌≡◌, ◌∙◌, ap, String, Option, some, List, get_last?, arith}
use easyblockchain.Prelude.Int.{ℤ, pos, pos_part}
use easyblockchain.Python.{ok, >>=-eq-ok, or_raise-eq-ok, runtime_error, key_error}
use easyblockchain.Python.Value.{Value, str, int, obj, Fields}
use easyblockchain.Python.Fields.{find, put, find-put}
use easyblockchain.Platform.{Platform}
use easyblockchain.Types.{Block, PowSettings}
use easyblockchain.Types.Check.{pass}
use easyblockchain.Hash.{calc_body_hash, calc_pow_tran_hash, as_text}
use easyblockchain.Consensus.Difficulty.{get_difficulty}
use easyblockchain.Consensus.Propose.{as_mapping}
use easyblockchain.Consensus.Pow.{validate_block, check_time}
use easyblockchain.Consensus.Pow.Complete.{validate_block_accepts, check_time-congr}
use easyblockchain.Consensus.Mining.{search_nonce, seal_header, mine_block}
use easyblockchain.Consensus.Mining.Search.{search_nonce-Finds}

module _ ⦃env : Platform⦄ where
  -- what a successful run of `mine_block` has computed
  record Mined (settings : PowSettings) (block : Block) (chain : List Block) (mined : Block)
      : Type 0 where
    header : Fields
    prev_hash : String
    body : Value
    difficulty : ℤ
    nonce : ℕ
    has_header : find "block_header" block ≡ some (obj header)
    has_prev_hash : find "prev_hash" header ≡ some (str prev_hash)
    has_body : find "tran_body" block ≡ some body
    has_difficulty : get_difficulty settings chain ≡ ok difficulty
    found :
        search_nonce prev_hash
          (calc_body_hash body)
          difficulty
          (pos_part settings.max_mining_iterations)
          0
        ≡ some nonce
    result :
        mined
        ≡ put "block_header"
            (obj (seal_header header prev_hash (calc_body_hash body) difficulty nonce))
            block

  as_mapping-eq-ok : (v : Value) (f : Fields) → as_mapping v ≡ ok f → v ≡ obj f
  as_mapping-eq-ok v f h = ground arith

  as_text-eq-ok : (v : Value) (s : String) → as_text v ≡ ok s → v ≡ str s
  as_text-eq-ok v s h = ground arith

  mine_block-Mined :
      (settings : PowSettings) (block : Block) (chain : List Block) (mined : Block)
      → mine_block settings block chain ≡ ok mined
      → Mined settings block chain mined
  unfolding mine_block
  mine_block-Mined settings block chain mined h =
      let (header_value, has_header, h₁) = >>=-eq-ok _ _ h in
      let (header, is_dict, h₂) = >>=-eq-ok _ _ h₁ in
      let (prev_hash_value, has_prev_hash, h₃) = >>=-eq-ok _ _ h₂ in
      let (body, has_body, h₄) = >>=-eq-ok _ _ h₃ in
      let (difficulty, has_difficulty, h₅) = >>=-eq-ok _ _ h₄ in
      let (prev_hash, is_text, h₆) = >>=-eq-ok _ _ h₅ in
      let (nonce, found, result) = >>=-eq-ok _ _ h₆ in
      record {
        header = header;
        prev_hash = prev_hash;
        body = body;
        difficulty = difficulty;
        nonce = nonce;
        has_header =
            or_raise-eq-ok (find "block_header" block) key_error has_header
            ∙ ap some (as_mapping-eq-ok header_value header is_dict);
        has_prev_hash =
            or_raise-eq-ok (find "prev_hash" header) key_error has_prev_hash
            ∙ ap some (as_text-eq-ok prev_hash_value prev_hash is_text);
        has_body = or_raise-eq-ok (find "tran_body" block) key_error has_body;
        has_difficulty = has_difficulty;
        found = or_raise-eq-ok _ runtime_error found;
        result = ground arith;
      }

  module _ (header : Fields) (prev_hash body_hash : String) (difficulty : ℤ) (nonce : ℕ) where
    abbrev sealed : Fields
    sealed = seal_header header prev_hash body_hash difficulty nonce

    find-sealed :
        (find "consensus_type" sealed ≡ some (str "pow"))
        × (find "nonce" sealed ≡ some (int (pos nonce)))
        × (find "difficulty" sealed ≡ some (int difficulty))
        × (find "prev_hash" sealed ≡ find "prev_hash" header)
        × (find "tran_hash" sealed
            ≡ some (str (calc_pow_tran_hash prev_hash body_hash (pos nonce))))
    unfolding seal_header
    find-sealed = (simp find-put, simp find-put, simp find-put, simp find-put, simp find-put)

  check_time-put :
      (block : Block) (v : Value) (parent : Option Block)
      → check_time block parent ≡ pass tt
      → check_time (put "block_header" v block) parent ≡ pass tt
  check_time-put block v parent h =
      check_time-congr block (put "block_header" v block) parent (simp find-put) ∙ h

  -- A block that `mine_block` returns is accepted by `validate_block` on the same chain, where its
  -- timestamp is well formed and not before that of the last block.
  pub mine_block-validate_block :
      (settings : PowSettings) (block : Block) (chain : List Block) (mined : Block)
      → mine_block settings block chain ≡ ok mined
      → check_time block (get_last? chain) ≡ pass tt
      → validate_block settings mined chain ≡ pass tt
  mine_block-validate_block settings block chain mined h timely =
      let m = mine_block-Mined settings block chain mined h in
      let found =
        search_nonce-Finds m.prev_hash (calc_body_hash m.body) m.difficulty
          (pos_part settings.max_mining_iterations) 0 in
      let (kind, nonce, difficulty, prev_hash, hash) =
        find-sealed m.header m.prev_hash (calc_body_hash m.body) m.difficulty m.nonce in
      rw m.result (
        validate_block_accepts settings
          (put "block_header"
            (obj (seal_header m.header m.prev_hash (calc_body_hash m.body) m.difficulty m.nonce))
            block)
          chain (seal_header m.header m.prev_hash (calc_body_hash m.body) m.difficulty m.nonce)
          m.prev_hash m.body (pos m.nonce) m.difficulty (simp find-put) kind nonce difficulty
          (simp (find-put, m.has_body)) (prev_hash ∙ m.has_prev_hash) hash m.has_difficulty
          (check_time-put block _ (get_last? chain) timely) (rw m.found at found).2)
