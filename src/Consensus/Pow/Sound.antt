-- ===== src/Consensus/Pow/Sound.antt =====
-- What an accepted proof-of-work block guarantees.
use easyblockchain.Prelude.{◌≡◌, true, String, List, arith}
use easyblockchain.Prelude.Int.{ℤ, eq_ℤ_iff}
use easyblockchain.Python.{ok}
use easyblockchain.Python.Value.{Value, str, obj, end, Fields}
use easyblockchain.Python.Fields.{get, get_or, as_dict}
use easyblockchain.Platform.{Platform}
use easyblockchain.Dynamic.{int_of}
use easyblockchain.Dynamic.Laws.{py_eq-str}
use easyblockchain.Types.{Block, PowSettings}
use easyblockchain.Types.Check.{
  pass, lift-eq-pass, require-eq-pass, require_last-eq-pass, >>=-eq-pass,
}
use easyblockchain.Hash.{calc_body_hash, calc_pow_tran_hash, meets_difficulty, as_text}
use easyblockchain.Consensus.Difficulty.{get_difficulty}
use easyblockchain.Consensus.Pow.{validate_block, int_or_reject}

module _ ⦃env : Platform⦄ where
  -- The block is sealed: it declares the difficulty that its predecessors call for, its hash is
  -- that of its contents under its nonce, and the hash meets the difficulty.
  pub record IsSealed (settings : PowSettings) (block : Block) (chain : List Block) : Type 0 where
    pub header : Fields
    pub prev_hash : String
    pub nonce : ℤ
    pub difficulty : ℤ
    pub has_header : as_dict (get_or "block_header" block (obj end)) ≡ ok header
    pub kind : get "consensus_type" header ≡ str "pow"
    pub has_prev_hash : get "prev_hash" header ≡ str prev_hash
    pub has_nonce : int_of (get "nonce" header) ≡ ok nonce
    pub declared : int_of (get "difficulty" header) ≡ ok difficulty
    pub expected : get_difficulty settings chain ≡ ok difficulty
    pub hash :
        get "tran_hash" header
        ≡ str (calc_pow_tran_hash prev_hash (calc_body_hash (get "tran_body" block)) nonce)
    pub work :
        meets_difficulty
          (calc_pow_tran_hash prev_hash (calc_body_hash (get "tran_body" block)) nonce)
          difficulty
        ≡ true

  int_or_reject-eq-pass :
      (v : Value) (reason : String) (n : ℤ) → int_or_reject v reason ≡ pass n → int_of v ≡ ok n
  unfolding int_or_reject
  int_or_reject-eq-pass v reason n h = ground arith

  as_text-eq-ok : (v : Value) (s : String) → as_text v ≡ ok s → v ≡ str s
  as_text-eq-ok v s h = ground arith

  -- A block that proof of work accepts declares the difficulty that its predecessors call for, its
  -- hash is that of its contents under its nonce, and the hash meets the difficulty.
  pub validate_block-IsSealed :
      (settings : PowSettings) (block : Block) (chain : List Block)
      → validate_block settings block chain ≡ pass tt
      → IsSealed settings block chain
  unfolding validate_block
  validate_block-IsSealed settings block chain h =
      let (header, has_header, h₁) = lift-eq-pass _ _ h in
      let (kind, h₂) = require-eq-pass _ _ _ h₁ in
      let (u, present, h₃) = >>=-eq-pass _ _ h₂ in
      let (declared, has_declared, h₄) = >>=-eq-pass _ _ h₃ in
      let (nonce, has_nonce, h₅) = >>=-eq-pass _ _ h₄ in
      let (expected, has_expected, h₆) = lift-eq-pass _ _ h₅ in
      let (same, h₇) = require-eq-pass _ _ _ h₆ in
      let (w, timely, h₈) = >>=-eq-pass _ _ h₇ in
      let (prev_hash, has_prev_hash, h₉) = lift-eq-pass _ _ h₈ in
      let (hash, h₁₀) = require-eq-pass _ _ _ h₉ in
      let agree : declared ≡ expected = (eq_ℤ_iff declared expected).0 same in
      record {
        header = header;
        prev_hash = prev_hash;
        nonce = nonce;
        difficulty = declared;
        has_header = has_header;
        kind = py_eq-str _ _ kind;
        has_prev_hash = as_text-eq-ok _ _ has_prev_hash;
        has_nonce = int_or_reject-eq-pass _ _ _ has_nonce;
        declared = int_or_reject-eq-pass _ _ _ has_declared;
        expected = rw agree has_expected;
        hash = py_eq-str _ _ hash;
        work = require_last-eq-pass _ _ h₁₀;
      }
