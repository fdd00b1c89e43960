-- ===== src/Consensus/Pow/Complete.antt =====
-- Which proof-of-work blocks are accepted.
use easyblockchain.Prelude.{◌≡◌, refl, true, String, Option, some, List, get_last?, arith}
use easyblockchain.Prelude.Int.{ℤ, eq_ℤ_iff}
use easyblockchain.Python.{ok}
use easyblockchain.Python.Value.{Value, str, int, obj, Fields}
use easyblockchain.Python.Fields.{find}
use easyblockchain.Platform.{Platform}
use easyblockchain.Dynamic.Laws.{py_eq-str_refl}
use easyblockchain.Types.{Block, PowSettings}
use easyblockchain.Types.Check.{pass, lift, require, ◌>>=◌}
use easyblockchain.Hash.{calc_body_hash, calc_pow_tran_hash, meets_difficulty}
use easyblockchain.Consensus.Difficulty.{get_difficulty}
use easyblockchain.Consensus.Pow.{validate_block, check_time, int_or_reject}

-- Only the timestamp of the block counts.
pub check_time-congr :
    ⦃env : Platform⦄
    → (block block' : Block) (parent : Option Block)
    → find "block_item" block' ≡ find "block_item" block
    → check_time block' parent ≡ check_time block parent
unfolding check_time
check_time-congr block block' parent e = ground arith

module _ ⦃env : Platform⦄ (settings : PowSettings) (block : Block) (chain : List Block)
    (header : Fields) (prev_hash : String) (body : Value) (nonce difficulty : ℤ) where
  -- A block that carries the difficulty its predecessors call for, a nonce, the hash of its
  -- contents under that nonce, which meets the difficulty, and a timely timestamp, is accepted.
  pub validate_block_accepts :
      find "block_header" block ≡ some (obj header)
      → find "consensus_type" header ≡ some (str "pow")
      → find "nonce" header ≡ some (int nonce)
      → find "difficulty" header ≡ some (int difficulty)
      → find "tran_body" block ≡ some body
      → find "prev_hash" header ≡ some (str prev_hash)
      → find "tran_hash" header
        ≡ some (str (calc_pow_tran_hash prev_hash (calc_body_hash body) nonce))
      → get_difficulty settings chain ≡ ok difficulty
      → check_time block (get_last? chain) ≡ pass tt
      → meets_difficulty (calc_pow_tran_hash prev_hash (calc_body_hash body) nonce) difficulty
        ≡ true
      → validate_block settings block chain ≡ pass tt
  unfolding validate_block int_or_reject ◌>>=◌ lift require
  validate_block_accepts eh ek en ed eb ep et gd timely work = ground (
    arith,
    py_eq-str_refl "pow",
    py_eq-str_refl (calc_pow_tran_hash prev_hash (calc_body_hash body) nonce),
    (eq_ℤ_iff difficulty difficulty).1 refl,
  )
