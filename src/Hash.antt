-- ===== src/Hash.antt =====
-- useful_blockchain/hash_utils.py: the hashes that link and seal blocks.
pub mod Difficulty
use easyblockchain.Prelude.{ℕ, suc, ◌-◌, Bool, false, String, List, [], ◌∷◌, ◌==◌, if◌then◌else◌}
use easyblockchain.Prelude.Int.{ℤ, pos, leb_ℤ}
use easyblockchain.Python.{Result, ok, err, type_error, ◌>>=◌}
use easyblockchain.Python.Value.{Value, str, int, obj}
use easyblockchain.Python.Fields.{get_or, as_dict}
use easyblockchain.Python.Value.{end}
use easyblockchain.Platform.{Platform}
use easyblockchain.Types.{Block}
use Prim.Native.Char.{code}
use Prim.Native.String.{◌++◌}
use Prim.Native.String

-- An operand of `+` on texts.
abbrev pub as_text : Value → Result String
as_text (str s) = ok s
as_text _ = err type_error

module _ ⦃env : Platform⦄ where
  unfoldable pub calc_body_hash : Value → String
  calc_body_hash transaction = env.sha256 (env.bytes_repr (env.dumps_sorted transaction))

  unfoldable pub calc_legacy_tran_hash : String → String → String
  calc_legacy_tran_hash prev_hash body_hash = env.sha256 (prev_hash ++ body_hash)

  unfoldable pub calc_pow_tran_hash : String → String → ℤ → String
  calc_pow_tran_hash prev_hash body_hash nonce =
      env.sha256 (prev_hash ++ body_hash ++ env.to_text (int nonce))

  unfoldable pub calc_pos_tran_hash : String → String → String → ℤ → String
  calc_pos_tran_hash prev_hash body_hash validator_id slot =
      env.sha256 (prev_hash ++ body_hash ++ validator_id ++ env.to_text (int slot))

-- The number of characters of a text.
unfoldable pub text_length : String → ℕ
text_length String.[] = 0
text_length (String.◌∷◌ c s) = suc (text_length s)

-- `s.lstrip("0")`
unfoldable pub lstrip_zeros : String → String
lstrip_zeros String.[] = String.[]
lstrip_zeros (String.◌∷◌ c s) =
    let rest = lstrip_zeros s in if code c == b'0' then rest else String.◌∷◌ c s

unfoldable pub meets_difficulty : String → ℤ → Bool
unfolding text_length lstrip_zeros
meets_difficulty hash_hex difficulty =
    if leb_ℤ difficulty (pos 0)
    then false
    else leb_ℤ difficulty (pos (text_length hash_hex - text_length (lstrip_zeros hash_hex)))

unfoldable pub genesis_hash : ⦃env : Platform⦄ → List Block → String → Result String
genesis_hash ⦃env⦄ [] genesis_prev_hash = ok genesis_prev_hash
genesis_hash ⦃env⦄ (first ∷ rest) genesis_prev_hash = do
  first_header ← as_dict (get_or "block_header" first (obj end))
  ok (env.to_text (get_or "prev_hash" first_header (str genesis_prev_hash)))
