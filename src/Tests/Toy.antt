-- ===== src/Tests/Toy.antt =====
-- A platform to run the model on: the "hash" of a text is the text behind a zero, the "signature"
-- of a text is its length.
use easyblockchain.Prelude.{
  refl, ℕ, zero, suc, ◌≡◌, ap, arith, ◌+◌, true, String, none, some, ◌==◌, ltb,
}
use easyblockchain.Prelude.Int.{ℤ, pos, negsuc, eq_ℤ}
use easyblockchain.Python.{ok}
use easyblockchain.Python.Value.{Value, str, int, obj, field, end}
use easyblockchain.Platform.{Platform}
use easyblockchain.Hash.{text_length}
use easyblockchain.Hash.{meets_difficulty, calc_pow_tran_hash, calc_body_hash}
use easyblockchain.Dynamic.{py_eq}
use easyblockchain.Python.{◌>>=◌ as bind}
use easyblockchain.Python.Fields.{find, put}
use easyblockchain.Types.Check.{◌>>=◌, lift, require}
use easyblockchain.Consensus.Link.{validate_chain_link}
use easyblockchain.Consensus.Difficulty.{get_difficulty}
use easyblockchain.Consensus.Pow
use easyblockchain.Consensus.Mining.{mine_block, search_nonce, seal_header}
use easyblockchain.Consensus.Protocol.{validate_block, prepare_block, on_block_added}
use easyblockchain.BlockCheck.{addition_check}
use easyblockchain.BlockChain.{add_new_block, add_block}
use Prim.Native.String.{◌++◌}
use easyblockchain.Signature.Laws.{CryptoLaws}

-- A number as a text of so many zeros.
abbrev pub zeros : ℕ → String
zeros zero = String.[]
zeros (suc n) = String.◌∷◌ "0" (zeros n)

abbrev toy_text : Value → String
toy_text (str s) = s
toy_text (int (pos n)) = "n"
toy_text _ = "v"

abbrev toy_float : ℤ → ℕ
toy_float (pos n) = n
toy_float (negsuc n) = 0

instance abbrev pub toy : Platform
toy = record {
  sha256 = λ s. "0" ++ s;
  hex_value = text_length;
  bytes_repr = λ s. s;
  dumps_sorted = toy_text;
  json_loads = λ s. some (obj (field "type" (str "PING") end));
  utf8_length = text_length;
  dumps_size = λ v. 7;
  to_text = toy_text;
  parse_int = λ s. none;
  float_to_int = λ x. ok (pos x);
  float_eq_int = λ x n. eq_ℤ (pos x) n;
  float_eq = λ x y. x == y;
  float_add_one = λ x. x + 1;
  float_is_zero = λ x. x == 0;
  int_div = λ m n. ok 1;
  int_div_float = λ m x. ok 1;
  float_lt = ltb;
  float_one = 1;
  float_ceil = λ x. ok (pos x);
  float_of_int = λ n. ok (toy_float n);
  parse_float = λ s. none;
  float_is_finite = λ x. true;
  float_is_positive = ltb 0;
  lower = λ s. s;
  upper = λ s. s;
  strip = λ s. s;
  path_name = λ s. s;
  resolved_path = λ s. s;
  strptime = λ s. some (text_length s);
  is_rsa = λ k. true;
  key_size = λ k. 64;
  load_public_key = λ s. ok (text_length s);
  export_public = zeros;
  public_key_of = λ k. 1;
  rsa_sign = λ k s. text_length s;
  rsa_verify = λ k sig s. sig == text_length s;
  byte_count = λ b. 8;
  to_hex = zeros;
  from_hex = λ s. some (text_length s);
}

-- To unfold this is to unfold what a run of the proof-of-work code passes through.
unfoldable pub pow_code : ℕ
unfolding add_new_block add_block addition_check on_block_added prepare_block mine_block
    search_nonce seal_header get_difficulty meets_difficulty calc_pow_tran_hash calc_body_hash
    validate_chain_link validate_block Pow.validate_block Pow.int_or_reject py_eq find put bind
    ◌>>=◌ lift require
pow_code = 0

text_length-zeros : (n : ℕ) → text_length (zeros n) ≡ n
unfolding text_length
text_length-zeros zero = refl
text_length-zeros (suc n) = ap suc (text_length-zeros n)

same_number : (n : ℕ) → (n == n) ≡ true
same_number n = ground arith

pub toy-CryptoLaws : CryptoLaws toy
toy-CryptoLaws = record {
  from_hex-to_hex = λ b. ap some (text_length-zeros b);
  load-export = λ k. ap ok (text_length-zeros k);
  public_is_rsa = λ k. refl;
  signature_bytes = λ k s. refl;
  verify-sign = λ k s. same_number (text_length s);
}
