-- ===== src/Signature.antt =====
-- useful_blockchain/signature.py: class SignatureManager. RSA itself, the PEM format and the hex
-- coding of bytes are the platform's; keys are exported in the default format, PEM.
pub mod Laws
use easyblockchain.Prelude.{
  ℕ, ◌/◌, Bool, true, false, ◌&&◌, not, String, Option, none, some, ◌==◌, if◌then◌else◌,
}
use easyblockchain.Python.{
  Exc, type_error, value_error, unsupported_algorithm, Result, ok, err, or_raise, ◌>>=◌,
}
use easyblockchain.Python.Value.{Value, str, obj, is_str}
use easyblockchain.Python.Fields.{find, has, get, put, remove}
use easyblockchain.Platform.{Platform}
use easyblockchain.Types.{Block}

pub record SignatureManager : Type 0 where
  pub private_key : Option ℕ
  pub public_key : Option ℕ

-- `SignatureManager()`
abbrev pub no_keys : SignatureManager
no_keys = record { private_key = none; public_key = none }

-- the block without its `signature` and `public_key`
abbrev pub unsigned : Block → Block
unsigned block = remove "public_key" (remove "signature" block)

-- `except (ValueError, TypeError, UnsupportedAlgorithm): return False`
abbrev pub or_false : Result Bool → Result Bool
or_false (ok b) = ok b
or_false (err type_error) = ok false
or_false (err value_error) = ok false
or_false (err unsupported_algorithm) = ok false
or_false (err e) = err e

module _ ⦃env : Platform⦄ where
  -- A key pair is made from the private key that the platform generates or loads.
  unfoldable pub with_private_key : ℕ → SignatureManager
  with_private_key key = record {
    private_key = some key;
    public_key = some (env.public_key_of key);
  }

  abbrev pub data_string : Value → String
  data_string (obj f) = env.dumps_sorted (obj f)
  data_string (str s) = s
  data_string v = env.to_text v

  unfoldable pub sign_data : SignatureManager → Value → Result ℕ
  sign_data m v = do key ← or_raise m.private_key value_error; ok (env.rsa_sign key (data_string v))

  check_signature : Value → ℕ → ℕ → Bool
  check_signature v signature verify_key =
      if not (env.is_rsa verify_key)
      then false
      else if not (env.byte_count signature == env.key_size verify_key / 8)
      then false
      else env.rsa_verify verify_key signature (data_string v)

  unfoldable pub verify_signature : SignatureManager → Value → ℕ → Option ℕ → Result Bool
  unfolding check_signature
  verify_signature m v signature (some public_key) = ok (check_signature v signature public_key)
  verify_signature m v signature none = do
    own ← or_raise m.public_key value_error
    ok (check_signature v signature own)

  unfoldable pub export_public_key : SignatureManager → Result String
  export_public_key m = do key ← or_raise m.public_key value_error; ok (env.export_public key)

  unfoldable pub import_public_key : String → Result ℕ
  import_public_key key_data = do
    key ← env.load_public_key key_data
    if env.is_rsa key then ok key else err value_error

  unfoldable pub sign_block : SignatureManager → Block → Result Block
  unfolding sign_data export_public_key
  sign_block m block = do
    signature ← sign_data m (obj (unsigned block))
    public_key ← export_public_key m
    ok (
        put "public_key" (str public_key)
          (put "signature" (str (env.to_hex signature)) (unsigned block)))

  -- the body of the `try`
  verify_fields : SignatureManager → Block → Value → Value → Result Bool
  unfolding verify_signature import_public_key
  verify_fields m block (str signature_hex) (str public_key) = do
    signature ← or_raise (env.from_hex signature_hex) value_error
    key ← import_public_key public_key
    verify_signature m (obj (unsigned block)) signature (some key)
  verify_fields m block (str signature_hex) _ = ok false
  verify_fields m block _ _ = ok false

  unfoldable pub verify_block_signature : SignatureManager → Block → Result Bool
  unfolding verify_fields
  verify_block_signature m block =
      if not (has "signature" block && has "public_key" block)
      then ok false
      else or_false (verify_fields m block (get "signature" block) (get "public_key" block))
