-- ===== src/Platform.antt =====
-- What the program takes from Python's standard library and from the `cryptography` package, as a
-- record of functions that every component takes as an instance argument.
use easyblockchain.Prelude.{ℕ, Bool, String, Option}
use easyblockchain.Prelude.Int.{ℤ}
use easyblockchain.Python.{Result}
use easyblockchain.Python.Value.{Value}

-- A key object, the value of an RSA key or of another kind, is an opaque number. So are `bytes`.
pub record Platform : Type 0 where
  -- hashlib.sha256(s.encode()).hexdigest()
  pub sha256 : String → String
  -- int(h, 16) for such a digest
  pub hex_value : String → ℕ
  -- json.dumps(v, sort_keys=True), then `.encode()`, then `str` of the bytes
  pub bytes_repr : String → String
  pub dumps_sorted : Value → String
  -- json.loads(s) (absent: JSONDecodeError)
  pub json_loads : String → Option Value
  -- len(json.dumps(v).encode("utf-8"))
  pub dumps_size : Value → ℕ
  -- str(v) of any value, and int(s) of a text (absent: ValueError)
  pub to_text : Value → String
  pub parse_int : String → Option ℤ
  -- floats, as bit patterns: int(x), x == n, x == y, x + 1, x != 0
  pub float_to_int : ℕ → Result ℤ
  pub float_eq_int : ℕ → ℤ → Bool
  pub float_eq : ℕ → ℕ → Bool
  pub float_add_one : ℕ → ℕ
  pub float_is_zero : ℕ → Bool
  -- m / n for ints, n / x for an int and a float, x < y, ceil
  pub int_div : ℤ → ℤ → Result ℕ
  pub int_div_float : ℤ → ℕ → Result ℕ
  pub float_lt : ℕ → ℕ → Bool
  pub float_one : ℕ
  pub float_ceil : ℕ → Result ℤ
  -- float(n) of an int (OverflowError), float(s) of a text (absent: ValueError), math.isfinite(x),
  -- x > 0
  pub float_of_int : ℤ → Result ℕ
  pub parse_float : String → Option ℕ
  pub float_is_finite : ℕ → Bool
  pub float_is_positive : ℕ → Bool
  -- len(s.encode("utf-8"))
  pub utf8_length : String → ℕ
  -- s.lower(), s.upper(), s.strip()
  pub lower : String → String
  pub upper : String → String
  pub strip : String → String
  -- Path(s).name, str(Path(s).expanduser().resolve(strict=False))
  pub path_name : String → String
  pub resolved_path : String → String
  -- datetime.strptime(s, "%Y-%m-%d %H:%M:%S"), in seconds from year 1 (absent: ValueError)
  pub strptime : String → Option ℕ
  -- RSA keys and signatures
  pub is_rsa : ℕ → Bool
  -- the size of a key in bits
  pub key_size : ℕ → ℕ
  pub load_public_key : String → Result ℕ
  pub export_public : ℕ → String
  pub public_key_of : ℕ → ℕ
  pub rsa_sign : ℕ → String → ℕ
  pub rsa_verify : ℕ → ℕ → String → Bool
  pub byte_count : ℕ → ℕ
  pub to_hex : ℕ → String
  pub from_hex : String → Option ℕ
