-- ===== src/Settings/Values.antt =====
-- useful_blockchain/settings.py: the readers of single values, and the merging of mappings.
use easyblockchain.Prelude.{
  ◌≡◌, arith, inl, inr, Bool-cases, ℕ, Bool, true, ◌||◌, ◌&&◌, String, Option, none, some, str_eq,
  if◌then◌else◌,
}
use easyblockchain.Prelude.Int.{ℤ, pos, ltb_ℤ, ◌≤ℤ◌}
use easyblockchain.Python.{
  Result, ok, err, value_error, type_error, or_raise, catch_conversion, catch_conversion-eq-ok,
  ◌>>=◌,
}
use easyblockchain.Python.Value.{
  Value, null, bool, int, float, str, obj, Fields, end, field, int_of_bool,
}
use easyblockchain.Python.Fields.{find, get, put}
use easyblockchain.Platform.{Platform}
use easyblockchain.Dynamic.{int_of, truthy}

-- the mapping that is there already, if it is one
abbrev pub existing_fields : Option Value → Option Fields
existing_fields (some (obj base)) = some base
existing_fields _ = none

-- `_deep_merge(base, override)`, one key of `override` after the other.
unfoldable mutual
  pub deep_merge : Fields → Fields → Fields
  deep_merge base end = base
  deep_merge base (field k v rest) = deep_merge (put k (merged_value (find k base) v) base) rest

  -- what stands at a key that has the first value, if any, and is overridden by the second
  pub merged_value : Option Value → Value → Value
  merged_value present (obj override) = elim (existing_fields present) [
    | none ↦ obj override
    | some base ↦ obj (deep_merge base override)
  ]
  merged_value present v = v

-- `_section(data, name)`
unfoldable pub section : Fields → String → Result Fields
section mapping name = read_mapping (get name mapping)
  where
    read_mapping : Value → Result Fields
    read_mapping null = ok end
    read_mapping (obj f) = ok f
    read_mapping _ = err value_error

module _ ⦃env : Platform⦄ where
  -- `str(v)`
  abbrev pub text_of : Value → String
  text_of (str s) = s
  text_of v = env.to_text v

  -- `float(v)`
  abbrev pub float_of : Value → Result ℕ
  float_of (bool b) = env.float_of_int (int_of_bool b)
  float_of (int n) = env.float_of_int n
  float_of (float x) = ok x
  float_of (str s) = or_raise (env.parse_float s) value_error
  float_of _ = err type_error

  read_bool : Value → Result Bool
  read_bool (bool b) = ok b
  read_bool (str s) =
      if str_eq (env.lower s) "true" || str_eq (env.lower s) "false"
      then ok (str_eq (env.lower s) "true")
      else err value_error
  read_bool _ = err value_error

  -- `_parse_bool(value, label, default)`
  unfoldable pub parse_bool : Value → Bool → Result Bool
  unfolding read_bool
  parse_bool null default = ok default
  parse_bool value default = read_bool value

  -- `_get_str(data, name, default)`
  unfoldable pub get_str : Fields → String → String → String
  get_str mapping name default = or_default (get name mapping)
    where
      or_default : Value → String
      or_default null = default
      or_default v = text_of v

  -- `_get_bool(data, name, default)`
  unfoldable pub get_bool : Fields → String → Bool → Bool
  get_bool mapping name default = or_default (get name mapping)
    where
      or_default : Value → Bool
      or_default null = default
      or_default v = truthy v

  -- the limits that are converted by `float`, and those by `int`
  checked_float : ℕ → Result ℕ
  checked_float x =
      if env.float_is_finite x && env.float_is_positive x then ok x else err value_error

  unfoldable pub positive_float : Value → Result ℕ
  unfolding checked_float
  positive_float v = catch_conversion (float_of v) checked_float (err value_error)

  -- `math.isfinite` of an int converts it to a float
  finite_int : Value → Result ℤ
  finite_int v = do n ← int_of v; finite ← env.float_of_int n; ok n

  checked_int : ℤ → Result ℤ
  checked_int n = if ltb_ℤ (pos 0) n then ok n else err value_error

  unfoldable pub positive_int : Value → Result ℤ
  unfolding finite_int checked_int
  positive_int v = catch_conversion (finite_int v) checked_int (err value_error)

  pub positive_int-positive : (v : Value) (n : ℤ) → positive_int v ≡ ok n → pos 1 ≤ℤ n
  unfolding positive_int checked_int
  positive_int-positive v n h =
      let (m, e, h₁) = catch_conversion-eq-ok (finite_int v) checked_int value_error h in
      elim (Bool-cases (ltb_ℤ (pos 0) m)) [ inl t ↦ ground arith | inr t ↦ absurd (ground arith) ]

  pub positive_float-positive :
      (v : Value) (x : ℕ)
      → positive_float v ≡ ok x
      → (env.float_is_finite x ≡ true) × (env.float_is_positive x ≡ true)
  unfolding positive_float checked_float
  positive_float-positive v x h =
      let (y, e, h₁) = catch_conversion-eq-ok (float_of v) checked_float value_error h in
      ground arith
