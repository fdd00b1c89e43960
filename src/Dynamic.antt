-- ===== src/Dynamic.antt =====
-- Python's operators on dynamic values: `==`, truth, `+ 1` and `int(...)`.
pub mod Laws
use easyblockchain.Prelude.{
  ℕ, suc, ◌+◌, Bool, true, false, ◌&&◌, not, String, Option, none, some, str_eq, ◌==◌,
  if◌then◌else◌,
}
use easyblockchain.Prelude.Int.{ℤ, pos, negsuc, ◌+ℤ◌, eq_ℤ}
use easyblockchain.Python.{Result, ok, err, type_error, value_error, or_raise}
use easyblockchain.Python.Value.{
  Value, null, bool, int, float, str, arr, obj, Items, nil, cons, Fields, end, field, int_of_bool,
}
use easyblockchain.Python.Fields.{find}
use easyblockchain.Platform.{Platform}

abbrev pub count_fields : Fields → ℕ
count_fields end = 0
count_fields (field k v f) = suc (count_fields f)

-- A number as a value is compared: a bool is the int 0 or 1.
pub data Num : Type 0 where
  exact : ℤ → Num
  approx : ℕ → Num
  not_a_number : Num

abbrev pub num_of : Value → Num
num_of (bool b) = exact (int_of_bool b)
num_of (int n) = exact n
num_of (float x) = approx x
num_of _ = not_a_number

abbrev pub as_items : Value → Option Items
as_items (arr xs) = some xs
as_items _ = none

abbrev pub as_fields : Value → Option Fields
as_fields (obj f) = some f
as_fields _ = none

abbrev pub is_null : Value → Bool
is_null null = true
is_null _ = false

abbrev pub is_text : String → Value → Bool
is_text s (str t) = str_eq s t
is_text s _ = false

abbrev pub truthy_fields : Fields → Bool
truthy_fields end = false
truthy_fields _ = true

module _ ⦃env : Platform⦄ where
  abbrev pub num_eq : Num → Num → Bool
  num_eq (exact m) (exact n) = eq_ℤ m n
  num_eq (exact m) (approx y) = env.float_eq_int y m
  num_eq (approx x) (exact n) = env.float_eq_int x n
  num_eq (approx x) (approx y) = env.float_eq x y
  num_eq _ _ = false

  -- `v == w`
  unfoldable mutual
    pub py_eq : Value → Value → Bool
    py_eq null w = is_null w
    py_eq (bool b) w = num_eq (exact (int_of_bool b)) (num_of w)
    py_eq (int n) w = num_eq (exact n) (num_of w)
    py_eq (float x) w = num_eq (approx x) (num_of w)
    py_eq (str s) w = is_text s w
    py_eq (arr xs) w = elim (as_items w) [ none ↦ false | some ys ↦ items_eq xs ys ]
    py_eq (obj f) w = elim (as_fields w) [
      | none ↦ false
      | some g ↦ (count_fields f == count_fields g) && fields_within f g
    ]

    pub items_eq : Items → Items → Bool
    items_eq nil nil = true
    items_eq nil (cons w ws) = false
    items_eq (cons v vs) nil = false
    items_eq (cons v vs) (cons w ws) = py_eq v w && items_eq vs ws

    -- every key of the first is in the second, with an equal value
    pub fields_within : Fields → Fields → Bool
    fields_within end g = true
    fields_within (field k v f) g = elim (find k g) [
      | none ↦ false
      | some w ↦ py_eq v w && fields_within f g
    ]

  -- `v + 1`
  abbrev pub plus_one : Value → Result Value
  plus_one (bool b) = ok (int (int_of_bool b +ℤ pos 1))
  plus_one (int n) = ok (int (n +ℤ pos 1))
  plus_one (float x) = ok (float (env.float_add_one x))
  plus_one _ = err type_error

  -- `int(v)`
  abbrev pub int_of : Value → Result ℤ
  int_of (bool b) = ok (int_of_bool b)
  int_of (int n) = ok n
  int_of (float x) = env.float_to_int x
  int_of (str s) = or_raise (env.parse_int s) value_error
  int_of _ = err type_error

  -- `bool(v)`
  abbrev pub truthy : Value → Bool
  truthy null = false
  truthy (bool b) = b
  truthy (int n) = not (eq_ℤ n (pos 0))
  truthy (float x) = not (env.float_is_zero x)
  truthy (str s) = not (str_eq s "")
  truthy (arr nil) = false
  truthy (arr (cons v vs)) = true
  truthy (obj f) = truthy_fields f
