-- ===== src/Python/Fields.antt =====
-- Dicts of dynamic values: subscripts, `get`, updates.
use easyblockchain.Prelude.{
  ◌≡◌, refl, Bool, true, false, String, Option, none, some, arith, str_eq, str_eq_iff,
  if◌then◌else◌,
}
use easyblockchain.Python.Errors.{Result, ok, err, key_error, type_error, attribute_error, or_raise}
use easyblockchain.Python.Value.{Value, null, obj, Fields, end, field}

unfoldable pub find : String → Fields → Option Value
find k end = none
find k (field j v f) = if str_eq j k then some v else find k f

-- `k in f`
abbrev pub has : String → Fields → Bool
has k f = elim (find k f) [ none ↦ false | some v ↦ true ]

-- `f[k]`
abbrev pub item : String → Fields → Result Value
item k f = or_raise (find k f) key_error

-- `f.get(k, d)`
abbrev pub get_or : String → Fields → Value → Value
get_or k f d = elim (find k f) [ none ↦ d | some v ↦ v ]

-- `f.get(k)`: a missing key and an explicit null are the same
abbrev pub get : String → Fields → Value
get k f = get_or k f null

-- `f[k] = v`
unfoldable pub put : String → Value → Fields → Fields
put k v end = field k v end
put k v (field j w f) = if str_eq j k then field j v f else field j w (put k v f)

-- the dict without `k`
unfoldable pub remove : String → Fields → Fields
remove k end = end
remove k (field j v f) = let rest = remove k f in if str_eq j k then rest else field j v rest

-- `f.update(g)`
unfoldable pub update : Fields → Fields → Fields
update f end = f
update f (field k v g) = update (put k v f) g

-- `v[k]` with a text key, on any value
abbrev pub subscript : Value → String → Result Value
subscript (obj f) k = item k f
subscript _ k = err type_error

-- a value that a method of dict is called on
abbrev pub as_dict : Value → Result Fields
as_dict (obj f) = ok f
as_dict _ = err attribute_error

pub find-put :
    (k j : String) (v : Value) (f : Fields)
    → find j (put k v f) ≡ (if str_eq k j then some v else find j f)
unfolding find put
find-put k j v end = refl
find-put k j v (field i w f) =
    ground (arith, str_eq_iff k j, str_eq_iff i k, str_eq_iff i j, find-put k j v f)

pub find-remove :
    (k j : String) (f : Fields) → find j (remove k f) ≡ (if str_eq k j then none else find j f)
unfolding find remove
find-remove k j end = ground arith
find-remove k j (field i w f) =
    ground (arith, str_eq_iff k j, str_eq_iff i k, str_eq_iff i j, find-remove k j f)

remove_absent : (k : String) (f : Fields) → find k f ≡ none → remove k f ≡ f
unfolding find remove
remove_absent k end h = refl
remove_absent k (field i w f) h = ground (arith, remove_absent k f)

-- Taking out a key that has just been added gives the dict back.
pub remove-put_new :
    (k : String) (v : Value) (f : Fields) → find k f ≡ none → remove k (put k v f) ≡ f
unfolding find put remove
remove-put_new k v end h = ground (arith, str_eq_iff k k)
remove-put_new k v (field i w f) h =
    ground (arith, str_eq_iff i k, remove-put_new k v f, remove_absent k f)

pub remove-put_ne :
    (j k : String) (v : Value) (f : Fields)
    → str_eq k j ≡ false
    → remove j (put k v f) ≡ put k v (remove j f)
unfolding put remove
remove-put_ne j k v end h = ground arith
remove-put_ne j k v (field i w f) h =
    ground (arith, str_eq_iff k j, str_eq_iff i k, str_eq_iff i j, remove-put_ne j k v f)
