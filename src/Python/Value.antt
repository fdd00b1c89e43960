-- ===== src/Python/Value.antt =====
-- Values of a dynamic language: what `json.loads` returns. A float is its 64-bit pattern.
use Prim.Native.Nat.{ℕ}
use Prim.Native.String.{String}
use mathlib.Core.Bool.{Bool, true, false}
use mathlib.Core.List.{List, [], ◌∷◌}
use easyblockchain.Prelude.Int.{ℤ, pos}

mutual
  -- A dict, its keys in insertion order.
  pub data Fields : Type 0 where
    field : String → Value → Fields → Fields
    end : Fields

  pub data Value : Type 0 where
    obj : Fields → Value
    arr : Items → Value
    str : String → Value
    float : ℕ → Value
    int : ℤ → Value
    bool : Bool → Value
    null : Value

  pub data Items : Type 0 where
    cons : Value → Items → Items
    nil : Items

abbrev pub to_list : Items → List Value
to_list nil = []
to_list (cons v vs) = v ∷ to_list vs

abbrev pub int_of_bool : Bool → ℤ
int_of_bool true = pos 1
int_of_bool false = pos 0

-- `isinstance(v, str)`, `isinstance(v, dict)`, `isinstance(v, list)`
abbrev pub is_str : Value → Bool
is_str (str s) = true
is_str _ = false

abbrev pub is_dict : Value → Bool
is_dict (obj f) = true
is_dict _ = false

abbrev pub is_none : Value → Bool
is_none null = true
is_none _ = false

-- `type(v) is int`: a bool is none
abbrev pub is_int : Value → Bool
is_int (int n) = true
is_int _ = false
