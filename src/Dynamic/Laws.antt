-- ===== src/Dynamic/Laws.antt =====
-- When `==` holds against a value of a known type.
use easyblockchain.Prelude.{◌≡◌, true, String, str_eq, str_eq_iff, str_eq_refl}
use easyblockchain.Prelude.Int.{ℤ, eq_ℤ_iff}
use easyblockchain.Python.Value.{Value, null, bool, int, float, str, arr, obj}
use easyblockchain.Platform.{Platform}
use easyblockchain.Dynamic.{py_eq}

module _ ⦃env : Platform⦄ where
  -- A value equal to a text is that text.
  pub py_eq-str : (v : Value) (s : String) → py_eq v (str s) ≡ true → v ≡ str s
  unfolding py_eq
  py_eq-str (str t) s h = ap_str (str_eq_iff t s).0 h
    where
      ap_str : (str_eq t s ≡ true → t ≡ s) → str_eq t s ≡ true → str t ≡ str s
      ap_str f e = cc (f e)
  py_eq-str null s h = cc
  py_eq-str (bool b) s h = cc
  py_eq-str (int n) s h = cc
  py_eq-str (float x) s h = cc
  py_eq-str (arr xs) s h = cc
  py_eq-str (obj f) s h = cc

  pub py_eq-str_refl : (s : String) → py_eq (str s) (str s) ≡ true
  unfolding py_eq
  py_eq-str_refl s = str_eq_refl s

  pub py_eq-int : (m n : ℤ) → py_eq (int m) (int n) ≡ true → m ≡ n
  unfolding py_eq
  py_eq-int m n h = (eq_ℤ_iff m n).0 h
