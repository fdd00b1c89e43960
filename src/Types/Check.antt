-- ===== src/Types/Check.antt =====
-- `ValidationResult` of types.py, as the result of code that validates: valid, invalid for a reason,
-- or an exception on the way.
use easyblockchain.Prelude.{◌≡◌, refl, Bool, true, false, String}
use easyblockchain.Python.{Exc, Result, ok, err}

pub data Check {ℓ} (A : Type ℓ) : Type ℓ where
  pass : A → Check A
  reject : String → Check A
  raise : Exc → Check A

-- `ValidationResult`: `pass tt` has `valid=True`, `reject r` has `valid=False, reason=r`.
abbrev pub ValidationResult : Type 0
ValidationResult = Check (Unit {0})

-- Shut, so that a proof takes a block of checks apart step by step with the lemmas below.
infixl 5 ◌>>=◌ ◌>>◌
unfoldable pub ◌>>=◌ {ℓ κ} : {A : Type ℓ} {B : Type κ} → Check A → (A → Check B) → Check B
pass a >>= f = f a
reject r >>= f = reject r
raise e >>= f = raise e

abbrev pub ◌>>◌ {ℓ} : {B : Type ℓ} → ValidationResult → Check B → Check B
m >> k = m >>= λ _. k

unfoldable pub lift {ℓ} : {A : Type ℓ} → Result A → Check A
lift (ok a) = pass a
lift (err e) = raise e

-- `if not t: return ValidationResult(valid=False, reason=r)`
unfoldable pub require : Bool → String → ValidationResult
require true r = pass tt
require false r = reject r

module _ {ℓ κ} {A : Type ℓ} {B : Type κ} where
  pub >>=-eq-pass :
      (m : Check A) (f : A → Check B) {b : B}
      → (m >>= f) ≡ pass b
      → (a : A) × (m ≡ pass a) × (f a ≡ pass b)
  unfolding ◌>>=◌
  >>=-eq-pass (pass a) f h = (a, refl, h)
  >>=-eq-pass (reject r) f h = cc
  >>=-eq-pass (raise e) f h = cc

  pub lift-eq-pass :
      (r : Result A) (f : A → Check B) {b : B}
      → (lift r >>= f) ≡ pass b
      → (a : A) × (r ≡ ok a) × (f a ≡ pass b)
  unfolding ◌>>=◌ lift
  lift-eq-pass (ok a) f h = (a, refl, h)
  lift-eq-pass (err e) f h = cc

pub require-eq-pass {κ} :
    {B : Type κ} (t : Bool) (r : String) (k : Check B) {b : B}
    → (require t r >> k) ≡ pass b
    → (t ≡ true) × (k ≡ pass b)
unfolding ◌>>=◌ require
require-eq-pass true r k h = (refl, h)
require-eq-pass false r k h = cc

pub require_last-eq-pass : (t : Bool) (r : String) → require t r ≡ pass tt → t ≡ true
unfolding require
require_last-eq-pass true r h = refl
require_last-eq-pass false r h = cc
