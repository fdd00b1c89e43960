-- ===== src/Python/Errors.antt =====
-- Exceptions. A function that may raise returns a `Result`.
use mathlib.Core.Path.{◌≡◌, ◌∙◌, ap, refl}
use mathlib.Core.Bool.{Bool, true, false}
use mathlib.Core.Option.{Option, none, some}
use native.Mathlib.Omega.{arith}
use mathlib.Core.Logic.{◌⊎◌, inl, inr}

-- The exception classes that the modelled code raises, catches or lets pass.
pub data Exc : Type 0 where
  key_error type_error attribute_error index_error : Exc
  overflow_error zero_division_error unsupported_algorithm runtime_error : Exc
  value_error chain_store_error : Exc

pub data Result {ℓ} (A : Type ℓ) : Type ℓ where
  ok : A → Result A
  err : Exc → Result A

-- Shut, so that a proof takes a do block apart step by step with `>>=-eq-ok`.
module _ {ℓ κ} {A : Type ℓ} {B : Type κ} where
  infixl 5 ◌>>=◌
  unfoldable pub ◌>>=◌ : Result A → (A → Result B) → Result B
  err raised >>= next = err raised
  ok value >>= next = next value

-- A step that is run for its exceptions only.
infixl 5 ◌>>◌
abbrev pub ◌>>◌ {ℓ} : {B : Type ℓ} → Result (Unit {0}) → Result B → Result B
step >> rest = step >>= λ _. rest

-- `if not t: raise e`
unfoldable pub guard : Bool → Exc → Result (Unit {0})
guard false e = err e
guard true e = ok tt

abbrev pub or_raise {ℓ} : {A : Type ℓ} → Option A → Exc → Result A
or_raise none e = err e
or_raise (some a) e = ok a

-- `except (TypeError, ValueError, OverflowError)`
abbrev pub is_conversion_error : Exc → Bool
is_conversion_error type_error = true
is_conversion_error value_error = true
is_conversion_error overflow_error = true
is_conversion_error _ = false

-- The value of `try: x = m` where those three are caught and the handler's result is `d`.
abbrev pub catch_conversion {ℓ κ} :
    {A : Type ℓ} {B : Type κ} → Result A → (A → Result B) → Result B → Result B
catch_conversion (ok a) f d = f a
catch_conversion (err type_error) f d = d
catch_conversion (err value_error) f d = d
catch_conversion (err overflow_error) f d = d
catch_conversion (err e) f d = err e

pub Result-cases {ℓ} :
    {A : Type ℓ} (r : Result A) → ((a : A) × (r ≡ ok a)) ⊎ ((e : Exc) × (r ≡ err e))
Result-cases (ok a) = inl (a, refl)
Result-cases (err e) = inr (e, refl)

-- A bind that succeeds has run both of its parts with success.
pub >>=-eq-ok {ℓ κ} :
    {A : Type ℓ} {B : Type κ} {result : B} (first : Result A) (next : A → Result B)
    → (first >>= next) ≡ ok result
    → (value : A) × (first ≡ ok value) × (next value ≡ ok result)
unfolding ◌>>=◌
>>=-eq-ok (err raised) next done = cc
>>=-eq-ok (ok value) next done = (value, refl, done)

pub or_raise-eq-ok {ℓ} :
    {A : Type ℓ} (o : Option A) (e : Exc) {a : A} → or_raise o e ≡ ok a → o ≡ some a
or_raise-eq-ok none e h = cc
or_raise-eq-ok (some b) e h = ground arith

-- What a bind does after a step that is known to succeed.
pub >>=-ok {ℓ κ} :
    {A : Type ℓ} {B : Type κ} {value : A} {result : Result B} {first : Result A}
    (next : A → Result B)
    → first ≡ ok value
    → next value ≡ result
    → (first >>= next) ≡ result
unfolding ◌>>=◌
>>=-ok next e h = ap (λ m. m >>= next) e ∙ h

pub >>=-err {ℓ κ} :
    {A : Type ℓ} {B : Type κ} {raised : Exc} {first : Result A} (next : A → Result B)
    → first ≡ err raised
    → (first >>= next) ≡ err raised
unfolding ◌>>=◌
>>=-err next e = ap (λ m. m >>= next) e

pub guard-eq-ok {ℓ} :
    {A : Type ℓ} (t : Bool) (e : Exc) (rest : Result A) {a : A}
    → (guard t e >> rest) ≡ ok a
    → (t ≡ true) × (rest ≡ ok a)
unfolding ◌>>=◌ guard
guard-eq-ok true e rest h = (refl, h)
guard-eq-ok false e rest h = cc

-- A conversion whose failure is turned into another exception, when it succeeds.
pub catch_conversion-eq-ok {ℓ κ} :
    {A : Type ℓ} {B : Type κ} (m : Result A) (f : A → Result B) (handled : Exc) {b : B}
    → catch_conversion m f (err handled) ≡ ok b
    → (a : A) × (m ≡ ok a) × (f a ≡ ok b)
catch_conversion-eq-ok (ok a) f handled h = (a, refl, h)
catch_conversion-eq-ok (err type_error) f handled h = cc
catch_conversion-eq-ok (err value_error) f handled h = cc
catch_conversion-eq-ok (err overflow_error) f handled h = cc
catch_conversion-eq-ok (err _) f handled h = cc

pub ok_injective {ℓ} : {A : Type ℓ} {a b : A} → ok a ≡ ok b → a ≡ b
ok_injective h = ground arith

pub guard_last-eq-ok : (t : Bool) (e : Exc) → guard t e ≡ ok tt → t ≡ true
unfolding guard
guard_last-eq-ok true e h = refl
guard_last-eq-ok false e h = cc

pub some_injective {ℓ} : {A : Type ℓ} {a b : A} → some a ≡ some b → a ≡ b
some_injective h = ground arith
