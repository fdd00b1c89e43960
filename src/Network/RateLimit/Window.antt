-- ===== src/Network/RateLimit/Window.antt =====
-- The events that are still in a window, when time passes and events are added.
use easyblockchain.Prelude.{ℕ, ◌+◌, ◌≤◌, ◌<◌, ◌≡◌, ◌∙◌, refl, sym, ap, List, [], ◌∷◌, ◌++◌, arith}
use easyblockchain.Network.RateLimit.{drop_old}

-- no event after a time
abbrev pub Until : ℕ → List ℕ → Type 0
Until t [] = Unit
Until t (e ∷ events) = (e ≤ t) × Until t events

pub Until-later : (s t : ℕ) (events : List ℕ) → s ≤ t → Until s events → Until t events
Until-later s t [] le h = tt
Until-later s t (e ∷ events) le h = (omega (arith, h.0), Until-later s t events le h.1)

pub Until-append_one : (t : ℕ) (events : List ℕ) → Until t events → Until t (events ++ t ∷ [])
Until-append_one t [] h = (omega arith, tt)
Until-append_one t (e ∷ events) h = (h.0, Until-append_one t events h.1)

module _ (window : ℕ) where
  pub drop_old-later :
      (s t : ℕ) (events : List ℕ)
      → s ≤ t
      → drop_old window t (drop_old window s events) ≡ drop_old window t events
  unfolding drop_old
  drop_old-later s t [] le = refl
  drop_old-later s t (e ∷ events) le = ground (arith, drop_old-later s t events le)

  pub drop_old-append :
      (t : ℕ) (xs ys : List ℕ)
      → drop_old window t (drop_old window t xs ++ ys) ≡ drop_old window t (xs ++ ys)
  unfolding drop_old
  drop_old-append t [] ys = refl
  drop_old-append t (e ∷ xs) ys = ground (arith, drop_old-append t xs ys)

  pub drop_old-Until :
      (last t : ℕ) (events : List ℕ)
      → Until last events
      → last + window < t
      → drop_old window t events ≡ []
  unfolding drop_old
  drop_old-Until last t [] h old = refl
  drop_old-Until last t (e ∷ events) h old =
      ground (arith, h.0, drop_old-Until last t events h.1 old)

  -- Two lists that agree at a time agree later, and when an event is added to both.
  pub same_later :
      (s t : ℕ) (xs ys : List ℕ)
      → s ≤ t
      → drop_old window s xs ≡ drop_old window s ys
      → drop_old window t xs ≡ drop_old window t ys
  same_later s t xs ys le h =
      sym (drop_old-later s t xs le) ∙ ap (drop_old window t) h ∙ drop_old-later s t ys le

  pub same_append :
      (t : ℕ) (xs ys zs : List ℕ)
      → drop_old window t xs ≡ drop_old window t ys
      → drop_old window t (xs ++ zs) ≡ drop_old window t (ys ++ zs)
  same_append t xs ys zs h =
      sym (drop_old-append t xs zs)
      ∙ ap (λ l. drop_old window t (l ++ zs)) h
      ∙ drop_old-append t ys zs
