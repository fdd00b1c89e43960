-- ===== src/Network/RateLimit/Entries.antt =====
-- Dictionaries of times whose entries all have a property, and the removal of keys from them.
use easyblockchain.Prelude.{
  ℕ, ◌+◌, ◌<◌, ◌≡◌, ◌∙◌, refl, sym, ap, false, String, none, List, [], ◌∷◌, ltb, str_eq, str_eq_iff,
  if◌then◌else◌, arith, Bool-cases, ◌⊎◌, inl, inr, subst,
}
use easyblockchain.Prelude.Dict.{Dict, lookup, insert, erase, lookup-insert, lookup-erase}
use easyblockchain.Network.RateLimit.{stale_keys, erase_all}

-- every entry of a dict, and every key of a list, has a property
abbrev pub Entries : (String → ℕ → Type 0) → Dict ℕ → Type 0
Entries P [] = Unit
Entries P ((key, v) ∷ d) = P key v × Entries P d

abbrev pub Keys : (String → Type 0) → List String → Type 0
Keys Q [] = Unit
Keys Q (key ∷ keys) = Q key × Keys Q keys

module _ (P : String → ℕ → Type 0) where
  Entries-erase : (key : String) (d : Dict ℕ) → Entries P d → Entries P (erase key d)
  unfolding erase
  Entries-erase key [] h = tt
  Entries-erase key ((k, w) ∷ d) h = elim (Bool-cases (str_eq k key)) [
    | inl same ↦ rw same (Entries-erase key d h.1)
    | inr other ↦ rw other (h.0, Entries-erase key d h.1)
  ]

  pub Entries-erase_all :
      (keys : List String) (d : Dict ℕ) → Entries P d → Entries P (erase_all keys d)
  unfolding erase_all
  Entries-erase_all [] d h = h
  Entries-erase_all (key ∷ keys) d h = Entries-erase_all keys (erase key d) (Entries-erase key d h)

  pub Keys-stale_keys :
      (Q : String → Type 0) (window t : ℕ) (d : Dict ℕ)
      → ((key : String) (last : ℕ) → P key last → last + window < t → Q key)
      → Entries P d
      → Keys Q (stale_keys window t d)
  unfolding stale_keys
  Keys-stale_keys Q window t [] f h = tt
  Keys-stale_keys Q window t ((key, last) ∷ d) f h = elim (Bool-cases (ltb (last + window) t)) [
    | inl old ↦ rw old (f key last h.0 (ground (arith, old)), Keys-stale_keys Q window t d f h.1)
    | inr fresh ↦ rw fresh (Keys-stale_keys Q window t d f h.1)
  ]

-- no key twice
abbrev pub Distinct : Dict ℕ → Type 0
Distinct [] = Unit
Distinct ((key, v) ∷ d) = (lookup key d ≡ none) × Distinct d

pub Distinct-insert : (key : String) (v : ℕ) (d : Dict ℕ) → Distinct d → Distinct (insert key v d)
unfolding insert lookup
Distinct-insert key v [] h = (refl, tt)
Distinct-insert key v ((k, w) ∷ d) h = elim (Bool-cases (str_eq k key)) [
  | inl same ↦ rw same h
  | inr other ↦ rw other (
    lookup-insert key k v d ∙ ground (arith, h.0, other, str_eq_iff k key, str_eq_iff key k),
    Distinct-insert key v d h.1,
  )
]

Distinct-erase : (key : String) (d : Dict ℕ) → Distinct d → Distinct (erase key d)
unfolding erase
Distinct-erase key [] h = tt
Distinct-erase key ((k, w) ∷ d) h = elim (Bool-cases (str_eq k key)) [
  | inl same ↦ rw same (Distinct-erase key d h.1)
  | inr other ↦ rw other (lookup-erase key k d ∙ ground (arith, h.0), Distinct-erase key d h.1)
]

pub Distinct-erase_all :
    (keys : List String) (d : Dict ℕ) → Distinct d → Distinct (erase_all keys d)
unfolding erase_all
Distinct-erase_all [] d h = h
Distinct-erase_all (key ∷ keys) d h = Distinct-erase_all keys (erase key d) (Distinct-erase key d h)

module _ (P R : String → ℕ → Type 0) (key : String)
    (other_keys : (k : String) (v : ℕ) → str_eq k key ≡ false → P k v → R k v) where
  Entries-absent : (d : Dict ℕ) → lookup key d ≡ none → Entries P d → Entries R d
  unfolding lookup
  Entries-absent [] e h = tt
  Entries-absent ((k, v) ∷ d) e h = elim (Bool-cases (str_eq k key)) [
    | inl same ↦ absurd (ground (arith, e, same))
    | inr other ↦ (other_keys k v other h.0, Entries-absent d (ground (arith, e, other)) h.1)
  ]

  pub Entries-replace :
      (v : ℕ) (d : Dict ℕ) → R key v → Distinct d → Entries P d → Entries R (insert key v d)
  unfolding insert
  Entries-replace v [] r distinct h = (r, tt)
  Entries-replace v ((k, w) ∷ d) r distinct h = elim (Bool-cases (str_eq k key)) [
    | inl same ↦
        let e : k ≡ key = (str_eq_iff k key).0 same in
        rw same (
          subst (λ j. R j v) (sym e) r,
          Entries-absent d (subst (λ j. lookup j d ≡ none) e distinct.0) h.1,
        )
    | inr other ↦ rw other (other_keys k w other h.0, Entries-replace v d r distinct.1 h.1)
  ]

-- A key that was erased had the property.
pub lookup-erase_all :
    (Q : String → Type 0) (j : String) (keys : List String) (d : Dict (List ℕ))
    → Keys Q keys
    → (lookup j (erase_all keys d) ≡ lookup j d) ⊎ ((lookup j (erase_all keys d) ≡ none) × Q j)
unfolding erase_all
lookup-erase_all Q j [] d h = inl refl
lookup-erase_all Q j (key ∷ keys) d h = elim (lookup-erase_all Q j keys (erase key d) h.1) [
  | inr gone ↦ inr gone
  | inl kept ↦ elim (Bool-cases (str_eq key j)) [
    | inl same ↦ inr (
      kept ∙ lookup-erase key j d ∙ ap (λ b. if b then none else lookup j d) same,
      subst Q ((str_eq_iff key j).0 same) h.0,
    )
    | inr other ↦ inl (kept ∙ lookup-erase key j d ∙ ap (λ b. if b then none else lookup j d) other)
  ]
]
