-- ===== src/Consensus/Mining/Best.antt =====
-- Which chain proof of work chooses.
use easyblockchain.Prelude.{
  ℕ, ◌≡◌, ◌⊎◌, inl, inr, refl, sym, ap, ◌∙◌, Bool, true, false, String, List, [], ◌∷◌, length,
  arith, Bool-cases, subst, if◌then◌else◌,
}
use easyblockchain.Prelude.Int.{ℤ, ◌≤ℤ◌}
use easyblockchain.Python.{ok, ok_injective, >>=-eq-ok}
use easyblockchain.Platform.{Platform}
use easyblockchain.Types.{Block, PowSettings}
use easyblockchain.Consensus.Choice.{max_from}
use easyblockchain.Consensus.Mining.{
  work_less, is_chain_valid, total_difficulty, valid_chains, scored, best, select_canonical_chain,
}

-- one of the elements
abbrev pub Among : {A : Type 0} → A → List A → Type 0
Among x [] = ⊥
Among x (y ∷ ys) = (x ≡ y) ⊎ Among x ys

-- a chain with its score: total difficulty and length
abbrev Entry : Type 0
Entry = (ℤ × ℕ) × List Block

abbrev work_of : Entry → ℤ
work_of ((work, count), chain) = work

abbrev greatest : Entry → List Entry → Entry
greatest c cs = max_from (λ (e : Entry). e.0) work_less c cs

≤ℤ_trans : (a b c : ℤ) → a ≤ℤ b → b ≤ℤ c → a ≤ℤ c
≤ℤ_trans a b c h k = omega arith

work_less-eq-true : (c d : Entry) → work_less c.0 d.0 ≡ true → work_of c ≤ℤ work_of d
work_less-eq-true ((a, m), x) ((b, n), y) h = ground arith

work_less-eq-false : (c d : Entry) → work_less c.0 d.0 ≡ false → work_of d ≤ℤ work_of c
work_less-eq-false ((a, m), x) ((b, n), y) h = ground arith

greatest-Among : (c : Entry) (cs : List Entry) → Among (greatest c cs) (c ∷ cs)
unfolding max_from
greatest-Among c [] = inl refl
greatest-Among c (x ∷ xs) = kept (work_less c.0 x.0) (greatest-Among x xs) (greatest-Among c xs)
  where
    kept :
        (b : Bool)
        → Among (greatest x xs) (x ∷ xs)
        → Among (greatest c xs) (c ∷ xs)
        → Among (greatest (if b then x else c) xs) (c ∷ x ∷ xs)
    kept true new old = inr new
    kept false new old = elim old [ inl same ↦ inl same | inr rest ↦ inr (inr rest) ]

start-le-greatest : (c : Entry) (cs : List Entry) → work_of c ≤ℤ work_of (greatest c cs)
unfolding max_from
start-le-greatest c [] = omega arith
start-le-greatest c (x ∷ xs) = elim (Bool-cases (work_less c.0 x.0)) [
  | inl e ↦
      rw e (≤ℤ_trans (work_of c) (work_of x) _ (work_less-eq-true c x e) (start-le-greatest x xs))
  | inr e ↦ rw e (start-le-greatest c xs)
]

among-le-greatest :
    (c : Entry) (cs : List Entry) (d : Entry)
    → Among d (c ∷ cs)
    → work_of d ≤ℤ work_of (greatest c cs)
unfolding max_from
among-le-greatest c cs d (inl same) =
    subst (λ e. work_of e ≤ℤ work_of (greatest c cs)) (sym same) (start-le-greatest c cs)
among-le-greatest c [] d (inr m) = absurd m
among-le-greatest c (x ∷ xs) d (inr m) = elim (Bool-cases (work_less c.0 x.0)) [
  | inl e ↦ rw e (among-le-greatest x xs d m)
  | inr e ↦ rw e (elim m [
    | inr later ↦ among-le-greatest c xs d (inr later)
    | inl same ↦
        subst (λ y. work_of y ≤ℤ work_of (greatest c xs)) (sym same)
          (≤ℤ_trans (work_of x) (work_of c) _ (work_less-eq-false c x e) (start-le-greatest c xs))
  ])
]

module _ ⦃env : Platform⦄ where
  -- the scored chains are the chains
  scored-Among :
      (chains : List (List Block)) (entries : List Entry)
      → scored chains ≡ ok entries
      → ((e : Entry) → Among e entries → Among e.1 chains × (total_difficulty e.1 ≡ ok (work_of e)))
        × ((chain : List Block)
            → Among chain chains
            → (e : Entry) × Among e entries × (e.1 ≡ chain))
  unfolding scored
  scored-Among [] entries h =
      subst
        (λ (l : List Entry).
          ((e : Entry) → Among e l → Among e.1 [] × (total_difficulty e.1 ≡ ok (work_of e)))
          × ((chain : List Block) → Among chain [] → (e : Entry) × Among e l × (e.1 ≡ chain)))
        (ok_injective h) (λ e m. absurd m, λ chain m. absurd m)
  scored-Among (c ∷ chains) entries h =
      let (work, has_work, h₁) = >>=-eq-ok _ _ h in
      let (rest, has_rest, h₂) = >>=-eq-ok _ _ h₁ in
      let (sound, complete) = scored-Among chains rest has_rest in
      subst
        (λ (l : List Entry).
          ((e : Entry)
            → Among e l
            → Among e.1 (c ∷ chains) × (total_difficulty e.1 ≡ ok (work_of e)))
          × ((chain : List Block)
              → Among chain (c ∷ chains)
              → (e : Entry) × Among e l × (e.1 ≡ chain)))
        (ok_injective h₂)
        (
          λ e m. elim m [
            | inl same ↦ (
              inl (ap (λ (d : Entry). d.1) same),
              ap (λ (d : Entry). total_difficulty d.1) same
                  ∙ has_work
                  ∙ ap (λ (d : Entry). ok (work_of d)) (sym same),
            )
            | inr later ↦ (inr (sound e later).0, (sound e later).1)
          ],
          λ chain m. elim m [
            | inl same ↦ (((work, length c), c), inl refl, sym same)
            | inr later ↦ let (e, among, is) = complete chain later in (e, inr among, is)
          ],
        )

  module _ (settings : PowSettings) (genesis : String) where
    abbrev Sieves : List (List Block) → List (List Block) → Type 0
    Sieves chains valid =
        ((c : List Block)
          → Among c valid
          → Among c chains × (is_chain_valid settings genesis c ≡ ok true))
        × ((c : List Block)
            → Among c chains
            → is_chain_valid settings genesis c ≡ ok true
            → Among c valid)

    sieve_one :
        (chain : List Block) (chains rest : List (List Block)) (is_valid : Bool)
        → is_chain_valid settings genesis chain ≡ ok is_valid
        → Sieves chains rest
        → Sieves (chain ∷ chains) (if is_valid then chain ∷ rest else rest)
    sieve_one chain chains rest true h (sound, complete) = (
      λ c m. elim m [
        | inl same ↦ (inl same, ap (is_chain_valid settings genesis) same ∙ h)
        | inr later ↦ (inr (sound c later).0, (sound c later).1)
      ],
      λ c m v. elim m [ inl same ↦ inl same | inr later ↦ inr (complete c later v) ],
    )
    sieve_one chain chains rest false h (sound, complete) = (
      λ c m. (inr (sound c m).0, (sound c m).1),
      λ c m v. elim m [
        | inl same ↦ absurd (cc (ap (is_chain_valid settings genesis) same, h, v))
        | inr later ↦ complete c later v
      ],
    )

    valid_chains-Sieves :
        (chains valid : List (List Block))
        → valid_chains settings genesis chains ≡ ok valid
        → Sieves chains valid
    unfolding valid_chains
    valid_chains-Sieves [] valid h =
        subst (Sieves []) (ok_injective h) (λ c m. absurd m, λ c m v. absurd m)
    valid_chains-Sieves (chain ∷ chains) valid h =
        let (is_valid, checked, h₁) = >>=-eq-ok _ _ h in
        let (rest, has_rest, h₂) = >>=-eq-ok _ _ h₁ in
        subst (Sieves (chain ∷ chains)) (ok_injective h₂)
          (sieve_one chain chains rest is_valid checked (valid_chains-Sieves chains rest has_rest))

    -- a valid chain of the candidates with the greatest total difficulty among the valid ones
    pub record IsBest (chains : List (List Block)) (chosen : List Block) : Type 0 where
      pub candidate : Among chosen chains
      pub is_valid : is_chain_valid settings genesis chosen ≡ ok true
      pub work : ℤ
      pub has_work : total_difficulty chosen ≡ ok work
      pub heaviest :
          (other : List Block)
          → Among other chains
          → is_chain_valid settings genesis other ≡ ok true
          → (less : ℤ) × (total_difficulty other ≡ ok less) × (less ≤ℤ work)

    best-IsBest :
        (chains valid : List (List Block)) (entries : List Entry)
        → Sieves chains valid
        → scored valid ≡ ok entries
        → (best entries ≡ []) ⊎ IsBest chains (best entries)
    unfolding best
    best-IsBest chains valid [] sieves h = inl refl
    best-IsBest chains valid (c ∷ cs) (sound, complete) h =
        let (member, has) = scored-Among valid (c ∷ cs) h in
        let top = greatest c cs in
        let (in_valid, has_work) = member top (greatest-Among c cs) in
        let (in_chains, is_valid) = sound top.1 in_valid in
        inr (record {
          candidate = in_chains;
          is_valid = is_valid;
          work = work_of top;
          has_work = has_work;
          heaviest = λ other among v.
              let (e, at, is) = has other (complete other among v) in
              (
                work_of e,
                ap total_difficulty (sym is) ∙ (member e at).1,
                among-le-greatest c cs e at,
              );
        })

    pub select_canonical_chain-IsBest :
        (chains : List (List Block)) (chosen : List Block)
        → select_canonical_chain settings genesis chains ≡ ok chosen
        → (chosen ≡ []) ⊎ IsBest chains chosen
    unfolding select_canonical_chain
    select_canonical_chain-IsBest chains chosen h =
        let (valid, sifted, h₁) = >>=-eq-ok _ _ h in
        let (entries, has_scores, h₂) = >>=-eq-ok _ _ h₁ in
        subst (λ c. (c ≡ []) ⊎ IsBest chains c) (ok_injective h₂)
          (best-IsBest chains valid entries (valid_chains-Sieves chains valid sifted) has_scores)
