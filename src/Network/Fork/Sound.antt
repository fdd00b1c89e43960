-- ===== src/Network/Fork/Sound.antt =====
-- What a resolved fork leaves.
use easyblockchain.Prelude.{
  ℕ, ◌≡◌, ◌≢◌, refl, subst, sym, Bool, true, false, not, Option, none, some, List, [], ◌∷◌, ◌++◌,
  ◌⊎◌, inl, inr, Bool-cases, arith, get_last?, if◌then◌else◌,
}
use easyblockchain.Prelude.Int.{ℤ, ◌≤ℤ◌}
use easyblockchain.Prelude.Dict.{Dict}
use easyblockchain.Python.{Result, ok, err, ok_injective, ◌>>=◌, >>=-eq-ok}
use easyblockchain.Platform.{Platform}
use easyblockchain.Dynamic.{py_eq}
use easyblockchain.Types.{Block}
use easyblockchain.Consensus.Protocol.{proof_of_work, ProofOfWork, select_canonical_chain}
use easyblockchain.Consensus.Mining.{is_chain_valid, total_difficulty}
use easyblockchain.Consensus.Mining.Best.{Among, IsBest, select_canonical_chain-IsBest}
use easyblockchain.BlockChain.{BlockChain}
use easyblockchain.BlockChain.Replace.{IsReplaced, replace_chain-IsReplaced}
use easyblockchain.Network.Fork.{
  resolve_fork, adopt, canonical_chain, candidate_chains, joined_chain, join_chain_suffix, is_empty,
  same_chain,
}

module _ ⦃env : Platform⦄ (local : List Block) (first : Block) (rest : List Block) where
  -- what the candidates are
  abbrev pub IsCandidate : List Block → Type 0
  IsCandidate chain = (chain ≡ local) ⊎ ((chain ≡ first ∷ rest) ⊎ (chain ≡ local ++ first ∷ rest))

  -- the local chain is a candidate if it has a block
  record AreCandidates (candidates : List (List Block)) : Type 0 where
    known : (chain : List Block) → Among chain candidates → IsCandidate chain
    has_local : (last : Block) → get_last? local ≡ some last → Among local candidates

  is_joined :
      (b : Bool) (chain : List Block)
      → (if b then none else some (local ++ first ∷ rest)) ≡ some chain
      → chain ≡ local ++ first ∷ rest
  is_joined true chain e = absurd (cc)
  is_joined false chain e = ground arith

  join_chain_suffix-eq-some :
      (last : Block) (chain : List Block)
      → join_chain_suffix local last first rest ≡ ok (some chain)
      → chain ≡ local ++ first ∷ rest
  unfolding join_chain_suffix
  join_chain_suffix-eq-some last chain suffix =
      let (prev_hash, e, h₁) = >>=-eq-ok _ _ suffix in
      let (tran_hash, f, h₂) = >>=-eq-ok _ _ h₁ in
      is_joined (not (py_eq prev_hash tran_hash)) chain (ok_injective h₂)

  joined_chain-IsCandidate :
      (last : Block) (remote : List Block)
      → joined_chain local last first rest ≡ ok remote
      → IsCandidate remote
  unfolding joined_chain
  joined_chain-IsCandidate last remote h =
      let (joined, suffix, h₁) = >>=-eq-ok _ _ h in
      subst IsCandidate (ok_injective h₁) (chosen joined suffix)
    where
      chosen :
          (joined : Option (List Block))
          → join_chain_suffix local last first rest ≡ ok joined
          → IsCandidate (elim joined [ none ↦ first ∷ rest | some chain ↦ chain ])
      chosen none suffix = inr (inl refl)
      chosen (some chain) suffix = inr (inr (join_chain_suffix-eq-some last chain suffix))

  candidate_chains-AreCandidates :
      (candidates : List (List Block))
      → candidate_chains local first rest ≡ ok candidates
      → AreCandidates candidates
  unfolding candidate_chains
  candidate_chains-AreCandidates candidates h = listed (get_last? local) refl h
    where
      listed :
          (end : Option Block)
          → get_last? local ≡ end
          → elim end [
            | none ↦ ok ((first ∷ rest) ∷ [])
            | some last ↦ do remote ← joined_chain local last first rest; ok (local ∷ remote ∷ [])
          ]
            ≡ ok candidates
          → AreCandidates candidates
      listed none e k = subst AreCandidates (ok_injective k) (record {
        known = λ chain m. elim m [ inl same ↦ inr (inl same) | inr none_left ↦ absurd none_left ];
        has_local = λ last f. absurd (cc (e, f));
      })
      listed (some last) e k =
          let (remote, joined, k₁) = >>=-eq-ok _ _ k in
          subst AreCandidates (ok_injective k₁) (record {
            known = λ chain m. elim m [
              | inl same ↦ inl same
              | inr (inl same) ↦
                  subst IsCandidate (sym same) (joined_chain-IsCandidate last remote joined)
              | inr (inr none_left) ↦ absurd none_left
            ];
            has_local = λ other f. inl refl;
          })

module _ ⦃env : Platform⦄ (w : ProofOfWork) (self : BlockChain) (stakes : Dict ℕ)
    (mode : self.consensus ≡ some (proof_of_work w)) (first : Block) (rest : List Block) where
  -- A fork that is resolved by a change of the chain.
  pub record IsAdopted (outcome : Result Bool × BlockChain) : Type 0 where
    pub chain : List Block
    pub answer : outcome.0 ≡ ok true
    pub candidate : IsCandidate self.chain first rest chain
    pub is_valid : is_chain_valid w.settings w.genesis_prev_hash chain ≡ ok true
    pub replaced : IsReplaced self chain (some stakes) outcome.1
    pub work : ℤ
    pub has_work : total_difficulty chain ≡ ok work
    -- not less work than in a chain that the node had and that is valid
    pub no_less :
        (last : Block)
        → get_last? self.chain ≡ some last
        → is_chain_valid w.settings w.genesis_prev_hash self.chain ≡ ok true
        → (own : ℤ) × (total_difficulty self.chain ≡ ok own) × (own ≤ℤ work)

  abbrev pub Outcome : Result Bool × BlockChain → Type 0
  Outcome outcome = IsAdopted outcome ⊎ ((outcome.0 ≢ ok true) × (outcome.1 ≡ self))

  -- what the protocol may choose of the candidates
  abbrev IsChosen : List Block → Type 0
  IsChosen chain =
      (candidates : List (List Block)) × AreCandidates self.chain first rest candidates
      × IsBest w.settings w.genesis_prev_hash candidates chain

  canonical_chain-IsChosen :
      (chain : List Block)
      → canonical_chain (proof_of_work w) self.chain first rest stakes ≡ ok chain
      → (chain ≡ []) ⊎ IsChosen chain
  unfolding canonical_chain select_canonical_chain
  canonical_chain-IsChosen chain h =
      let (candidates, listed, h₁) = >>=-eq-ok _ _ h in
      let known = candidate_chains-AreCandidates self.chain first rest candidates listed in
      elim (select_canonical_chain-IsBest w.settings w.genesis_prev_hash candidates chain h₁) [
        | inl none_valid ↦ inl none_valid
        | inr best ↦ inr (candidates, known, best)
      ]

  replaced-Outcome :
      (chain : List Block) (outcome : Result Bool × BlockChain)
      → IsChosen chain
      → ((outcome.0 ≡ ok true) × IsReplaced self chain (some stakes) outcome.1)
        ⊎ ((outcome.0 ≢ ok true) × (outcome.1 ≡ self))
      → Outcome outcome
  replaced-Outcome chain outcome (candidates, known, best) (inr unchanged) = inr unchanged
  replaced-Outcome chain outcome (candidates, known, best) (inl (answer, replaced)) = inl (record {
    chain = chain;
    answer = answer;
    candidate = known.known chain best.candidate;
    is_valid = best.is_valid;
    replaced = replaced;
    work = best.work;
    has_work = best.has_work;
    no_less = λ last e v. best.heaviest self.chain (known.has_local last e) v;
  })

  adopt-Outcome :
      (canonical : Result (List Block))
      → ((chain : List Block) → canonical ≡ ok chain → (chain ≡ []) ⊎ IsChosen chain)
      → Outcome (adopt self stakes canonical)
  unfolding adopt is_empty
  adopt-Outcome (err e) chosen = inr (λ h. cc, refl)
  adopt-Outcome (ok []) chosen = inr (λ h. cc, refl)
  adopt-Outcome (ok (b ∷ chain)) chosen = elim (Bool-cases (same_chain (b ∷ chain) self.chain)) [
    | inl e ↦ rw e (inr (λ h. cc, refl))
    | inr e ↦ rw e (elim (chosen (b ∷ chain) refl) [
      | inl empty ↦ absurd (cc empty)
      | inr c ↦
          replaced-Outcome (b ∷ chain) _ c
            (replace_chain-IsReplaced w self (b ∷ chain) (some stakes) mode)
    ])
  ]

  -- Under proof of work, when a peer's blocks have been received: either the answer is not True and
  -- nothing changes; or the answer is True and the node's chain is now one of the candidates (the
  -- peer's blocks, the node's chain continued by them, or the node's own chain), it is valid for
  -- the protocol and verifies, and it has at least the total difficulty of the chain that the node
  -- had, where that one has a block and is valid.
  pub resolve_fork-Outcome : Outcome (resolve_fork (proof_of_work w) self stakes (first ∷ rest))
  unfolding resolve_fork
  resolve_fork-Outcome =
      adopt-Outcome (canonical_chain (proof_of_work w) self.chain first rest stakes)
        canonical_chain-IsChosen
