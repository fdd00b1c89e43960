-- ===== src/Network/RateLimit/Tracking.antt =====
-- The limiter keeps, for each key, what it has granted within the window.
use easyblockchain.Prelude.{
  ℕ, ◌+◌, ◌≤◌, ◌≡◌, ◌∙◌, refl, sym, ap, Bool, true, false, String, Option, none, some, List, [],
  ◌∷◌, ◌++◌, length, ltb, str_eq, str_eq_iff, if◌then◌else◌, arith, Bool-cases, inl, inr, subst,
}
use easyblockchain.Prelude.Dict.{insert, lookup-insert}
use easyblockchain.Network.RateLimit.{
  SlidingWindowRateLimiter, events_of, drop_old, stale_keys, erase_all, prune_stale_keys, admit,
}
use easyblockchain.Network.RateLimit.Window.{
  Until, Until-later, Until-append_one, drop_old-later, drop_old-append, drop_old-Until, same_later,
  same_append,
}
use easyblockchain.Network.RateLimit.Entries.{
  Entries, Keys, Entries-erase_all, Keys-stale_keys, Distinct, Distinct-insert, Distinct-erase_all,
  Entries-replace, lookup-erase_all,
}

-- What has been granted to each key, for ever.
abbrev pub History : Type 0
History = String → List ℕ

abbrev pub granted : History → String → ℕ → History
granted history key t = λ j. if str_eq key j then history j ++ t ∷ [] else history j

-- The limiter knows, for each key, the granted events that are in the window.
pub record Tracks (self : SlidingWindowRateLimiter) (history : History) (now : ℕ) : Type 0 where
  pub recent :
      (key : String)
      → drop_old self.window_seconds now (events_of key self.events)
        ≡ drop_old self.window_seconds now (history key)
  pub accessed : Entries (λ key last. Until last (history key)) self.last_access
  pub distinct : Distinct self.last_access
  pub past : (key : String) → Until now (history key)

pub later-Tracks :
    (self : SlidingWindowRateLimiter) (history : History) (now t : ℕ)
    → now ≤ t
    → Tracks self history now
    → Tracks self history t
later-Tracks self history now t le h = record {
  recent = λ key. same_later self.window_seconds now t _ _ le (h.recent key);
  accessed = h.accessed;
  distinct = h.distinct;
  past = λ key. Until-later now t (history key) le (h.past key);
}

module _ (self : SlidingWindowRateLimiter) (history : History) (t : ℕ)
    (h : Tracks self history t) where
  abbrev stale : List String
  stale = stale_keys self.window_seconds t self.last_access

  abbrev Forgotten : String → Type 0
  Forgotten key = drop_old self.window_seconds t (history key) ≡ []

  stale-Forgotten : Keys Forgotten stale
  stale-Forgotten =
      Keys-stale_keys (λ key last. Until last (history key)) Forgotten self.window_seconds t
        self.last_access
        (λ key last until old. drop_old-Until self.window_seconds last t (history key) until old)
        h.accessed

  pruned_recent :
      (key : String)
      → drop_old self.window_seconds t (events_of key (erase_all stale self.events))
        ≡ drop_old self.window_seconds t (history key)
  unfolding drop_old
  pruned_recent key = elim (lookup-erase_all Forgotten key stale self.events stale-Forgotten) [
    | inl kept ↦
        ap
          (λ (o : Option (List ℕ)).
            drop_old self.window_seconds t (elim o [ none ↦ [] | some l ↦ l ]))
          kept
        ∙ h.recent key
    | inr (gone, forgotten) ↦
        ap
          (λ (o : Option (List ℕ)).
            drop_old self.window_seconds t (elim o [ none ↦ [] | some l ↦ l ]))
          gone
        ∙ sym forgotten
  ]

  pub prune-Tracks : Tracks (prune_stale_keys self t) history t
  unfolding prune_stale_keys
  prune-Tracks = elim (Bool-cases (ltb t (self.last_prune + self.window_seconds))) [
    | inl early ↦ rw early h
    | inr due ↦ rw due (record {
      recent = pruned_recent;
      accessed =
          Entries-erase_all (λ key last. Until last (history key)) stale self.last_access
            h.accessed;
      distinct = Distinct-erase_all stale self.last_access h.distinct;
      past = h.past;
    })
  ]

pub prune-settings :
    (self : SlidingWindowRateLimiter) (t : ℕ)
    → ((prune_stale_keys self t).window_seconds ≡ self.window_seconds)
      × ((prune_stale_keys self t).max_events ≡ self.max_events)
unfolding prune_stale_keys
prune-settings self t = elim (Bool-cases (ltb t (self.last_prune + self.window_seconds))) [
  | inl early ↦ rw early (refl, refl)
  | inr due ↦ rw due (refl, refl)
]

module _ (self : SlidingWindowRateLimiter) (history : History) (key : String) (t : ℕ)
    (h : Tracks self history t) where
  abbrev current : List ℕ
  current = drop_old self.window_seconds t (events_of key self.events)

  granted_own : granted history key t key ≡ history key ++ t ∷ []
  granted_own = ground (arith, str_eq_iff key key)

  granted_other : (k : String) → str_eq k key ≡ false → granted history key t k ≡ history k
  granted_other k other = ground (arith, other, str_eq_iff k key, str_eq_iff key k)

  events_of-insert :
      (j : String) (v : List ℕ)
      → events_of j (insert key v self.events)
        ≡ (if str_eq key j then v else events_of j self.events)
  events_of-insert j v = ground (arith, lookup-insert key j v self.events)

  granted_accessed :
      Entries (λ k last. Until last (granted history key t k)) (insert key t self.last_access)
  granted_accessed =
      Entries-replace (λ k last. Until last (history k))
        (λ k last. Until last (granted history key t k)) key
        (λ k v other u. subst (Until v) (sym (granted_other k other)) u) t self.last_access
        (subst (Until t) (sym granted_own) (Until-append_one t (history key) (h.past key)))
        h.distinct h.accessed

  granted_past : (j : String) → Until t (granted history key t j)
  granted_past j = elim (Bool-cases (str_eq key j)) [
    | inl same ↦ rw same (Until-append_one t (history j) (h.past j))
    | inr other ↦ rw other (h.past j)
  ]

  denied_accessed : Entries (λ k last. Until last (history k)) (insert key t self.last_access)
  denied_accessed =
      Entries-replace (λ k last. Until last (history k)) (λ k last. Until last (history k)) key
        (λ k v other u. u) t self.last_access (h.past key) h.distinct h.accessed

  denied_recent :
      (j : String)
      → drop_old self.window_seconds t (events_of j (insert key current self.events))
        ≡ drop_old self.window_seconds t (history j)
  denied_recent j = elim (Bool-cases (str_eq key j)) [
    | inl same ↦
        rw (events_of-insert j current, same)
          (subst
            (λ k.
              drop_old self.window_seconds t current ≡ drop_old self.window_seconds t (history k))
            ((str_eq_iff key j).0 same)
            (drop_old-later self.window_seconds t t (events_of key self.events) (omega arith)
              ∙ h.recent key))
    | inr other ↦ rw (events_of-insert j current, other) (h.recent j)
  ]

  granted_recent :
      (j : String)
      → drop_old self.window_seconds t (events_of j (insert key (current ++ t ∷ []) self.events))
        ≡ drop_old self.window_seconds t (granted history key t j)
  granted_recent j = elim (Bool-cases (str_eq key j)) [
    | inl same ↦
        rw (events_of-insert j (current ++ t ∷ []), same)
          (subst
            (λ k.
              drop_old self.window_seconds t (current ++ t ∷ [])
              ≡ drop_old self.window_seconds t (history k ++ t ∷ []))
            ((str_eq_iff key j).0 same)
            (drop_old-append self.window_seconds t (events_of key self.events) (t ∷ [])
              ∙ same_append self.window_seconds t (events_of key self.events) (history key) (t ∷ [])
                  (h.recent key)))
    | inr other ↦ rw (events_of-insert j (current ++ t ∷ []), other) (h.recent j)
  ]

  -- the verdict of a limiter that remembers everything
  abbrev verdict : Bool
  verdict = ltb (length (drop_old self.window_seconds t (history key))) self.max_events

  pub admit-Tracks :
      ((admit self key t).0 ≡ verdict)
      × Tracks (admit self key t).1 (if verdict then granted history key t else history) t
      × ((admit self key t).1.window_seconds ≡ self.window_seconds)
      × ((admit self key t).1.max_events ≡ self.max_events)
  unfolding admit
  admit-Tracks = elim (Bool-cases (ltb (length current) self.max_events)) [
    | inl room ↦
        let verdict_true : verdict ≡ true =
          ap (λ l. ltb (length l) self.max_events) (sym (h.recent key)) ∙ room in
        rw (admit, room, verdict_true)
          (
            refl,
            record {
              recent = granted_recent;
              accessed = granted_accessed;
              distinct = Distinct-insert key t self.last_access h.distinct;
              past = granted_past;
            },
            refl,
            refl,
          )
    | inr full ↦
        let verdict_false : verdict ≡ false =
          ap (λ l. ltb (length l) self.max_events) (sym (h.recent key)) ∙ full in
        rw (admit, full, verdict_false)
          (
            refl,
            record {
              recent = denied_recent;
              accessed = denied_accessed;
              distinct = Distinct-insert key t self.last_access h.distinct;
              past = h.past;
            },
            refl,
            refl,
          )
  ]
