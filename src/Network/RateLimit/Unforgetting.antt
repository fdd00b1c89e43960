-- ===== src/Network/RateLimit/Unforgetting.antt =====
-- The limiter against one that remembers everything that it has granted.
use easyblockchain.Prelude.{
  ℕ, suc, ◌+◌, ◌≤◌, ◌≡◌, ◌∙◌, refl, sym, ap, Bool, true, false, String, List, [], ◌∷◌, ◌++◌, length,
  ltb, if◌then◌else◌, arith, Bool-cases, inl, inr, subst, str_eq,
}
use easyblockchain.Network.RateLimit.{
  SlidingWindowRateLimiter, drop_old, allow, admit, prune_stale_keys, new_limiter,
}
use easyblockchain.Prelude.Dict.{lookup}
use easyblockchain.Network.RateLimit.Window.{Until}
use easyblockchain.Network.RateLimit.Tracking.{
  History, granted, Tracks, later-Tracks, prune-Tracks, prune-settings, admit-Tracks,
}

-- How many events are in the window that ends at `t`.
abbrev pub count_recent : ℕ → ℕ → List ℕ → ℕ
count_recent window t [] = 0
count_recent window t (e ∷ events) =
    let rest = count_recent window t events in if ltb (e + window) t then rest else suc rest

-- The answers of a limiter that remembers what it has granted, for ever: a request is granted when
-- fewer than `max_events` of the events that its key was granted are in the window.
abbrev pub unforgetting : ℕ → ℕ → History → List (String × ℕ) → List Bool
unforgetting max_events window history [] = []
unforgetting max_events window history ((key, t) ∷ requests) =
    let verdict = ltb (count_recent window t (history key)) max_events in
    verdict
    ∷ unforgetting max_events window (if verdict then granted history key t else history) requests

-- the answers of the code
abbrev pub answers : SlidingWindowRateLimiter → List (String × ℕ) → List Bool
answers self [] = []
answers self ((key, t) ∷ requests) = (allow self key t).0 ∷ answers (allow self key t).1 requests

-- The clock does not run backwards.
abbrev pub InOrder : ℕ → List (String × ℕ) → Type 0
InOrder now [] = Unit
InOrder now ((key, t) ∷ requests) = (now ≤ t) × InOrder t requests

abbrev From : ℕ → List ℕ → Type 0
From e [] = Unit
From e (x ∷ xs) = (e ≤ x) × From e xs

abbrev Ascending : List ℕ → Type 0
Ascending [] = Unit
Ascending (e ∷ events) = From e events × Ascending events

From-append_one : (e t : ℕ) (xs : List ℕ) → e ≤ t → From e xs → From e (xs ++ t ∷ [])
From-append_one e t [] le h = (le, tt)
From-append_one e t (x ∷ xs) le h = (h.0, From-append_one e t xs le h.1)

Ascending-append_one : (t : ℕ) (xs : List ℕ) → Until t xs → Ascending xs → Ascending (xs ++ t ∷ [])
Ascending-append_one t [] u h = (tt, tt)
Ascending-append_one t (x ∷ xs) u h =
    (From-append_one x t xs u.0 h.0, Ascending-append_one t xs u.1 h.1)

count_recent-From :
    (window t e : ℕ) (xs : List ℕ)
    → t ≤ e + window
    → From e xs
    → count_recent window t xs ≡ length xs
count_recent-From window t e [] le h = refl
count_recent-From window t e (x ∷ xs) le h =
    ground (arith, h.0, count_recent-From window t e xs le h.1)

length-drop_old :
    (window t : ℕ) (xs : List ℕ)
    → Ascending xs
    → length (drop_old window t xs) ≡ count_recent window t xs
unfolding drop_old
length-drop_old window t [] h = refl
length-drop_old window t (e ∷ xs) h = elim (Bool-cases (ltb (e + window) t)) [
  | inl old ↦ rw old (length-drop_old window t xs h.1)
  | inr fresh ↦
      rw fresh (ap suc (sym (count_recent-From window t e xs (ground (arith, fresh)) h.0)))
]

granted-Ascending :
    (history : History) (key : String) (t : ℕ) (verdict : Bool)
    → ((k : String) → Until t (history k))
    → ((k : String) → Ascending (history k))
    → (k : String) → Ascending ((if verdict then granted history key t else history) k)
granted-Ascending history key t false past up k = up k
granted-Ascending history key t true past up k = elim (Bool-cases (str_eq key k)) [
  | inl same ↦ rw same (Ascending-append_one t (history k) (past k) (up k))
  | inr other ↦ rw other (up k)
]

answers-eq :
    (max_events window : ℕ) (requests : List (String × ℕ)) (self : SlidingWindowRateLimiter)
    (history : History) (now : ℕ)
    → self.max_events ≡ max_events
    → self.window_seconds ≡ window
    → Tracks self history now
    → ((k : String) → Ascending (history k))
    → InOrder now requests
    → answers self requests ≡ unforgetting max_events window history requests
unfolding allow
answers-eq max_events window [] self history now m w h up order = refl
answers-eq max_events window ((key, t) ∷ requests) self history now m w h up order =
    let later = later-Tracks self history now t order.0 h in
    let pruned : SlidingWindowRateLimiter = prune_stale_keys self t in
    let (pw, pm) = prune-settings self t in
    let (answer, tracks, same_window, same_max) =
      admit-Tracks pruned history key t (prune-Tracks self history t later) in
    let same_verdict : ltb (length (drop_old pruned.window_seconds t (history key)))
          pruned.max_events
        ≡ ltb (count_recent window t (history key)) max_events =
      ap (λ x. ltb (length (drop_old x t (history key))) pruned.max_events) (pw ∙ w)
      ∙ ap (λ n. ltb (length (drop_old window t (history key))) n) (pm ∙ m)
      ∙ ap (λ n. ltb n max_events) (length-drop_old window t (history key) (up key)) in
    let verdict : Bool = ltb (count_recent window t (history key)) max_events in
    let next : SlidingWindowRateLimiter = (admit pruned key t).1 in
    ap (λ b. b ∷ answers next requests) (answer ∙ same_verdict)
    ∙ ap (λ l. verdict ∷ l)
        (answers-eq max_events window requests next
          (if verdict then granted history key t else history) t (same_max ∙ pm ∙ m)
          (same_window ∙ pw ∙ w)
          (subst (λ b. Tracks next (if b then granted history key t else history) t) same_verdict
            tracks)
          (granted-Ascending history key t verdict later.past up) order.1)

-- On requests in the order of time, the limiter answers exactly as one that never forgets what it has
-- granted: neither the pruning of the keys nor the removal of old events changes an answer.
pub answers-unforgetting :
    (max_events window : ℕ) (requests : List (String × ℕ))
    → InOrder 0 requests
    → answers (new_limiter max_events window) requests
      ≡ unforgetting max_events window (λ key. []) requests
unfolding new_limiter lookup
answers-unforgetting max_events window requests order =
    answers-eq max_events window requests (new_limiter max_events window) (λ key. []) 0 refl refl
      (record { recent = λ key. refl; accessed = tt; distinct = tt; past = λ key. tt }) (λ key. tt)
      order
