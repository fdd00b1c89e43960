-- ===== src/Network/RateLimit.antt =====
-- useful_blockchain/network/rate_limit.py: class SlidingWindowRateLimiter. Times are natural numbers
-- on the monotonic clock's scale; what the code compares to `t - window` is here moved to the other
-- side, `x + window` to `t`.
pub mod Window
pub mod Entries
pub mod Tracking
pub mod Unforgetting
use easyblockchain.Prelude.{
  ℕ, ◌+◌, Bool, true, false, String, Option, none, some, List, [], ◌∷◌, ◌++◌, length, ltb,
  if◌then◌else◌,
}
use easyblockchain.Prelude.Dict.{Dict, lookup, insert, erase}

pub record SlidingWindowRateLimiter : Type 0 where
  pub max_events : ℕ
  pub window_seconds : ℕ
  pub events : Dict (List ℕ)
  pub last_access : Dict ℕ
  pub last_prune : ℕ

unfoldable pub new_limiter : ℕ → ℕ → SlidingWindowRateLimiter
new_limiter max_events window_seconds = record {
  max_events = max_events;
  window_seconds = window_seconds;
  events = [];
  last_access = [];
  last_prune = 0;
}

-- the events of a key, where a missing key has none
abbrev pub events_of : String → Dict (List ℕ) → List ℕ
events_of key d = elim (lookup key d) [ none ↦ [] | some events ↦ events ]

-- `while events and events[0] < cutoff: events.popleft()`
unfoldable pub drop_old : ℕ → ℕ → List ℕ → List ℕ
drop_old window current [] = []
drop_old window current (e ∷ events) =
    let rest = drop_old window current events in
    if ltb (e + window) current then rest else e ∷ events

-- the keys whose last access is before the cut-off
unfoldable pub stale_keys : ℕ → ℕ → Dict ℕ → List String
stale_keys window current [] = []
stale_keys window current ((key, last) ∷ d) =
    let rest = stale_keys window current d in
    if ltb (last + window) current then key ∷ rest else rest

unfoldable pub erase_all {ℓ} : {V : Type ℓ} → List String → Dict V → Dict V
erase_all [] d = d
erase_all (key ∷ keys) d = erase_all keys (erase key d)

-- `_prune_stale_keys`
unfoldable pub prune_stale_keys : SlidingWindowRateLimiter → ℕ → SlidingWindowRateLimiter
unfolding stale_keys erase_all
prune_stale_keys self current =
    if ltb current (self.last_prune + self.window_seconds)
    then self
    else let stale = stale_keys self.window_seconds current self.last_access in
      record self {
        last_prune = current;
        events = erase_all stale self.events;
        last_access = erase_all stale self.last_access;
      }

-- what follows the pruning in `allow`
unfoldable pub admit : SlidingWindowRateLimiter → String → ℕ → Bool × SlidingWindowRateLimiter
admit self key current =
    let recent = drop_old self.window_seconds current (events_of key self.events) in
    let accessed = record self { last_access = insert key current self.last_access } in
    if ltb (length recent) self.max_events
    then (true, record accessed { events = insert key (recent ++ current ∷ []) self.events })
    else (false, record accessed { events = insert key recent self.events })

-- `allow(key, now)`
unfoldable pub allow : SlidingWindowRateLimiter → String → ℕ → Bool × SlidingWindowRateLimiter
allow self key current = admit (prune_stale_keys self current) key current

unfoldable pub reset : SlidingWindowRateLimiter → String → SlidingWindowRateLimiter
reset self key = record self {
  events = erase key self.events;
  last_access = erase key self.last_access;
}
