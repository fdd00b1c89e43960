-- ===== src/Network/Reconnect.antt =====
-- useful_blockchain/network/reconnect.py: class ReconnectManager. Times are natural numbers; the
-- delay, which the code computes with floats, is a function of the number of failures.
pub mod History
use easyblockchain.Prelude.{
  ℕ, suc, ◌+◌, ◌≡◌, Bool, true, false, not, ◌&&◌, String, Option, none, some, List, [], ◌∷◌, leb,
  ltb, if◌then◌else◌,
}
use easyblockchain.Prelude.Dict.{Dict, lookup, insert, erase}

pub record Backoff : Type 0 where
  pub enabled : Bool
  pub max_attempts : ℕ
  -- `min(initial * multiplier ** exponent, max_delay)` after so many failures
  pub delay : ℕ → ℕ

-- A time to try again, or infinity.
pub data RetryAt : Type 0 where
  at : ℕ → RetryAt
  never : RetryAt

pub record ReconnectManager : Type 0 where
  pub settings : Backoff
  pub attempts : Dict ℕ
  pub next_retry_at : Dict RetryAt

unfoldable pub new_manager : Backoff → ReconnectManager
new_manager settings = record { settings = settings; attempts = []; next_retry_at = [] }

abbrev pub or_zero : Option ℕ → ℕ
or_zero none = 0
or_zero (some n) = n

-- `self._attempts.get(url, 0)`
abbrev pub attempts_of : String → Dict ℕ → ℕ
attempts_of url d = or_zero (lookup url d)

-- when to try again after so many failures
abbrev pub retry_time : Backoff → ℕ → ℕ → RetryAt
retry_time settings attempts now =
    if ltb 0 settings.max_attempts && leb settings.max_attempts attempts
    then never
    else at (now + settings.delay attempts)

unfoldable pub record_failure : ReconnectManager → String → ℕ → ReconnectManager
record_failure self url now =
    if not self.settings.enabled
    then self
    else (let attempts = suc (attempts_of url self.attempts) in
        record self {
          attempts = insert url attempts self.attempts;
          next_retry_at = insert url (retry_time self.settings attempts now) self.next_retry_at;
        })

-- `record_success`, and `clear`
unfoldable pub record_success : ReconnectManager → String → ReconnectManager
record_success self url = record self {
  attempts = erase url self.attempts;
  next_retry_at = erase url self.next_retry_at;
}

abbrev pub has_come : Option RetryAt → ℕ → Bool
has_come none now = true
has_come (some never) now = false
has_come (some (at time)) now = leb time now

unfoldable pub should_retry : ReconnectManager → String → ℕ → Bool
should_retry self url now =
    if not self.settings.enabled then true else has_come (lookup url self.next_retry_at) now

-- What the node reports: a failure of a URL at a time, or a success.
pub data Report : Type 0 where
  failed : String → ℕ → Report
  succeeded : String → Report

abbrev pub report_one : ReconnectManager → Report → ReconnectManager
report_one self (failed url now) = record_failure self url now
report_one self (succeeded url) = record_success self url

abbrev pub report_all : ReconnectManager → List Report → ReconnectManager
report_all self [] = self
report_all self (r ∷ reports) = report_all (report_one self r) reports
