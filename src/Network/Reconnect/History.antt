-- ===== src/Network/Reconnect/History.antt =====
-- When a URL is tried again: the manager against the history of its reports.
use easyblockchain.Prelude.{
  ℕ, zero, suc, ◌≡◌, ◌∙◌, refl, ap, sym, true, false, not, Bool-cases, inl, inr, String, Option,
  none, some, List, [], ◌∷◌, str_eq, str_eq_refl, str_eq_iff, subst, if◌then◌else◌,
}
use easyblockchain.Prelude.Dict.{Dict, lookup, insert, erase, lookup-insert, lookup-erase}
use easyblockchain.Network.Reconnect.{
  Backoff, RetryAt, ReconnectManager, new_manager, attempts_of, or_zero, retry_time, record_failure,
  record_success, has_come, should_retry, Report, failed, succeeded, report_one, report_all,
}

-- The failures of a URL since its last success, and the time of the last of them.
pub record Failures : Type 0 where
  pub failures : ℕ
  pub last : ℕ

abbrev pub no_history : Failures
no_history = record { failures = 0; last = 0 }

abbrev pub history_after : String → List Report → Failures → Failures
history_after url [] h = h
history_after url (failed other now ∷ reports) h =
    history_after url reports
      (if str_eq other url then record { failures = suc h.failures; last = now } else h)
history_after url (succeeded other ∷ reports) h =
    history_after url reports (if str_eq other url then no_history else h)

-- when a URL with this history is tried again: at once without failures
abbrev pub planned : Backoff → Failures → Option RetryAt
planned settings h = elim h.failures [
  | zero ↦ none
  | suc n ↦ some (retry_time settings (suc n) h.last)
]

module _ {V : Type 0} (d : Dict V) (other url : String) where
  lookup-insert_same : (v : V) → str_eq other url ≡ true → lookup url (insert other v d) ≡ some v
  lookup-insert_same v e = lookup-insert other url v d ∙ rw e refl

  lookup-insert_other :
      (v : V) → str_eq other url ≡ false → lookup url (insert other v d) ≡ lookup url d
  lookup-insert_other v e = lookup-insert other url v d ∙ rw e refl

  lookup-erase_same : str_eq other url ≡ true → lookup url (erase other d) ≡ none
  lookup-erase_same e = lookup-erase other url d ∙ rw e refl

  lookup-erase_other : str_eq other url ≡ false → lookup url (erase other d) ≡ lookup url d
  lookup-erase_other e = lookup-erase other url d ∙ rw e refl

record Follows (self : ReconnectManager) (url : String) (h : Failures) : Type 0 where
  counted : attempts_of url self.attempts ≡ h.failures
  stored : lookup url self.next_retry_at ≡ planned self.settings h

-- the manager after a failure, where it is enabled
abbrev failed_manager : ReconnectManager → String → ℕ → ReconnectManager
failed_manager self url now = record self {
  attempts = insert url (suc (attempts_of url self.attempts)) self.attempts;
  next_retry_at =
      insert url (retry_time self.settings (suc (attempts_of url self.attempts)) now)
        self.next_retry_at;
}

record_failure-failed_manager :
    (self : ReconnectManager) (url : String) (now : ℕ)
    → self.settings.enabled ≡ true
    → record_failure self url now ≡ failed_manager self url now
unfolding record_failure
record_failure-failed_manager self url now e =
    ap (λ t. if not t then self else failed_manager self url now) e

same_url :
    (self : ReconnectManager) (url : String) (now : ℕ) (h : Failures)
    → Follows self url h
    → Follows (failed_manager self url now) url (record { failures = suc h.failures; last = now })
same_url self url now h f = record {
  counted =
      ap or_zero (lookup-insert_same self.attempts url url _ (str_eq_refl url)) ∙ ap suc f.counted;
  stored =
      lookup-insert_same self.next_retry_at url url _ (str_eq_refl url)
      ∙ ap (λ n. some (retry_time self.settings (suc n) now)) f.counted;
}

other_url :
    (self : ReconnectManager) (url other : String) (now : ℕ) (h : Failures)
    → str_eq other url ≡ false
    → Follows self url h
    → Follows (failed_manager self other now) url h
other_url self url other now h e f = record {
  counted = ap or_zero (lookup-insert_other self.attempts other url _ e) ∙ f.counted;
  stored = lookup-insert_other self.next_retry_at other url _ e ∙ f.stored;
}

success-Follows :
    (self : ReconnectManager) (url other : String) (h : Failures)
    → Follows self url h
    → Follows (record_success self other) url (if str_eq other url then no_history else h)
unfolding record_success
success-Follows self url other h f = elim (Bool-cases (str_eq other url)) [
  | inl e ↦ rw e (record {
    counted = ap or_zero (lookup-erase_same self.attempts other url e);
    stored = lookup-erase_same self.next_retry_at other url e;
  })
  | inr e ↦ rw e (record {
    counted = ap or_zero (lookup-erase_other self.attempts other url e) ∙ f.counted;
    stored = lookup-erase_other self.next_retry_at other url e ∙ f.stored;
  })
]

failure-Follows :
    (self : ReconnectManager) (url other : String) (now : ℕ) (h : Failures)
    → self.settings.enabled ≡ true
    → Follows self url h
    → Follows
        (record_failure self other now)
        url
        (if str_eq other url then record { failures = suc h.failures; last = now } else h)
failure-Follows self url other now h on f =
    rw (record_failure-failed_manager self other now on) (elim (Bool-cases (str_eq other url)) [
      | inl e ↦ rw e (
          subst
            (λ o.
              Follows (failed_manager self o now) url
                (record { failures = suc h.failures; last = now }))
            (sym ((str_eq_iff other url).0 e)) (same_url self url now h f))
      | inr e ↦ rw e (other_url self url other now h e f)
    ])

kept_settings :
    (self : ReconnectManager) (r : Report) → (report_one self r).settings ≡ self.settings
unfolding record_failure record_success
kept_settings self (succeeded url) = refl
kept_settings self (failed url now) = elim (Bool-cases self.settings.enabled) [
  | inl e ↦ ap (λ (m : ReconnectManager). m.settings) (record_failure-failed_manager self url now e)
  | inr e ↦ ap (λ t. (if not t then self else failed_manager self url now).settings) e
]

module _ (settings : Backoff) (on : settings.enabled ≡ true) where
  -- what is due for a URL by what the manager has stored, and by the history
  report_all-planned :
      (self : ReconnectManager) (url : String) (reports : List Report) (h : Failures)
      → self.settings ≡ settings
      → Follows self url h
      → lookup url (report_all self reports).next_retry_at
        ≡ planned settings (history_after url reports h)
  report_all-planned self url [] h same f = f.stored ∙ ap (λ s. planned s h) same
  report_all-planned self url (failed other now ∷ reports) h same f =
      report_all-planned (record_failure self other now) url reports _
        (kept_settings self (failed other now) ∙ same)
        (failure-Follows self url other now h (ap (λ (s : Backoff). s.enabled) same ∙ on) f)
  report_all-planned self url (succeeded other ∷ reports) h same f =
      report_all-planned (record_success self other) url reports _
        (kept_settings self (succeeded other) ∙ same) (success-Follows self url other h f)

  report_all-settings :
      (self : ReconnectManager) (reports : List Report)
      → (report_all self reports).settings ≡ self.settings
  report_all-settings self [] = refl
  report_all-settings self (r ∷ reports) =
      report_all-settings (report_one self r) reports ∙ kept_settings self r

  -- Where reconnection is enabled, whether a URL is tried again depends only on its own failures
  -- since its last success: at once without any, never again from the configured number of failures
  -- on if that number is positive, and otherwise once the delay for the failures so far has passed
  -- since the last of them.
  pub should_retry-history :
      (url : String) (reports : List Report) (now : ℕ)
      → should_retry (report_all (new_manager settings) reports) url now
        ≡ has_come (planned settings (history_after url reports no_history)) now
  unfolding should_retry new_manager lookup
  should_retry-history url reports now =
      ap
        (λ (s : Backoff).
          if not s.enabled
          then true
          else has_come (lookup url (report_all (new_manager settings) reports).next_retry_at) now)
        (report_all-settings (new_manager settings) reports)
      ∙ ap
          (λ t.
            if not t
            then true
            else has_come (lookup url (report_all (new_manager settings) reports).next_retry_at)
                now)
          on
      ∙ ap (λ o. has_come o now)
          (report_all-planned (new_manager settings) url reports no_history refl
            (record { counted = refl; stored = refl }))
