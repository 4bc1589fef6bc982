-- ===== src/TokenHealth.antt =====
-- compactor/tokenhealth.py: the failure streaks of the callers of /tokenize. Times are in tenths of
-- a second on a clock that does not run backwards. Sources, failure classes and the text of a log
-- key are left open: `log_key` is the f-string that names a source, a class and a time bucket.
pub mod History
use zions_light_ai.Prelude.{
  ℕ, zero, suc, ◌+◌, ◌-◌, ◌/◌, Bool, true, false, Option, none, some, List, [], ◌&&◌, ltb, ◌==◌,
  if◌then◌else◌,
}
use zions_light_ai.Prelude.Dict.{lookup, put}
use zions_light_ai.Logsetup.{log_once}

pub record Tracker : Type 0 where
  pub fail_streak : ℕ
  pub last_fail_at : Option ℕ
  pub degraded_since : Option ℕ

abbrev pub new_tracker : Tracker
new_tracker = record { fail_streak = 0; last_fail_at = none; degraded_since = none }

-- the module's globals: `_trackers`, and the keys that logsetup has seen
pub record State (K L : Type 0) : Type 0 where
  pub trackers : List (K × Tracker)
  pub logged : List L

pub record Health : Type 0 where
  pub is_ok : Bool
  pub consecutive_failures : ℕ
  pub degraded_since : Option ℕ
  pub degraded_for : ℕ

unfoldable pub or_new : Option Tracker → Tracker
or_new none = new_tracker
or_new (some t) = t

unfoldable pub or_now : ℕ → Option ℕ → Option ℕ
or_now now none = some now
or_now now (some since) = some since

unfoldable pub failed : ℕ → Tracker → Tracker
unfolding or_now
failed now t = record {
  fail_streak = t.fail_streak + 1;
  last_fail_at = some now;
  degraded_since = or_now now t.degraded_since;
}

unfoldable pub elapsed : ℕ → Option ℕ → ℕ
elapsed now none = 0
elapsed now (some since) = now - since

-- `warn_interval_s > 0` decides whether time is cut into buckets
unfoldable pub bucket_of : ℕ → ℕ → ℕ
bucket_of now zero = 0
bucket_of now (suc interval) = now / suc interval

unfoldable pub is_stale : ℕ → Option ℕ → Tracker → Bool
is_stale now none t = false
is_stale now (some stale_after) t = elim t.last_fail_at [
  | none ↦ false
  | some at ↦ ltb 0 t.fail_streak && ltb stale_after (now - at)
]

unfoldable pub health_of : ℕ → Option ℕ → Option Tracker → Health
unfolding is_stale elapsed
health_of now stale_after none = record {
  is_ok = true;
  consecutive_failures = 0;
  degraded_since = none;
  degraded_for = 0;
}
health_of now stale_after (some t) =
    let stale = is_stale now stale_after t in
    let effective : ℕ = if stale then 0 else t.fail_streak in
    record {
      is_ok = effective == 0;
      consecutive_failures = effective;
      degraded_since = if stale then none else t.degraded_since;
      degraded_for = if stale then 0 else elapsed now t.degraded_since;
    }

module _ {K L : Type 0} (dec : Discrete K) (dec_log : Discrete L) (log_key : K → K → ℕ → L) where
  -- `_get` creates the tracker of a new source. The message carries the streak and the time since
  -- the first failure of the streak.
  unfoldable pub note_failure : ℕ → ℕ → K → K → State K L → State K L × Option (ℕ × ℕ)
  unfolding or_new failed bucket_of elapsed
  note_failure now warn_interval source key s =
      let t = failed now (or_new (lookup dec source s.trackers)) in
      let (due, logged) =
        log_once dec_log (log_key source key (bucket_of now warn_interval)) s.logged in
      (
        record { trackers = put dec source t s.trackers; logged = logged },
        if due then some (t.fail_streak, elapsed now t.degraded_since) else none,
      )

  unfoldable pub recovered : K → Option Tracker → State K L → State K L × Option ℕ
  recovered source none s = (s, none)
  recovered source (some t) s =
      if t.fail_streak == 0
      then (s, none)
      else (record s { trackers = put dec source new_tracker s.trackers }, some t.fail_streak)

  -- The message carries the number of failures.
  unfoldable pub note_success : K → State K L → State K L × Option ℕ
  unfolding recovered
  note_success source s = recovered source (lookup dec source s.trackers) s

  unfoldable pub source_health : ℕ → Option ℕ → K → State K L → Health
  source_health now stale_after source s = health_of now stale_after (lookup dec source s.trackers)
