-- ===== src/TokenHealth/History.antt =====
-- compactor/tokenhealth.py: what /health reports of a source, against the history of its calls, and
-- the rate limit of the log lines.
use mathlib.Core.Logic.{ite}
use zions_light_ai.Prelude.{
  ℕ, ◌+◌, ◌<◌, ◌-◌, ◌≡◌, refl, ap, ◌∙◌, true, Option, none, some, List, [], ◌∷◌, ◌==◌, arith,
}
use zions_light_ai.Prelude.Dict.{lookup, lookup-put}
use zions_light_ai.Logsetup.{log_once, contains-log_once}
use zions_light_ai.TokenHealth.{
  Tracker, new_tracker, State, Health, or_new, or_now, failed, bucket_of, elapsed, health_of,
  note_failure, note_success, source_health,
}

pub data Event (K : Type 0) : Type 0 where
  failure : ℕ → ℕ → K → K → Event K
  success : K → Event K

abbrev known_health : ℕ → Tracker → Health
known_health now t = record {
  is_ok = t.fail_streak == 0;
  consecutive_failures = t.fail_streak;
  degraded_since = t.degraded_since;
  degraded_for = elapsed now t.degraded_since;
}

health_of-or_new :
    (now : ℕ) (o : Option Tracker) → health_of now none o ≡ known_health now (or_new o)
unfolding health_of or_new
health_of-or_new now none = refl
health_of-or_new now (some t) = refl

stale_is_ok :
    (now limit at : ℕ) (o : Option Tracker)
    → (or_new o).last_fail_at ≡ some at
    → limit < now - at
    → (health_of now (some limit) o).is_ok ≡ true
unfolding health_of or_new
stale_is_ok now limit at none h late = refl
stale_is_ok now limit at (some t) h late = ground arith

module _ {K L : Type 0} (dec : Discrete K) (dec_log : Discrete L) (log_key : K → K → ℕ → L) where
  -- the state after a history, its newest event first
  unfoldable pub after : List (Event K) → State K L
  after [] = record { trackers = []; logged = [] }
  after (failure now interval source key ∷ es) =
      (note_failure dec dec_log log_key now interval source key (after es)).0
  after (success source ∷ es) = (note_success dec dec_log log_key source (after es)).0

module _ {K : Type 0} (dec : Discrete K) where
  -- the failures of a source since its last success, and when the first and the last of them were
  abbrev pub streak : K → List (Event K) → ℕ
  streak s [] = 0
  streak s (failure now _ source _ ∷ es) = ite (dec source s) (streak s es + 1) (streak s es)
  streak s (success source ∷ es) = ite (dec source s) 0 (streak s es)

  abbrev pub first_failure : K → List (Event K) → Option ℕ
  first_failure s [] = none
  first_failure s (failure now _ source _ ∷ es) =
      ite (dec source s) (or_now now (first_failure s es)) (first_failure s es)
  first_failure s (success source ∷ es) = ite (dec source s) none (first_failure s es)

  abbrev pub last_failure : K → List (Event K) → Option ℕ
  last_failure s [] = none
  last_failure s (failure now _ source _ ∷ es) = ite (dec source s) (some now) (last_failure s es)
  last_failure s (success source ∷ es) = ite (dec source s) none (last_failure s es)

  abbrev pub tracker_of : K → List (Event K) → Tracker
  tracker_of s es = record {
    fail_streak = streak s es;
    last_fail_at = last_failure s es;
    degraded_since = first_failure s es;
  }

  -- a tracker whose streak is empty remembers no time
  quiet_streak :
      (s : K) (es : List (Event K))
      → streak s es ≡ 0
      → (first_failure s es ≡ none) × (last_failure s es ≡ none)
  quiet_streak s [] h = (refl, refl)
  quiet_streak s (failure now i source key ∷ es) h = ground (arith, quiet_streak s es)
  quiet_streak s (success source ∷ es) h = ground (arith, quiet_streak s es)

  module _ {L : Type 0} (dec_log : Discrete L) (log_key : K → K → ℕ → L) where
    -- Whatever the history, the tracker of every source holds the failures since that source's last
    -- success and the times of the first and the last of them, whatever other sources did.
    pub lookup-after :
        (s : K) (es : List (Event K))
        → or_new (lookup dec s (after dec dec_log log_key es).trackers) ≡ tracker_of s es
    unfolding after note_failure note_success or_new lookup
    lookup-after s [] = refl
    lookup-after s (failure now i source key ∷ es) = ground (
      arith,
      lookup-after s es,
      lookup-put dec source s
          (failed now (or_new (lookup dec source (after dec dec_log log_key es).trackers)))
          (after dec dec_log log_key es).trackers,
    )
    lookup-after s (success source ∷ es) = ground (
      arith,
      lookup-after s es,
      quiet_streak s es,
      lookup-put dec source s new_tracker (after dec dec_log log_key es).trackers,
    )

    -- For a source that is asked about without a staleness limit, health is reported exactly when no
    -- failure has come since the last success, with their number and the time of the first.
    pub source_health-after :
        (now : ℕ) (s : K) (es : List (Event K))
        → source_health dec dec_log log_key now none s (after dec dec_log log_key es) ≡ record {
          is_ok = streak s es == 0;
          consecutive_failures = streak s es;
          degraded_since = first_failure s es;
          degraded_for = elapsed now (first_failure s es);
        }
    unfolding source_health health_of or_new
    source_health-after now s es =
        health_of-or_new now (lookup dec s (after dec dec_log log_key es).trackers)
        ∙ ap (known_health now) (lookup-after s es)

    -- With a limit, failures whose last is older than the limit are reported as health.
    pub source_health-stale :
        (now limit at : ℕ) (s : K) (es : List (Event K))
        → last_failure s es ≡ some at
        → limit < now - at
        → (source_health dec dec_log log_key now
            (some limit)
            s
            (after dec dec_log log_key es)).is_ok
          ≡ true
    unfolding source_health health_of or_new
    source_health-stale now limit at s es h late =
        stale_is_ok now limit at (lookup dec s (after dec dec_log log_key es).trackers)
          (ap (λ t. t.last_fail_at) (lookup-after s es) ∙ h) late

    -- Two failures of one source and class in one time bucket give at most one log line, and the
    -- failure is counted both times.
    pub note_failure-note_failure :
        (now later interval : ℕ) (source key : K) (st : State K L)
        → bucket_of now interval ≡ bucket_of later interval
        → (note_failure dec dec_log log_key later interval source key
            (note_failure dec dec_log log_key now interval source key st).0).1
          ≡ none
    unfolding note_failure log_once
    note_failure-note_failure now later interval source key st e =
        ground
          (arith, contains-log_once dec_log (log_key source key (bucket_of now interval)) st.logged)
