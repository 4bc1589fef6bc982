-- ===== src/Tests/TokenHealth.antt =====
-- Two sources: one fails twice in one bucket, the other fails and recovers.
use mathlib.Core.Path.{◌≡◌, refl}
use native.Mathlib.Decide.{ℕ_discrete}
use native.Mathlib.Omega.{arith}
use zions_light_ai.Prelude.{ℕ, ◌+◌, ◌*◌, ◌==◌, true, none, some, List, [], ◌∷◌}
use zions_light_ai.Prelude.Dict.{lookup}
use zions_light_ai.TokenHealth.{State, or_new, or_now, bucket_of, elapsed, source_health}
use zions_light_ai.TokenHealth.History.{
  Event, failure, success, after, streak, first_failure, last_failure, tracker_of, lookup-after,
  source_health-after, source_health-stale,
}

-- a number for each line of the log
abbrev log_key : ℕ → ℕ → ℕ → ℕ
log_key source key bucket = (source * 100 + key) * 1000 + bucket

abbrev calls : List (Event ℕ)
calls = failure 60 3000 1 7 ∷ success 2 ∷ failure 50 3000 2 7 ∷ failure 40 3000 1 7 ∷ []

abbrev state : State ℕ ℕ
state = after ℕ_discrete ℕ_discrete log_key calls

lookup-after_example : or_new (lookup ℕ_discrete 1 state.trackers) ≡ tracker_of ℕ_discrete 1 calls
lookup-after_example = lookup-after ℕ_discrete ℕ_discrete log_key 1 calls

source_health-after_example : source_health ℕ_discrete ℕ_discrete log_key 90 none 1 state ≡ record {
  is_ok = streak ℕ_discrete 1 calls == 0;
  consecutive_failures = streak ℕ_discrete 1 calls;
  degraded_since = first_failure ℕ_discrete 1 calls;
  degraded_for = elapsed 90 (first_failure ℕ_discrete 1 calls);
}
source_health-after_example = source_health-after ℕ_discrete ℕ_discrete log_key 90 1 calls

-- The failing source has been down since its first failure, at 40.
failing : (streak ℕ_discrete 1 calls ≡ 2) × (first_failure ℕ_discrete 1 calls ≡ some 40)
unfolding ℕ_discrete or_now
failing = (refl, refl)

last_failed : last_failure ℕ_discrete 1 calls ≡ some 60
unfolding ℕ_discrete
last_failed = refl

source_health-stale_example :
    (source_health ℕ_discrete ℕ_discrete log_key 400 (some 300) 1 state).is_ok ≡ true
source_health-stale_example =
    source_health-stale ℕ_discrete ℕ_discrete log_key 400 300 60 1 calls last_failed (omega arith)

same_bucket : bucket_of 70 3000 ≡ bucket_of 80 3000
unfolding bucket_of
same_bucket = refl
