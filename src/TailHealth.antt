-- ===== src/TailHealth.antt =====
-- compactor/tailhealth.py: the ledger of the memory tail's decisions. Times are monotonic, in tenths
-- of a second, so that `round(..., 1)` is exact; the calls of the clock in one function agree.
pub mod Ledger
pub mod History
use mathlib.Core.Logic.{ite}
unfoldable use native.Mathlib.Decide.{ℕ_discrete}
use zions_light_ai.Prelude.{
  ℕ, zero, suc, ◌+◌, ◌-◌, ◌<◌, Bool, true, false, not, ◌&&◌, Option, none, some, List, [], ◌∷◌, leb,
  ltb, ◌==◌, if◌then◌else◌, map,
}
use zions_light_ai.Prelude.Int.{ℤ, pos_part}
use zions_light_ai.Prelude.Dict.{put, count}

-- `unknown` is a label outside OUTCOMES, which `note` counts under its own name.
pub data Outcome : Type 0 where
  stored stored_trimmed skipped_holed skipped_empty skipped_degenerate skipped_no_boundary : Outcome
  skipped_too_short skipped_degenerate_partial skipped_disk_pressure skipped_no_user_text : Outcome
  skipped_task_traffic skipped_shed : Outcome
  unknown : ℕ → Outcome

unfoldable pub Outcome-discrete : Discrete Outcome
Outcome-discrete = hlevel ℕ_discrete

-- STORING_OUTCOMES
unfoldable pub is_storing : Outcome → Bool
is_storing stored = true
is_storing stored_trimmed = true
is_storing _ = false

-- HARMLESS_SKIP_OUTCOMES
unfoldable pub is_harmless : Outcome → Bool
is_harmless skipped_empty = true
is_harmless skipped_task_traffic = true
is_harmless _ = false

unfoldable pub is_empty_skip : Outcome → Bool
is_empty_skip skipped_empty = true
is_empty_skip _ = false

unfoldable pub is_trimmed : Outcome → Bool
is_trimmed stored_trimmed = true
is_trimmed _ = false

pub record State : Type 0 where
  pub outcomes : List (Outcome × ℕ)
  pub stored_count : ℕ
  pub skipped : ℕ
  pub raw_chars : ℕ
  pub kept_chars : ℕ
  pub trimmed_raw_chars : ℕ
  pub trimmed_kept_chars : ℕ
  pub consecutive_skips : ℕ
  pub last_skip_at : Option ℕ
  pub last_skip_outcome : Option Outcome
  pub last_lossy_skip_at : Option ℕ
  pub consecutive_empty : ℕ

-- OUTCOMES, each counted zero times
abbrev all_outcomes : List Outcome
all_outcomes =
    stored ∷ stored_trimmed ∷ skipped_holed ∷ skipped_empty ∷ skipped_degenerate
    ∷ skipped_no_boundary ∷ skipped_too_short ∷ skipped_degenerate_partial ∷ skipped_disk_pressure
    ∷ skipped_no_user_text ∷ skipped_task_traffic ∷ skipped_shed ∷ []

unfoldable pub init : State
init = record {
  outcomes = map (λ o. (o, 0)) all_outcomes;
  stored_count = 0;
  skipped = 0;
  raw_chars = 0;
  kept_chars = 0;
  trimmed_raw_chars = 0;
  trimmed_kept_chars = 0;
  consecutive_skips = 0;
  last_skip_at = none;
  last_skip_outcome = none;
  last_lossy_skip_at = none;
  consecutive_empty = 0;
}

-- `none` is an argument that `int` refuses.
unfoldable pub safe_int : Option ℤ → ℕ
safe_int none = 0
safe_int (some v) = pos_part v

-- the two arms of `note`'s first `if`
unfoldable pub note_stored : Outcome → ℕ → ℕ → State → State
unfolding is_trimmed
note_stored outcome raw kept s = record s {
  stored_count = s.stored_count + 1;
  kept_chars = s.kept_chars + kept;
  trimmed_raw_chars = if is_trimmed outcome then s.trimmed_raw_chars + raw else s.trimmed_raw_chars;
  trimmed_kept_chars =
      if is_trimmed outcome then s.trimmed_kept_chars + kept else s.trimmed_kept_chars;
  consecutive_skips = 0;
}

unfoldable pub note_skipped : ℕ → Outcome → State → State
unfolding is_storing is_harmless
note_skipped now outcome s = record s {
  skipped = s.skipped + 1;
  consecutive_skips = s.consecutive_skips + 1;
  last_skip_at = some now;
  last_skip_outcome = some outcome;
  last_lossy_skip_at =
      if not (is_storing outcome) && not (is_harmless outcome)
      then some now
      else s.last_lossy_skip_at;
}

-- The result is the streak in the message about consecutive skips.
unfoldable pub note : ℕ → Outcome → Option ℤ → Option ℤ → State → State × Option ℕ
unfolding safe_int note_stored note_skipped is_empty_skip
note now outcome raw_chars kept_chars s =
    let raw = safe_int raw_chars in
    let kept = safe_int kept_chars in
    let s₁ = record s { raw_chars = s.raw_chars + raw } in
    let s₂ =
      if is_storing outcome then note_stored outcome raw kept s₁ else note_skipped now outcome s₁ in
    let s₃ = record s₂ {
      consecutive_empty = if is_empty_skip outcome then s₂.consecutive_empty + 1 else 0;
    } in
    (
      record s₃ {
        outcomes =
            put Outcome-discrete outcome (count Outcome-discrete outcome s₃.outcomes + 1)
              s₃.outcomes;
      },
      if is_storing outcome then none else some s₂.consecutive_skips,
    )

unfoldable pub move : Outcome → Outcome → List (Outcome × ℕ) → List (Outcome × ℕ)
move was now d =
    let d' = put Outcome-discrete was (count Outcome-discrete was d - 1) d in
    put Outcome-discrete now (count Outcome-discrete now d' + 1) d'

unfoldable pub note_correction : ℕ → Outcome → Outcome → State → State
unfolding move is_storing is_harmless
note_correction at was now s =
    if leb (count Outcome-discrete was s.outcomes) 0
    then s
    else let s₁ = record s { outcomes = move was now s.outcomes } in
      if is_storing was && not (is_storing now)
      then record s₁ {
        stored_count = s₁.stored_count - 1;
        skipped = s₁.skipped + 1;
        consecutive_skips = s₁.consecutive_skips + 1;
        last_skip_at = some at;
        last_skip_outcome = some now;
        last_lossy_skip_at = if is_harmless now then s₁.last_lossy_skip_at else some at;
      }
      else s₁

abbrev pub empty_run_degrade : ℕ
empty_run_degrade = 10

unfoldable pub since : ℕ → Option ℕ → Option ℕ
since now none = none
since now (some at) = some (now - at)

unfoldable pub within : ℕ → Option ℕ → Bool
within window none = false
within window (some age) = leb age window

-- `window_s` counts only where it is a positive number
unfoldable pub window_of : ℕ → Option ℕ → ℕ
window_of default none = default
window_of default (some zero) = default
window_of default (some (suc w)) = suc w

-- The fields of `snapshot` that are computed; the others are the state's own.
pub record Snapshot : Type 0 where
  pub since_skip : Option ℕ
  pub since_lossy : Option ℕ
  pub skipped_recently : Bool
  pub skip_window : ℕ
  pub empty_replies_degraded : Bool
  pub trim_retention : Option (ℕ × ℕ)

-- `trim_retention` is a fraction, its numerator before its denominator.
unfoldable pub snapshot : ℕ → ℕ → Option ℕ → State → Snapshot
unfolding since within window_of
snapshot now default window_s s =
    let window = window_of default window_s in
    record {
      since_skip = since now s.last_skip_at;
      since_lossy = since now s.last_lossy_skip_at;
      skipped_recently = within window (since now s.last_lossy_skip_at);
      skip_window = window;
      empty_replies_degraded = leb empty_run_degrade s.consecutive_empty;
      trim_retention =
          if s.trimmed_raw_chars == 0
          then none
          else some (s.trimmed_kept_chars, s.trimmed_raw_chars);
    }
