-- ===== src/TailHealth/History.antt =====
-- compactor/tailhealth.py: the streaks and the window, against the history of the decisions.
use zions_light_ai.Prelude.{
  ℕ, suc, ◌≡◌, refl, Bool, not, ◌&&◌, Option, none, some, List, [], ◌∷◌, leb, if◌then◌else◌, sum_by,
  arith,
}
use zions_light_ai.Prelude.Int.{ℤ}
use zions_light_ai.TailHealth.{
  Outcome, State, is_storing, is_harmless, is_empty_skip, safe_int, init, note, snapshot, within,
  since, window_of, empty_run_degrade,
}

pub record Decision : Type 0 where
  pub time : ℕ
  pub outcome : Outcome
  pub raw : Option ℤ
  pub kept : Option ℤ

-- the ledger after a history, its newest decision first
unfoldable pub after : List Decision → State
after [] = init
after (d ∷ ds) = (note d.time d.outcome d.raw d.kept (after ds)).0

abbrev pub is_skip : Decision → Bool
is_skip d = not (is_storing d.outcome)

abbrev pub is_empty : Decision → Bool
is_empty d = is_empty_skip d.outcome

abbrev pub is_lossy : Decision → Bool
is_lossy d = not (is_storing d.outcome) && not (is_harmless d.outcome)

-- how many of the newest decisions are of a kind, without a break
abbrev pub streak : (Decision → Bool) → List Decision → ℕ
streak p [] = 0
streak p (d ∷ ds) = if p d then suc (streak p ds) else 0

-- when the newest decision of a kind was made
abbrev pub newest : (Decision → Bool) → List Decision → Option ℕ
newest p [] = none
newest p (d ∷ ds) = if p d then some d.time else newest p ds

pub record Tracks (ds : List Decision) (s : State) : Type 0 where
  pub skips : s.consecutive_skips ≡ streak is_skip ds
  pub empties : s.consecutive_empty ≡ streak is_empty ds
  pub lossy : s.last_lossy_skip_at ≡ newest is_lossy ds
  pub last : s.last_skip_at ≡ newest is_skip ds
  pub chars : s.raw_chars ≡ sum_by (λ d. safe_int d.raw) ds

-- Whatever the history, the streaks of skips and of empty replies are the unbroken runs at its end,
-- the times of the last skip and of the last lossy skip are those of its newest such decisions, and
-- the characters that arrived are added up.
pub after-Tracks : (ds : List Decision) → Tracks ds (after ds)
unfolding after init note
after-Tracks [] = record { skips = refl; empties = refl; lossy = refl; last = refl; chars = refl }
after-Tracks (d ∷ ds) =
    let t = after-Tracks ds in
    record {
      skips = ground (arith, t.skips);
      empties = ground (arith, t.empties);
      lossy = ground (arith, t.lossy);
      last = ground (arith, t.last);
      chars = ground (arith, t.chars);
    }

-- The snapshot reports a recent skip exactly by the age of the newest lossy skip of the history, so
-- that harmless skips and stores never move it, and reports a run of empty replies exactly when
-- the newest ten decisions were all empty replies.
pub snapshot-after :
    (now default : ℕ) (window_s : Option ℕ) (ds : List Decision)
    → ((snapshot now default window_s (after ds)).skipped_recently
        ≡ within (window_of default window_s) (since now (newest is_lossy ds)))
      × ((snapshot now default window_s (after ds)).empty_replies_degraded
          ≡ leb empty_run_degrade (streak is_empty ds))
unfolding snapshot
snapshot-after now default window_s ds = let t = after-Tracks ds in (rw t.lossy, rw t.empties)
