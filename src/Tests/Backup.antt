-- ===== src/Tests/Backup.antt =====
-- Six archives, of which two are beyond every tier.
use mathlib.Core.Path.{◌≡◌, refl}
use zions_light_ai.Prelude.{
  ℕ, ◌<◌, ◌*◌, ◌/◌, max, true, false, some, List, [], ◌∷◌, ◌++◌, length, any,
}
use zions_light_ai.Prelude.Int.{pos}
use zions_light_ai.Backup.{
  Archive, Config, has, is_within, floor_of, prune_old_backups, keep_set, tiers, remove, is_recent,
  is_first_of_day, is_first_of_week,
}
use zions_light_ai.Backup.Retention.{weekly_with, prune_old_backups_lem}

abbrev config : Config
config = record { retain = 7; retain_days = 2; gfs_weeks = 4; env_min_keep = 3 }

abbrev day : ℕ
day = 86400

abbrev newest : List Archive
newest =
    record { name = 6; mtime = 99 * day }
    ∷ record { name = 5; mtime = 98 * day }
    ∷ record { name = 4; mtime = 90 * day }
    ∷ []

abbrev weekly : Archive
weekly = record { name = 3; mtime = 83 * day }

abbrev oldest : List Archive
oldest = record { name = 2; mtime = 82 * day } ∷ record { name = 1; mtime = 10 * day } ∷ []

-- days and weeks counted from the epoch
abbrev day_of : ℕ → ℕ
day_of t = t / day

abbrev week_of : ℕ → ℕ
week_of t = t / (7 * day)

abbrev pruned : List ℕ
pruned =
    prune_old_backups day_of week_of config (100 * day) (λ n. true) (some (pos 3))
      (newest ++ weekly ∷ oldest)

-- The archive of day 82 has a newer one in its week, and that of day 10 is too old.
removed : pruned ≡ 2 ∷ 1 ∷ []
unfolding prune_old_backups keep_set tiers remove floor_of is_within is_recent is_first_of_day
    is_first_of_week
removed = refl

prune_old_backups_lem_example :
    (length newest < max 3 (floor_of day_of week_of config (100 * day) (some (pos 3)))
      → has weekly.name pruned ≡ false)
    × (is_within (100 * day) 2 weekly ≡ true → has weekly.name pruned ≡ false)
    × (is_within (100 * day) (4 * 7) weekly ≡ true
        → (k : Archive) × (newer older : List Archive) × (newest ++ weekly ∷ oldest
            ≡ newer ++ k ∷ older)
          × (weekly_with day_of week_of config (100 * day) weekly k ≡ true)
          × (any (weekly_with day_of week_of config (100 * day) weekly) newer ≡ false)
          × (has k.name pruned ≡ false))
prune_old_backups_lem_example =
    prune_old_backups_lem day_of week_of config (100 * day) (λ n. true) (some (pos 3)) newest weekly
      oldest
