-- ===== src/Backup.antt =====
-- compactor/backup.py: which archives the retention keeps, and the pruning of the others. Archives
-- are listed newest first. The calendar (`day_of`, `week_of`) is an argument; ages are in seconds.
pub mod Retention
use zions_light_ai.Prelude.{
  ℕ, ◌-◌, ◌*◌, max, Bool, true, false, not, ◌&&◌, Option, none, some, List, [], ◌∷◌, ◌++◌, map,
  take, filter, any, leb, ◌==◌, if◌then◌else◌,
}
use zions_light_ai.Prelude.Int.{ℤ, pos_part}

pub record Archive : Type 0 where
  pub name : ℕ
  pub mtime : ℕ

pub record Config : Type 0 where
  pub retain : ℕ
  pub retain_days : ℕ
  pub gfs_weeks : ℕ
  pub env_min_keep : ℕ

-- MIN_KEEP
abbrev pub min_keep : Config → ℕ
min_keep config = max 3 config.env_min_keep

abbrev pub has : ℕ → List ℕ → Bool
has k ks = any (λ j. j == k) ks

-- `age_days <= days`, without the rounding of floats
unfoldable pub is_within : ℕ → ℕ → Archive → Bool
is_within now days e = leb (now - e.mtime) (days * 86400)

abbrev pub add_if : Bool → ℕ → List ℕ → List ℕ
add_if true k ks = k ∷ ks
add_if false k ks = ks

module _ (day_of week_of : ℕ → ℕ) (config : Config) (now : ℕ) where
  unfoldable pub is_recent : Archive → Bool
  unfolding is_within
  is_recent e = is_within now config.retain_days e

  unfoldable pub is_first_of_day : List ℕ → Archive → Bool
  unfolding is_recent
  is_first_of_day days e = is_recent e && not (has (day_of e.mtime) days)

  unfoldable pub is_first_of_week : List ℕ → Archive → Bool
  unfolding is_within
  is_first_of_week weeks e =
      is_within now (config.gfs_weeks * 7) e && not (has (week_of e.mtime) weeks)

  -- the loop of `_keep_set`
  unfoldable pub tiers : List ℕ → List ℕ → List Archive → List ℕ
  unfolding is_recent is_first_of_day is_first_of_week
  tiers days weeks [] = []
  tiers days weeks (e ∷ archives) =
      let first_day = is_first_of_day days e in
      let first_week = is_first_of_week weeks e in
      let rest =
        tiers (add_if first_day (day_of e.mtime) days) (add_if first_week (week_of e.mtime) weeks)
          archives in
      add_if (is_recent e) e.name (add_if first_day e.name (add_if first_week e.name rest))

  -- `floor` is at least `min_keep` already where `prune_old_backups` calls.
  unfoldable pub keep_set : ℕ → List Archive → List ℕ
  unfolding tiers
  keep_set floor archives =
      map (λ e. e.name) (take (max (min_keep config) floor) archives) ++ tiers [] [] archives

  unfoldable pub floor_of : Option ℤ → ℕ
  floor_of none = max (min_keep config) config.retain
  floor_of (some retain) = max (min_keep config) (pos_part retain)

  -- the loop of `prune_old_backups`: `unlinks` says of a name whether the file can be deleted
  unfoldable pub remove : (ℕ → Bool) → List ℕ → List Archive → List ℕ
  remove unlinks keep [] = []
  remove unlinks keep (e ∷ archives) =
      add_if (not (has e.name keep) && unlinks e.name) e.name (remove unlinks keep archives)

  unfoldable pub prune_old_backups : (ℕ → Bool) → Option ℤ → List Archive → List ℕ
  unfolding keep_set floor_of remove
  prune_old_backups unlinks retain archives =
      remove unlinks (keep_set (floor_of retain) archives) archives
