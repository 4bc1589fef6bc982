-- ===== src/Backup/Retention.antt =====
-- compactor/backup.py: no archive that a tier claims is removed.
use mathlib.Core.Logic.{inl, inr, ◌⊎◌}
use zions_light_ai.Prelude.{
  ℕ, zero, suc, ◌*◌, ◌<◌, ◌≡◌, refl, ap, sym, ◌∙◌, max, Bool, true, false, not, ◌&&◌, ◌||◌, Option,
  List, [], ◌∷◌, ◌++◌, map, take, length, any, ◌==◌, arith, Bool-cases, ==_iff,
}
use zions_light_ai.Prelude.Int.{ℤ}
use zions_light_ai.Backup.{
  Archive, Config, min_keep, has, is_within, is_recent, is_first_of_day, is_first_of_week, add_if,
  tiers, keep_set, floor_of, remove, prune_old_backups,
}

has-append : (k : ℕ) (xs ys : List ℕ) → has k (xs ++ ys) ≡ has k xs || has k ys
has-append k [] ys = refl
has-append k (x ∷ xs) ys = ground (arith, has-append k xs ys)

append-claimed : (k : ℕ) (xs ys : List ℕ) → has k ys ≡ true → has k (xs ++ ys) ≡ true
append-claimed k [] ys h = h
append-claimed k (x ∷ xs) ys h = ground (arith, append-claimed k xs ys h)

has_self : (k : ℕ) (ks : List ℕ) → has k (k ∷ ks) ≡ true
has_self k ks = ground arith

has-take :
    (n : ℕ) (front : List Archive) (e : Archive) (back : List Archive)
    → length front < n
    → has e.name (map (λ a. a.name) (take n (front ++ e ∷ back))) ≡ true
has-take zero front e back h = absurd (omega arith)
has-take (suc n) [] e back h = has_self e.name _
has-take (suc n) (a ∷ front) e back h = ground (arith, has-take n front e back (omega arith))

has-add_if : (b : Bool) (k n : ℕ) (ks : List ℕ) → has k ks ≡ true → has k (add_if b n ks) ≡ true
has-add_if true k n ks h = ground arith
has-add_if false k n ks h = h

module _ (day_of week_of : ℕ → ℕ) (config : Config) (now : ℕ) where
  abbrev first_day : List ℕ → Archive → Bool
  first_day = is_first_of_day day_of week_of config now

  abbrev first_week : List ℕ → Archive → Bool
  first_week = is_first_of_week day_of week_of config now

  -- what the loop has seen after an archive
  abbrev days_after : List ℕ → Archive → List ℕ
  days_after days a = add_if (first_day days a) (day_of a.mtime) days

  abbrev weeks_after : List ℕ → Archive → List ℕ
  weeks_after weeks a = add_if (first_week weeks a) (week_of a.mtime) weeks

  abbrev claims : List ℕ → List ℕ → List Archive → List ℕ
  claims = tiers day_of week_of config now

  -- What the later rounds claim stays claimed, and so does the first archive of a week.
  claims-cons :
      (k : ℕ) (days weeks : List ℕ) (a : Archive) (archives : List Archive)
      → has k (claims (days_after days a) (weeks_after weeks a) archives) ≡ true
      → has k (claims days weeks (a ∷ archives)) ≡ true
  unfolding tiers
  claims-cons k days weeks a archives h =
      has-add_if (is_recent day_of week_of config now a) k a.name _
        (has-add_if (first_day days a) k a.name _ (has-add_if (first_week weeks a) k a.name _ h))

  claims-first :
      (days weeks : List ℕ) (a : Archive) (archives : List Archive)
      → first_week weeks a ≡ true
      → has a.name (claims days weeks (a ∷ archives)) ≡ true
  unfolding tiers
  claims-first days weeks a archives h =
      has-add_if (is_recent day_of week_of config now a) a.name a.name _ (
        has-add_if (first_day days a) a.name a.name _ (
          ap
            (λ b.
              has a.name
                (add_if b a.name (claims (days_after days a) (weeks_after weeks a) archives)))
            h
          ∙ has_self a.name (claims (days_after days a) (weeks_after weeks a) archives)))

  recent-claims :
      (days weeks : List ℕ) (front : List Archive) (e : Archive) (back : List Archive)
      → is_recent day_of week_of config now e ≡ true
      → has e.name (claims days weeks (front ++ e ∷ back)) ≡ true
  unfolding tiers
  recent-claims days weeks [] e back h = rw h (has_self e.name _)
  recent-claims days weeks (a ∷ front) e back h =
      claims-cons e.name days weeks a (front ++ e ∷ back)
        (recent-claims (days_after days a) (weeks_after weeks a) front e back h)

  abbrev pub weekly_with : Archive → Archive → Bool
  weekly_with e a = is_within now (config.gfs_weeks * 7) a && (week_of a.mtime == week_of e.mtime)

  -- the newest archive of the same week as another inside the weekly window, claimed
  abbrev pub Weekly : Archive → List Archive → List ℕ → Type 0
  Weekly e archives names =
      (k : Archive) × (front : List Archive) × (back : List Archive) × (archives
        ≡ front ++ k ∷ back)
      × (weekly_with e k ≡ true)
      × (any (weekly_with e) front ≡ false)
      × (has k.name names ≡ true)

  later :
      (days weeks : List ℕ) (a e : Archive) (archives : List Archive)
      → (has (week_of e.mtime) (weeks_after weeks a) ≡ true)
        ⊎ Weekly e archives (claims (days_after days a) (weeks_after weeks a) archives)
      → weekly_with e a ≡ false
      → has (week_of e.mtime) (weeks_after weeks a) ≡ has (week_of e.mtime) weeks
      → (has (week_of e.mtime) weeks ≡ true)
        ⊎ Weekly e (a ∷ archives) (claims days weeks (a ∷ archives))
  later days weeks a e archives (inl seen) other same = inl (sym same ∙ seen)
  later days weeks a e archives (inr (k, f, b, split, week, none_newer, claimed)) other same = inr (
    k,
    a ∷ f,
    b,
    ap (◌∷◌ a) split,
    week,
    ground (arith, other, none_newer),
    claims-cons k.name days weeks a archives claimed,
  )

  -- An archive that is not of the week leaves it as seen as it was.
  week_unseen :
      (weeks : List ℕ) (a e : Archive)
      → weekly_with e a ≡ false
      → has (week_of e.mtime) (weeks_after weeks a) ≡ has (week_of e.mtime) weeks
  unfolding is_first_of_week
  week_unseen weeks a e other = elim (Bool-cases (first_week weeks a)) [
    | inl first ↦
        let different : (week_of a.mtime == week_of e.mtime) ≡ false =
          ground (arith, other, first) in
        rw (first, different) refl
    | inr not_first ↦ rw not_first refl
  ]

  week-claims :
      (days weeks : List ℕ) (front : List Archive) (e : Archive) (back : List Archive)
      → is_within now (config.gfs_weeks * 7) e ≡ true
      → (has (week_of e.mtime) weeks ≡ true)
        ⊎ Weekly e (front ++ e ∷ back) (claims days weeks (front ++ e ∷ back))
  unfolding is_first_of_week
  week-claims days weeks [] e back h = elim (Bool-cases (has (week_of e.mtime) weeks)) [
    | inl seen ↦ inl seen
    | inr new ↦
        inr (e, [], back, refl, ground arith, refl, claims-first days weeks e back (ground arith))
  ]
  week-claims days weeks (a ∷ front) e back h =
      let later_on = week-claims (days_after days a) (weeks_after weeks a) front e back h in
      elim (Bool-cases (weekly_with e a)) [
        | inr other ↦
            later days weeks a e (front ++ e ∷ back) later_on other (week_unseen weeks a e other)
        | inl weekly ↦ elim (Bool-cases (has (week_of e.mtime) weeks)) [
          | inl seen ↦ inl seen
          | inr new ↦
              let near : is_within now (config.gfs_weeks * 7) a ≡ true = ground (arith, weekly) in
              let same : week_of a.mtime ≡ week_of e.mtime =
                (==_iff (week_of a.mtime) (week_of e.mtime)).0 (ground (arith, weekly)) in
              let first : first_week weeks a ≡ true = rw (near, same, new, is_first_of_week) refl in
              inr (
                a,
                [],
                front ++ e ∷ back,
                refl,
                weekly,
                refl,
                claims-first days weeks a (front ++ e ∷ back) first,
              )
        ]
      ]

  claimed-kept :
      (unlinks : ℕ → Bool) (keep : List ℕ) (k : ℕ) (archives : List Archive)
      → has k keep ≡ true
      → has k (remove day_of week_of config now unlinks keep archives) ≡ false
  unfolding remove
  claimed-kept unlinks keep k [] h = refl
  claimed-kept unlinks keep k (a ∷ archives) h =
      let rest = claimed-kept unlinks keep k archives h in
      elim (Bool-cases (a.name == k)) [
        | inl same ↦
            let kept : has a.name keep ≡ true =
              ap (λ n. has n keep) ((==_iff a.name k).0 same) ∙ h in
            rw kept rest
        | inr other ↦ elim (Bool-cases (not (has a.name keep) && unlinks a.name)) [
          | inl gone ↦ rw (gone, other) rest
          | inr left ↦ rw left rest
        ]
      ]

  abbrev removed : (ℕ → Bool) → Option ℤ → List Archive → List ℕ
  removed = prune_old_backups day_of week_of config now

  -- Pruning removes no name of the newest archives, as many as the floor and three at least, nor of
  -- one within the days of retention. For each archive within the weekly window, the newest one of
  -- its week inside the window, the first in the order of the list, is left. This is so whichever
  -- files can be deleted.
  pub prune_old_backups_lem :
      (unlinks : ℕ → Bool) (retain : Option ℤ) (front : List Archive) (e : Archive)
      (back : List Archive)
      → let archives = front ++ e ∷ back in
        (length front < max 3 (floor_of day_of week_of config now retain)
          → has e.name (removed unlinks retain archives) ≡ false)
        × (is_within now config.retain_days e ≡ true
            → has e.name (removed unlinks retain archives) ≡ false)
        × (is_within now (config.gfs_weeks * 7) e ≡ true
            → (k : Archive) × (newer older : List Archive) × (archives ≡ newer ++ k ∷ older)
              × (weekly_with e k ≡ true)
              × (any (weekly_with e) newer ≡ false)
              × (has k.name (removed unlinks retain archives) ≡ false))
  unfolding prune_old_backups keep_set is_recent
  prune_old_backups_lem unlinks retain front e back =
      let archives = front ++ e ∷ back in
      let newest =
        map (λ a. a.name)
          (take (max (min_keep config) (floor_of day_of week_of config now retain)) archives) in
      let aged = claims [] [] archives in
      let by_age = λ (k : ℕ) (h : has k aged ≡ true).
        claimed-kept unlinks (newest ++ aged) k archives (append-claimed k newest aged h) in
      (
        λ h. claimed-kept unlinks (newest ++ aged) e.name archives (
            has-append e.name newest aged
            ∙ ap (λ b. b || has e.name aged)
                (has-take (max (min_keep config) (floor_of day_of week_of config now retain)) front
                  e back (omega arith))),
        λ h. by_age e.name (recent-claims [] [] front e back h),
        λ h. elim (week-claims [] [] front e back h) [
          | inl seen ↦ cc
          | inr (k, newer, older, split, week, none_newer, claimed) ↦
              (k, newer, older, split, week, none_newer, by_age k.name claimed)
        ],
      )
