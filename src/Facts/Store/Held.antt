-- ===== src/Facts/Store/Held.antt =====
-- compactor/facts.py: no move between the active store and the archive loses a text, whichever of
-- its writes fail.
use mathlib.Core.Logic.{inl, inr}
use zions_light_ai.Prelude.{
  ℕ, ◌-◌, ◌*◌, ◌≡◌, refl, ap, sym, ◌∙◌, Bool, true, false, ◌||◌, Option, none, some, List, [], ◌∷◌,
  map, filter, any, Bool-cases, Option-cases, arith,
}
use zions_light_ai.Prelude.Int.{ℤ, pos, negsuc}
use zions_light_ai.Prelude.Text.{Text, is_blank}
use zions_light_ai.Facts.{Fact}
use zions_light_ai.Facts.Store.{
  Archived, Files, Outcome, has_text, has_archived_text, load_facts, load_archive, save_facts,
  save_archive, archive_onto, archive_facts, move_stale, sweep, sweep_found, refreshed,
  restore_found, seconds_per_day, archive_stale_facts, matches, restore_rows, restore_matching,
  restore_from_archive,
}
use zions_light_ai.Facts.Store.Texts.{
  is_fact, is_archived, in_active, in_archive, held, any-append, any-partition, any-load_facts,
  any-load_archive, any-archived, any-swept, any-refreshed,
}

-- Either nothing is written, or the archive gains the texts of the entries.
abbrev pub Gains : Text → List Fact → Files → Outcome ℕ → Type 0
Gains t entries s r =
    (r.1.active ≡ s.active)
    × (in_archive t s.archive ≡ true → in_archive t r.1.archive ≡ true)
    × ((n : ℕ) → r.0 ≡ some n → any (is_fact t) entries ≡ true → in_archive t r.1.archive ≡ true)

archive_onto-Gains :
    (t : Text) (now : ℕ) (written : Bool) (entries : List Fact) (act : Option (List Fact))
    (arch : Option (List Archived))
    → is_blank t ≡ false
    → let s : Files = record { active = act; archive = arch } in
      Gains t entries s (archive_onto now written entries s (load_archive s))
unfolding archive_onto load_archive in_archive
archive_onto-Gains t now written entries act none h = (refl, λ a. a, λ n e. cc)
archive_onto-Gains t now false entries act (some xs) h = (refl, λ a. a, λ n e. cc)
archive_onto-Gains t now true entries act (some xs) h =
    let both = any-archived t now entries (filter has_archived_text xs) in
    let loaded = any-load_archive t xs h in
    (refl, λ a. ground (arith, both, loaded), λ n e m. ground (arith, both, loaded))

pub archive_facts-Gains :
    (t : Text) (now : ℕ) (written : Bool) (entries : List Fact) (s : Files)
    → is_blank t ≡ false
    → Gains t entries s (archive_facts now written entries s)
unfolding archive_facts
archive_facts-Gains t now written [] s h = (refl, λ a. a, λ n e. cc)
archive_facts-Gains t now written (f ∷ fs) s h =
    archive_onto-Gains t now written (f ∷ fs) s.active s.archive h

move_stale-held :
    (t : Text) (now : ℕ) (written saved : Bool) (stale fresh : List Fact) (s : Files)
    → is_blank t ≡ false
    → (in_active t s.active ≡ true → any (is_fact t) stale || any (is_fact t) fresh ≡ true)
    → held t s ≡ true
    → held t (move_stale now written saved stale fresh s).1 ≡ true
unfolding move_stale held
move_stale-held t now written saved stale fresh s h split hs =
    let g = archive_facts-Gains t now written stale s h in
    elim (Option-cases (archive_facts now written stale s).0) [
      | inl raised ↦ rw (raised, move_stale) (ground (arith, hs, ap (in_active t) g.0, g.1))
      | inr (n, e) ↦ elim (Bool-cases saved) [
        | inl done ↦ rw (e, done, move_stale) (ground (arith, hs, split, g.1, g.2 n e))
        | inr fails ↦ rw (e, fails, move_stale) (ground (arith, hs, ap (in_active t) g.0, g.1))
      ]
    ]

sweep_found-held :
    (t : Text) (now : ℕ) (written saved : Bool) (total : ℕ) (stale fresh : List Fact) (s : Files)
    → is_blank t ≡ false
    → (in_active t s.active ≡ true → any (is_fact t) stale || any (is_fact t) fresh ≡ true)
    → held t s ≡ true
    → held t (sweep_found now written saved total stale fresh s).1 ≡ true
unfolding sweep_found
sweep_found-held t now written saved total [] fresh s h split hs = hs
sweep_found-held t now written saved total (f ∷ stale) fresh s h split hs =
    move_stale-held t now written saved (f ∷ stale) fresh s h split hs

sweep-held :
    (t : Text) (now : ℕ) (written saved : Bool) (cutoff : ℕ) (act : Option (List Fact))
    (arch : Option (List Archived))
    → is_blank t ≡ false
    → let s : Files = record { active = act; archive = arch } in
      held t s ≡ true → held t (sweep now written saved cutoff s (load_facts s)).1 ≡ true
unfolding sweep load_facts in_active
sweep-held t now written saved cutoff none arch h hs = hs
sweep-held t now written saved cutoff (some fs) arch h hs =
    sweep_found-held t now written saved _ _ _ _ h
      (λ a. sym (any-swept t cutoff (filter has_text fs)) ∙ any-load_facts t fs h ∙ a) hs

restore_found-held :
    (lower : Text → Text) (t : Text) (now : ℕ) (saved written : Bool)
    (rows remaining : List Archived) (act : Option (List Fact)) (arch : Option (List Archived))
    → is_blank t ≡ false
    → (in_archive t arch ≡ true → any (is_archived t) rows || any (is_archived t) remaining ≡ true)
    → let s : Files = record { active = act; archive = arch } in
      held t s ≡ true → held t (restore_found lower now saved written rows remaining s).1 ≡ true
unfolding restore_found restore_rows load_facts save_facts save_archive held
restore_found-held lower t now saved written [] remaining act arch h split hs = hs
restore_found-held lower t now saved written (a ∷ rows) remaining none arch h split hs = hs
restore_found-held lower t now false written (a ∷ rows) remaining (some fs) arch h split hs = hs
restore_found-held lower t now true written (a ∷ rows) remaining (some fs) arch h split hs =
    let gained = any-append (is_fact t) (filter has_text fs) (map (refreshed now) (a ∷ rows)) in
    let loaded = any-load_facts t fs h in
    let back = any-refreshed t now (a ∷ rows) in
    elim (Bool-cases written) [
      | inl w ↦ rw (w, save_archive) (ground (arith, gained, loaded, back, split, hs))
      | inr w ↦ rw (w, save_archive) (ground (arith, gained, loaded, back, split, hs))
    ]

restore-held :
    (lower : Text → Text) (t : Text) (now : ℕ) (saved written : Bool) (substring : Option Text)
    (act : Option (List Fact)) (arch : Option (List Archived))
    → is_blank t ≡ false
    → let s : Files = record { active = act; archive = arch } in
      held t s ≡ true → held t (restore_from_archive lower now saved written substring s).1 ≡ true
unfolding restore_from_archive restore_matching load_archive in_archive
restore-held lower t now saved written substring act none h hs = hs
restore-held lower t now saved written substring act (some xs) h hs =
    restore_found-held lower t now saved written _ _ act (some xs) h
      (λ a.
        sym (any-partition (is_archived t) (matches lower substring) (filter has_archived_text xs))
        ∙ any-load_archive t xs h
        ∙ a)
      hs

-- A text that is not blank and stands in the active store or in the archive still stands in one of
-- them after a sweep of stale facts and after a restore, and a text of the facts handed to
-- `archive_facts` stands in the archive if it returns: whichever files cannot be read and whichever
-- of the writes fail.
pub moves-held :
    (lower : Text → Text) (t : Text) (now : ℕ) (first second : Bool) (days : ℤ)
    (substring : Option Text) (entries : List Fact) (s : Files)
    → is_blank t ≡ false
    → (held t s ≡ true → held t (archive_stale_facts now first second days s).1 ≡ true)
      × (held t s ≡ true
          → held t (restore_from_archive lower now first second substring s).1 ≡ true)
      × ((n : ℕ)
          → (archive_facts now first entries s).0 ≡ some n
          → any (is_fact t) entries ≡ true
          → in_archive t (archive_facts now first entries s).1.archive ≡ true)
unfolding archive_stale_facts
moves-held lower t now first second (negsuc d) substring entries s h = (
  λ hs. hs,
  restore-held lower t now first second substring s.active s.archive h,
  (archive_facts-Gains t now first entries s h).2,
)
moves-held lower t now first second (pos d) substring entries s h = (
  sweep-held t now first second (now - d * seconds_per_day) s.active s.archive h,
  restore-held lower t now first second substring s.active s.archive h,
  (archive_facts-Gains t now first entries s h).2,
)
