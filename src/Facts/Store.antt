-- ===== src/Facts/Store.antt =====
-- compactor/facts.py: the active store and the archive of a conversation, and what moves facts
-- between them. A file is none where it cannot be read; a flag says whether a write succeeds, and
-- what was written before a failure stays written. Stored rows that are no dict with a text, which
-- the loaders drop, are left out. `lower` is Python's `str.lower`.
pub mod Texts
pub mod Held
pub mod Moves
pub mod Marks
use zions_light_ai.Prelude.{
  ℕ, zero, suc, ◌+◌, ◌-◌, ◌*◌, Bool, true, false, not, ◌&&◌, ◌||◌, Option, none, some, List, [],
  ◌∷◌, ◌++◌, map, length, filter, any, ltb, leb, if◌then◌else◌,
}
use zions_light_ai.Prelude.Int.{ℤ, pos, negsuc}
use zions_light_ai.Prelude.Text.{Text, is_blank, same_text, contains}
use zions_light_ai.Facts.{Fact}
use zions_light_ai.Facts.Split.{lru_split}

pub record Archived : Type 0 where
  pub fact : Fact
  pub archived_at : ℕ

pub record Files : Type 0 where
  pub active : Option (List Fact)
  pub archive : Option (List Archived)

-- a call's result, none where it raises, and the files that it leaves
abbrev pub Outcome : Type 0 → Type 0
Outcome A = Option A × Files

abbrev pub has_text : Fact → Bool
has_text f = not (is_blank f.text)

abbrev pub has_archived_text : Archived → Bool
has_archived_text a = has_text a.fact

-- `load_facts`, `load_archive`: none where they raise
unfoldable pub load_facts : Files → Option (List Fact)
load_facts s = elim s.active [ none ↦ none | some fs ↦ some (filter has_text fs) ]

unfoldable pub load_archive : Files → Option (List Archived)
load_archive s = elim s.archive [ none ↦ none | some xs ↦ some (filter has_archived_text xs) ]

-- `save_facts`, `save_archive`
unfoldable pub save_facts : Bool → List Fact → Files → Outcome (Unit {0})
save_facts true fs s = (some tt, record s { active = some fs })
save_facts false fs s = (none, s)

unfoldable pub save_archive : Bool → List Archived → Files → Outcome (Unit {0})
save_archive true xs s = (some tt, record s { archive = some xs })
save_archive false xs s = (none, s)

unfoldable pub archived_among : List Fact → Archived → Bool
archived_among entries a = any (λ f. same_text f.text a.fact.text) entries

abbrev pub stamp : ℕ → Fact → Archived
stamp now f = record { fact = f; archived_at = now }

-- below the tests of `archive_facts`
unfoldable pub archive_onto : ℕ → Bool → List Fact → Files → Option (List Archived) → Outcome ℕ
unfolding save_archive archived_among
archive_onto now written entries s none = (none, s)
archive_onto now written entries s (some existing) =
    let (done, s') =
      save_archive written
        (filter (λ a. not (archived_among entries a)) existing ++ map (stamp now) entries) s in
    (elim done [ none ↦ none | some _ ↦ some (length entries) ], s')

unfoldable pub archive_facts : ℕ → Bool → List Fact → Files → Outcome ℕ
unfolding archive_onto load_archive
archive_facts now written [] s = (some 0, s)
archive_facts now written (f ∷ fs) s = archive_onto now written (f ∷ fs) s (load_archive s)

-- `prune_facts`: what it keeps, how many it evicted, and the files. Without a conversation
-- (`has_conv_id` false) the evicted facts are dropped and counted; with one they are archived.
unfoldable pub prune_evicted :
    Bool → ℕ → Bool → List Fact → List Fact → List Fact → Files → (List Fact × ℕ) × Files
unfolding archive_facts
prune_evicted has_conv_id now written facts kept [] s = ((kept, 0), s)
prune_evicted false now written facts kept (g ∷ gs) s = ((kept, length (g ∷ gs)), s)
prune_evicted true now written facts kept (g ∷ gs) s =
    let (done, s') = archive_facts now written (g ∷ gs) s in
    (elim done [ none ↦ (facts, 0) | some _ ↦ (kept, length (g ∷ gs)) ], s')

unfoldable pub prune_facts : Bool → ℕ → Bool → List Fact → ℕ → Files → (List Fact × ℕ) × Files
unfolding prune_evicted
prune_facts has_conv_id now written facts max_tokens s =
    let (kept, evicted) = lru_split facts max_tokens in
    prune_evicted has_conv_id now written facts kept evicted s

abbrev pub seconds_per_day : ℕ
seconds_per_day = 86400

abbrev pub is_stale : ℕ → Fact → Bool
is_stale cutoff f = not f.pin && ltb f.last_used cutoff

abbrev pub is_fresh : ℕ → Fact → Bool
is_fresh cutoff f = f.pin || leb cutoff f.last_used

-- the two writes of `archive_stale_facts`
unfoldable pub move_stale : ℕ → Bool → Bool → List Fact → List Fact → Files → Outcome (ℕ × ℕ)
unfolding archive_facts save_facts
move_stale now written saved stale fresh s =
    let (done, s') = archive_facts now written stale s in
    elim done [
      | none ↦ (none, s')
      | some _ ↦
          let (kept, s'') = save_facts saved fresh s' in
          (elim kept [ none ↦ none | some _ ↦ some (length fresh, length stale) ], s'')
    ]

unfoldable pub sweep_found : ℕ → Bool → Bool → ℕ → List Fact → List Fact → Files → Outcome (ℕ × ℕ)
unfolding move_stale
sweep_found now written saved total [] fresh s = (some (total, 0), s)
sweep_found now written saved total (f ∷ stale) fresh s =
    move_stale now written saved (f ∷ stale) fresh s

unfoldable pub sweep : ℕ → Bool → Bool → ℕ → Files → Option (List Fact) → Outcome (ℕ × ℕ)
unfolding sweep_found
sweep now written saved cutoff s none = (none, s)
sweep now written saved cutoff s (some active) =
    sweep_found now written saved (length active) (filter (is_stale cutoff) active)
      (filter (is_fresh cutoff) active) s

-- A cutoff before the epoch is 0 here: no time of use lies below either.
unfoldable pub archive_stale_facts : ℕ → Bool → Bool → ℤ → Files → Outcome (ℕ × ℕ)
unfolding sweep load_facts
archive_stale_facts now written saved (negsuc d) s =
    (elim (load_facts s) [ none ↦ none | some active ↦ some (length active, 0) ], s)
archive_stale_facts now written saved (pos d) s =
    sweep now written saved (now - d * seconds_per_day) s (load_facts s)

abbrev pub refreshed : ℕ → Archived → Fact
refreshed now a = record a.fact { last_used = now }

module _ (lower : Text → Text) where
  -- An empty substring is no substring.
  unfoldable pub matches : Option Text → Archived → Bool
  matches none a = true
  matches (some []) a = true
  matches (some (c ∷ t)) a = contains (lower (c ∷ t)) (lower a.fact.text)

  unfoldable pub restore_rows :
      ℕ → Bool → Bool → List Archived → List Archived → Files → Option (List Fact) → Outcome ℕ
  unfolding save_facts save_archive
  restore_rows now saved written rows remaining s none = (none, s)
  restore_rows now saved written rows remaining s (some active) =
      let (kept, s') = save_facts saved (active ++ map (refreshed now) rows) s in
      elim kept [
        | none ↦ (none, s')
        | some _ ↦
            let (done, s'') = save_archive written remaining s' in
            (elim done [ none ↦ none | some _ ↦ some (length rows) ], s'')
      ]

  unfoldable pub restore_found : ℕ → Bool → Bool → List Archived → List Archived → Files → Outcome ℕ
  unfolding restore_rows load_facts
  restore_found now saved written [] remaining s = (some 0, s)
  restore_found now saved written (a ∷ rows) remaining s =
      restore_rows now saved written (a ∷ rows) remaining s (load_facts s)

  unfoldable pub restore_matching :
      ℕ → Bool → Bool → Option Text → Files → Option (List Archived) → Outcome ℕ
  unfolding restore_found
  restore_matching now saved written substring s none = (none, s)
  restore_matching now saved written substring s (some archived) =
      restore_found now saved written (filter (matches substring) archived)
        (filter (λ b. not (matches substring b)) archived) s

  unfoldable pub restore_from_archive : ℕ → Bool → Bool → Option Text → Files → Outcome ℕ
  unfolding restore_matching load_archive
  restore_from_archive now saved written substring s =
      restore_matching now saved written substring s (load_archive s)

  -- `set_pinned`: the facts, and how many of them changed
  unfoldable pub set_pinned : Text → Bool → List Fact → List Fact × ℕ
  set_pinned needle pinned [] = ([], 0)
  set_pinned needle pinned (f ∷ fs) =
      let (rest, changed) = set_pinned needle pinned fs in
      if contains (lower needle) (lower f.text)
      then (
        record f { pin = pinned } ∷ rest,
        if f.pin
            then (if pinned then changed else suc changed)
            else (if pinned then suc changed else changed),
      )
      else (f ∷ rest, changed)

unfoldable pub touch_facts : ℕ → List Fact → List Fact
touch_facts now [] = []
touch_facts now (f ∷ fs) = record f { last_used = now } ∷ touch_facts now fs
