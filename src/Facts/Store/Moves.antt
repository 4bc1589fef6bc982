-- ===== src/Facts/Store/Moves.antt =====
-- compactor/facts.py: what `prune_facts` keeps and evicts, with a conversation and without one, and
-- that it keeps to the budget unless the archive fails.
use mathlib.Core.List.{Perm, append-nil, Nodup}
use mathlib.Core.List.Perm
use mathlib.Core.Logic.{inl, inr, ◌⊎◌}
use zions_light_ai.Prelude.{
  ℕ, ◌≡◌, refl, ◌≤◌, Bool, true, false, Option, none, some, List, [], ◌∷◌, ◌++◌, length, any,
  filter, Option-cases,
}
use zions_light_ai.Prelude.Text.{Text, is_blank, is_space}
use zions_light_ai.Facts.{Fact, rendered_cost}
use zions_light_ai.Facts.Split.{lru_split}
use zions_light_ai.Facts.Split.Partition.{objects, lru_split-perm}
use zions_light_ai.Facts.Split.Budget.{lru_split-le}
use zions_light_ai.Facts.Store.{
  Archived, Files, prune_facts, prune_evicted, archive_facts, archive_onto, save_archive,
  load_archive, has_archived_text,
}
use zions_light_ai.Facts.Store.Texts.{is_fact, in_archive}
use zions_light_ai.Facts.Store.Held.{archive_facts-Gains}

-- what became of the evicted facts: archived with a conversation, dropped without one
abbrev pub Evicted : Bool → List Fact → Files → Files → Type 0
Evicted false evicted before after = after ≡ before
Evicted true evicted before after =
    (after.active ≡ before.active)
    × ((t : Text)
        → is_blank t ≡ false
        → any (is_fact t) evicted ≡ true
        → in_archive t after.archive ≡ true)

-- what a pruning keeps and what it evicted, with the files that it leaves
abbrev pub Pruned : Bool → List Fact → Files → (List Fact × ℕ) × Files → Type 0
Pruned has_conv_id facts s r =
    (evicted : List Fact) × Perm (r.0.0 ++ evicted) facts
    × (r.0.1 ≡ length evicted)
    × Evicted has_conv_id evicted s r.1

archive_facts_active :
    (now : ℕ) (written : Bool) (entries : List Fact) (s : Files)
    → (archive_facts now written entries s).1.active ≡ s.active
unfolding is_blank is_space
archive_facts_active now written entries s =
    (archive_facts-Gains (b'a' ∷ []) now written entries s refl).0

prune_evicted-Pruned :
    (has_conv_id : Bool) (now : ℕ) (written : Bool) (facts kept evicted : List Fact) (s : Files)
    → Perm (kept ++ evicted) facts
    → Pruned has_conv_id facts s (prune_evicted has_conv_id now written facts kept evicted s)
unfolding prune_evicted
prune_evicted-Pruned false now written facts kept [] s h = ([], h, refl, refl)
prune_evicted-Pruned true now written facts kept [] s h = ([], h, refl, (refl, λ t b m. cc))
prune_evicted-Pruned false now written facts kept (g ∷ gs) s h = (g ∷ gs, h, refl, refl)
prune_evicted-Pruned true now written facts kept (g ∷ gs) s h =
    let gains =
      λ (t : Text) (b : is_blank t ≡ false). archive_facts-Gains t now written (g ∷ gs) s b in
    elim (Option-cases (archive_facts now written (g ∷ gs) s).0) [
      | inl raised ↦ (
        [],
        rw (raised, prune_evicted, append-nil) (Perm.refl facts),
        rw (raised, prune_evicted) refl,
        (archive_facts_active now written (g ∷ gs) s, λ t b m. cc),
      )
      | inr (n, e) ↦ (
        g ∷ gs,
        rw (e, prune_evicted) h,
        rw (e, prune_evicted) refl,
        (archive_facts_active now written (g ∷ gs) s, λ t b m. (gains t b).2 n e m),
      )
    ]

-- Where the facts are distinct objects, they are those kept and those evicted, which are as many as
-- the count says. With a conversation the active store is left alone and the archive then holds the
-- text of every evicted fact, if not blank, whether or not the archive could be read and written:
-- where it fails nothing is evicted. Without one no file is changed.
pub prune_facts-Pruned :
    (has_conv_id : Bool) (now : ℕ) (written : Bool) (facts : List Fact) (max_tokens : ℕ) (s : Files)
    → Nodup (objects facts)
    → Pruned has_conv_id facts s (prune_facts has_conv_id now written facts max_tokens s)
unfolding prune_facts
prune_facts-Pruned has_conv_id now written facts m s d =
    prune_evicted-Pruned has_conv_id now written facts (lru_split facts m).0 (lru_split facts m).1 s
      (lru_split-perm facts m d)

-- the archive cannot be read, or the write to it fails
abbrev pub ArchiveFails : Bool → Files → Type 0
ArchiveFails written s = (s.archive ≡ none) ⊎ (written ≡ false)

archive_onto_fails :
    (now : ℕ) (written : Bool) (entries : List Fact) (s : Files) (found : Option (List Archived))
    → (archive_onto now written entries s found).0 ≡ none
    → ((found ≡ none) ⊎ (written ≡ false)) × ((archive_onto now written entries s found).1 ≡ s)
unfolding archive_onto save_archive
archive_onto_fails now written entries s none h = (inl refl, refl)
archive_onto_fails now true entries s (some xs) h = cc
archive_onto_fails now false entries s (some xs) h = (inr refl, refl)

load_archive-none : (s : Files) → load_archive s ≡ none → s.archive ≡ none
unfolding load_archive
load_archive-none s h = elim (Option-cases s.archive) [
  | inl e ↦ e
  | inr (xs, e) ↦
      let bad : load_archive s ≡ some (filter has_archived_text xs) = rw (e, load_archive) refl in
      cc
]

archive_facts_fails :
    (now : ℕ) (written : Bool) (entries : List Fact) (s : Files)
    → (archive_facts now written entries s).0 ≡ none
    → ArchiveFails written s × ((archive_facts now written entries s).1 ≡ s)
unfolding archive_facts
archive_facts_fails now written [] s h = cc
archive_facts_fails now written (f ∷ fs) s h =
    let (why, same) = archive_onto_fails now written (f ∷ fs) s (load_archive s) h in
    elim why [
      | inl unread ↦ (inl (load_archive-none s unread), same)
      | inr unwritten ↦ (inr unwritten, same)
    ]

prune_evicted-cases :
    (has_conv_id : Bool) (now : ℕ) (written : Bool) (facts kept evicted : List Fact) (s : Files)
    → let r = prune_evicted has_conv_id now written facts kept evicted s in
      (r.0.0 ≡ kept) ⊎ ((has_conv_id ≡ true) × ArchiveFails written s × (r ≡ ((facts, 0), s)))
unfolding prune_evicted
prune_evicted-cases false now written facts kept [] s = inl refl
prune_evicted-cases true now written facts kept [] s = inl refl
prune_evicted-cases false now written facts kept (g ∷ gs) s = inl refl
prune_evicted-cases true now written facts kept (g ∷ gs) s =
    elim (Option-cases (archive_facts now written (g ∷ gs) s).0) [
      | inl raised ↦
          let (fails, same) = archive_facts_fails now written (g ∷ gs) s raised in
          inr (refl, fails, rw (raised, prune_evicted, same) refl)
      | inr (n, e) ↦ inl (rw (e, prune_evicted) refl)
    ]

-- Either the block of the facts that are kept is within the budget, or there is a conversation whose
-- archive cannot be read or whose write to it fails: then all the facts are kept, none is counted
-- and no file is changed.
pub prune_facts-le :
    (has_conv_id : Bool) (now : ℕ) (written : Bool) (facts : List Fact) (max_tokens : ℕ) (s : Files)
    → let r = prune_facts has_conv_id now written facts max_tokens s in
      (rendered_cost r.0.0 ≤ max_tokens)
      ⊎ ((has_conv_id ≡ true) × ArchiveFails written s × (r ≡ ((facts, 0), s)))
unfolding prune_facts
prune_facts-le has_conv_id now written facts m s =
    elim (prune_evicted-cases has_conv_id now written facts (lru_split facts m).0
      (lru_split facts m).1 s) [
        | inl same ↦ inl (rw same (lru_split-le facts m))
        | inr failed ↦ inr failed
      ]
