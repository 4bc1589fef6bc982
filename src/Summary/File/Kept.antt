-- ===== src/Summary/File/Kept.antt =====
-- compactor/summarizer.py: loading and saving the state file loses no row.
use mathlib.Core.Logic.{inl, inr}
use mathlib.Core.List.{Perm, append-nil}
use mathlib.Core.Path.{subst}
use zions_light_ai.Prelude.{
  ◌≡◌, refl, ap, sym, ◌∙◌, not, Option, none, some, List, [], ◌∷◌, ◌++◌, map, filter, filter-append,
  Bool-cases,
}
use zions_light_ai.Prelude.Text.{is_blank}
use zions_light_ai.Prelude.Sort.{partition-perm}
use zions_light_ai.Summary.File.{
  Row, chunk_row, other_row, StateFile, Loaded, is_chunk, chunks_of, others_of, theme_of,
  parked_theme, somes, load_tiers, load_state, theme_row, for_disk,
}

somes-map : {A : Type 0} (xs : List A) → somes (map some xs) ≡ xs
unfolding somes
somes-map [] = refl
somes-map (x ∷ xs) = ap (◌∷◌ x) (somes-map xs)

chunk_rows : (rows : List Row) → map chunk_row (chunks_of rows) ≡ filter is_chunk rows
unfolding chunks_of
chunk_rows [] = refl
chunk_rows (other_row n ∷ rows) = chunk_rows rows
chunk_rows (chunk_row c ∷ rows) = elim (Bool-cases (is_chunk (chunk_row c))) [
  | inl e ↦ rw e (ap (◌∷◌ (chunk_row c)) (chunk_rows rows))
  | inr e ↦ rw e (chunk_rows rows)
]

-- the rows of a tier as they are written again
abbrev pub rewritten : List Row → List Row
rewritten rows = map chunk_row (chunks_of rows) ++ others_of rows

chunks_of-append : (xs ys : List Row) → chunks_of (xs ++ ys) ≡ chunks_of xs ++ chunks_of ys
unfolding chunks_of
chunks_of-append [] ys = refl
chunks_of-append (other_row n ∷ xs) ys = chunks_of-append xs ys
chunks_of-append (chunk_row c ∷ xs) ys = elim (Bool-cases (is_chunk (chunk_row c))) [
  | inl e ↦ rw e (ap (◌∷◌ c) (chunks_of-append xs ys))
  | inr e ↦ rw e (chunks_of-append xs ys)
]

chunks_of-chunks : (rows : List Row) → chunks_of (map chunk_row (chunks_of rows)) ≡ chunks_of rows
unfolding chunks_of
chunks_of-chunks [] = refl
chunks_of-chunks (other_row n ∷ rows) = chunks_of-chunks rows
chunks_of-chunks (chunk_row c ∷ rows) = elim (Bool-cases (is_chunk (chunk_row c))) [
  | inl e ↦ rw e (rw e (ap (◌∷◌ c) (chunks_of-chunks rows)))
  | inr e ↦ rw e (chunks_of-chunks rows)
]

chunks_of-others : (rows : List Row) → chunks_of (others_of rows) ≡ []
unfolding chunks_of others_of is_chunk
chunks_of-others [] = refl
chunks_of-others (other_row n ∷ rows) = chunks_of-others rows
chunks_of-others (chunk_row c ∷ rows) = elim (Bool-cases (is_blank c.text)) [
  | inl e ↦ rw e (rw e (chunks_of-others rows))
  | inr e ↦ rw e (chunks_of-others rows)
]

others_of-chunks : (rows : List Row) → others_of (map chunk_row (chunks_of rows)) ≡ []
unfolding chunks_of others_of
others_of-chunks [] = refl
others_of-chunks (other_row n ∷ rows) = others_of-chunks rows
others_of-chunks (chunk_row c ∷ rows) = elim (Bool-cases (is_chunk (chunk_row c))) [
  | inl e ↦ rw e (rw e (others_of-chunks rows))
  | inr e ↦ rw e (others_of-chunks rows)
]

others_of-others : (rows : List Row) → others_of (others_of rows) ≡ others_of rows
unfolding others_of
others_of-others [] = refl
others_of-others (r ∷ rows) = elim (Bool-cases (is_chunk r)) [
  | inl e ↦ rw e (others_of-others rows)
  | inr e ↦ rw e (rw e (ap (◌∷◌ r) (others_of-others rows)))
]

chunks_of-rewritten : (rows : List Row) → chunks_of (rewritten rows) ≡ chunks_of rows
chunks_of-rewritten rows =
    chunks_of-append (map chunk_row (chunks_of rows)) (others_of rows)
    ∙ ap (λ l. l ++ chunks_of (others_of rows)) (chunks_of-chunks rows)
    ∙ ap (λ l. chunks_of rows ++ l) (chunks_of-others rows)
    ∙ append-nil (chunks_of rows)

others_of-rewritten : (rows : List Row) → others_of (rewritten rows) ≡ others_of rows
unfolding others_of
others_of-rewritten rows =
    filter-append (λ r. not (is_chunk r)) (map chunk_row (chunks_of rows)) (others_of rows)
    ∙ ap (λ l. l ++ others_of (others_of rows)) (others_of-chunks rows)
    ∙ others_of-others rows

theme_row-same : (o : Option Row) → theme_row (theme_of o) (parked_theme o) ≡ o
unfolding theme_row theme_of parked_theme
theme_row-same none = refl
theme_row-same (some (other_row n)) = refl
theme_row-same (some (chunk_row c)) = elim (Bool-cases (is_chunk (chunk_row c))) [
  | inl e ↦ rw e refl
  | inr e ↦ rw e refl
]

rewritten-perm : (rows : List Row) → Perm (rewritten rows) rows
unfolding others_of
rewritten-perm rows =
    subst (λ l. Perm (l ++ others_of rows) rows) (sym (chunk_rows rows))
      (partition-perm is_chunk rows)

loaded-again :
    (f : StateFile) (l1 l2 : List Row)
    → load_state (some (for_disk (load_tiers f l1 l2))) ≡ some (load_tiers f l1 l2)
unfolding load_state for_disk load_tiers
loaded-again f l1 l2 =
    rw
      (
        chunks_of-rewritten l1,
        chunks_of-rewritten l2,
        others_of-rewritten l1,
        others_of-rewritten l2,
        theme_row-same f.l3,
        somes-map (somes f.tail_fp),
        somes-map (somes f.covered_extra),
      )
      refl

-- A state that is loaded and written is loaded again as it was, with what could not be parsed, and the
-- file that is written has every row of the tiers and the theme of the file that was read.
pub load_state-for_disk :
    (f : StateFile) (l1 l2 : List Row) (x : Loaded)
    → f.l1 ≡ some l1
    → f.l2 ≡ some l2
    → load_state (some f) ≡ some x
    → (load_state (some (for_disk x)) ≡ some x)
      × ((for_disk x).l1 ≡ some (rewritten l1))
      × Perm (rewritten l1) l1
      × ((for_disk x).l2 ≡ some (rewritten l2))
      × Perm (rewritten l2) l2
      × ((for_disk x).l3 ≡ f.l3)
unfolding load_state for_disk load_tiers
load_state-for_disk f l1 l2 x e1 e2 e =
    let read : load_state (some f) ≡ some (load_tiers f l1 l2) = rw (e1, e2, load_state) refl in
    let loaded : load_tiers f l1 l2 ≡ x = cc in
    subst
      (λ y.
        (load_state (some (for_disk y)) ≡ some y)
        × ((for_disk y).l1 ≡ some (rewritten l1))
        × Perm (rewritten l1) l1
        × ((for_disk y).l2 ≡ some (rewritten l2))
        × Perm (rewritten l2) l2
        × ((for_disk y).l3 ≡ f.l3))
      loaded
      (loaded-again f l1 l2, refl, rewritten-perm l1, refl, rewritten-perm l2, theme_row-same f.l3)
