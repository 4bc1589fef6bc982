-- ===== src/Summary/Rollup/Archive.antt =====
-- compactor/summarizer.py: a refresh of the theme keeps the chapters that it takes away.
use mathlib.Core.Logic.{inl, inr}
use mathlib.Core.Path.{subst}
use zions_light_ai.Prelude.{
  ◌≡◌, ◌⊎◌, refl, sym, Bool, true, false, not, ◌||◌, Option, none, some, List, [], ◌∷◌, ◌++◌,
  length, any, all, filter, ltb, arith, Bool-cases,
}
use zions_light_ai.Prelude.Text.{Text, same_text_refl}
use zions_light_ai.Summary.{Chunk, State, Config}
use zions_light_ai.Summary.Rollup.{
  Piece, same_chunk, archive_chapters, refresh_l3, refresh_of, do_l3_rollup,
}

-- every chapter is among the rows
abbrev pub Holds : List Chunk → List Chunk → Type 0
Holds rows chapters = all (λ d. any (λ r. same_chunk d r) rows) chapters ≡ true

-- Either nothing changed, or the chapters went to the sidecar, behind the rows that were there.
abbrev pub Refreshed : State → Option (List Chunk) → (State × Option (List Chunk)) × Bool → Type 0
Refreshed s sidecar r =
    (r ≡ ((s, sidecar), false))
    ⊎ ((rows : List Chunk) × (new : List Chunk) × (sidecar ≡ some rows)
        × (r.0.1 ≡ some (rows ++ new))
        × Holds (rows ++ new) s.l2
        × (r.0.0.l2 ≡ [])
        × (r.0.0.l1 ≡ s.l1)
        × (r.1 ≡ true))

any-append :
    {A : Type 0} (p : A → Bool) (xs ys : List A) → any p (xs ++ ys) ≡ (any p xs || any p ys)
any-append p [] ys = refl
any-append p (x ∷ xs) ys = ground (arith, any-append p xs ys)

same_chunk_refl : (c : Chunk) → same_chunk c c ≡ true
unfolding same_chunk
same_chunk_refl c = ground (arith, same_text_refl c.text)

module _ (rows : List Chunk) where
  abbrev is_new : Chunk → Bool
  is_new d = not (any (λ r. same_chunk d r) rows)

  Holds-cons :
      (d : Chunk) (new cs : List Chunk) → Holds (rows ++ new) cs → Holds (rows ++ d ∷ new) cs
  Holds-cons d new [] h = refl
  Holds-cons d new (c ∷ cs) h = ground (
    arith,
    any-append (λ r. same_chunk c r) rows new,
    any-append (λ r. same_chunk c r) rows (d ∷ new),
    Holds-cons d new cs,
  )

  Holds-filter : (cs : List Chunk) → Holds (rows ++ filter is_new cs) cs
  Holds-filter [] = refl
  Holds-filter (c ∷ cs) = elim (Bool-cases (any (λ r. same_chunk c r) rows)) [
    | inl old ↦
        let same : filter is_new (c ∷ cs) ≡ filter is_new cs = rw old refl in
        subst (λ l. Holds (rows ++ l) (c ∷ cs)) (sym same)
          (ground
            (arith, old, any-append (λ r. same_chunk c r) rows (filter is_new cs), Holds-filter cs))
    | inr new ↦
        let more : filter is_new (c ∷ cs) ≡ c ∷ filter is_new cs = rw new refl in
        subst (λ l. Holds (rows ++ l) (c ∷ cs)) (sym more)
          (ground (
            arith,
            same_chunk_refl c,
            any-append (λ r. same_chunk c r) rows (c ∷ filter is_new cs),
            Holds-cons c (filter is_new cs) cs (Holds-filter cs),
          ))
  ]

archived-rows :
    (written : Bool) (c : Chunk) (cs : List Chunk) (sidecar : Option (List Chunk))
    → (archive_chapters written (c ∷ cs) sidecar ≡ (sidecar, false))
      ⊎ ((rows : List Chunk) × (new : List Chunk) × (sidecar ≡ some rows)
          × (archive_chapters written (c ∷ cs) sidecar ≡ (some (rows ++ new), true))
          × Holds (rows ++ new) (c ∷ cs))
unfolding archive_chapters
archived-rows written c cs none = inl refl
archived-rows false c cs (some rows) = inl refl
archived-rows true c cs (some rows) =
    inr (rows, filter (is_new rows) (c ∷ cs), refl, refl, Holds-filter rows (c ∷ cs))

refresh_l3-Refreshed :
    (written : Bool) (sidecar : Option (List Chunk)) (c : Chunk) (l2 : List Chunk) (text : Text)
    (s : State)
    → s.l2 ≡ c ∷ l2
    → Refreshed s sidecar (refresh_l3 written sidecar c l2 text s)
unfolding refresh_l3
refresh_l3-Refreshed written sidecar c l2 [] s e = inl refl
refresh_l3-Refreshed written sidecar c l2 (x ∷ text) s e =
    elim (archived-rows written c l2 sidecar) [
      | inl failed ↦ rw (failed, refresh_l3) (inl refl)
      | inr (rows, new, there, done, holds) ↦
          rw (done, refresh_l3) (inr (rows, new, there, refl, rw e holds, refl, refl, refl))
    ]

refresh_of-Refreshed :
    (llm : List Piece → Text) (written : Bool) (sidecar : Option (List Chunk)) (l2 : List Chunk)
    (s : State)
    → s.l2 ≡ l2
    → Refreshed s sidecar (refresh_of llm written sidecar l2 s)
unfolding refresh_of
refresh_of-Refreshed llm written sidecar [] s e = inl refl
refresh_of-Refreshed llm written sidecar (c ∷ l2) s e =
    refresh_l3-Refreshed written sidecar c l2 _ s e

-- A refresh of the theme that fails leaves the state and the sidecar as they were; one that succeeds
-- has written every chapter that it takes out of the state to the sidecar, and has kept the
-- sidecar's rows and the scenes.
pub do_l3_rollup-Refreshed :
    (llm : List Piece → Text) (config : Config) (written : Bool) (sidecar : Option (List Chunk))
    (s : State)
    → Refreshed s sidecar (do_l3_rollup llm config written sidecar s)
unfolding do_l3_rollup
do_l3_rollup-Refreshed llm config written sidecar s =
    elim (Bool-cases (ltb (length s.l2) config.l3_chunk_size)) [
      | inl few ↦ rw (few, do_l3_rollup) (inl refl)
      | inr enough ↦
          rw (enough, do_l3_rollup) (refresh_of-Refreshed llm written sidecar s.l2 s refl)
    ]
