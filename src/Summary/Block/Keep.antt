-- ===== src/Summary/Block/Keep.antt =====
-- compactor/summarizer.py: what of a tier is kept, and what its lines cost.
use mathlib.Core.Logic.{inl, inr}
use mathlib.Core.List.{reverse_aux, append-nil}
use zions_light_ai.Prelude.{
  ℕ, ◌+◌, ◌≤◌, ◌<◌, ◌≡◌, refl, ap, ◌∙◌, Bool, false, Option, List, [], ◌∷◌, ◌++◌, length, reverse,
  sum_by, sum_by-append, ltb, arith, tests, Bool-cases, not-ltb→le,
}
use zions_light_ai.Prelude.Text.{Text}
use zions_light_ai.Summary.{Chunk}
use zions_light_ai.Summary.Block.{
  Kind, theme_kind, chapter_kind, scene_kind, Kept, estimate_block_tokens, line_cost, keep_fitting,
  lines_of, tier_lines,
}

sum_by-reverse_aux :
    (f : Chunk → ℕ) (xs ys : List Chunk) → sum_by f (reverse_aux xs ys) ≡ sum_by f xs + sum_by f ys
sum_by-reverse_aux f [] ys = omega arith
sum_by-reverse_aux f (x ∷ xs) ys = omega (arith, sum_by-reverse_aux f xs (x ∷ ys))

pub length-reverse_aux : (xs ys : List Chunk) → length (reverse_aux xs ys) ≡ length xs + length ys
length-reverse_aux [] ys = omega arith
length-reverse_aux (x ∷ xs) ys = omega (arith, length-reverse_aux xs (x ∷ ys))

reverse_aux_twice :
    (xs ys zs : List Chunk) → reverse_aux (reverse_aux xs ys) zs ≡ reverse_aux ys (xs ++ zs)
reverse_aux_twice [] ys zs = refl
reverse_aux_twice (x ∷ xs) ys zs = reverse_aux_twice xs (x ∷ ys) zs

pub reverse-reverse : (xs : List Chunk) → reverse (reverse xs) ≡ xs
reverse-reverse xs = reverse_aux_twice xs [] [] ∙ append-nil xs

module _ (is_letter_or_mark : ℕ → Bool) (exact : Text → Option ℕ) (decimal : ℕ → Text) where
  -- What is kept is within the budget, where what was used before is.
  pub keep_fitting-le :
      (kind : Kind) (budget used : ℕ) (cs : List Chunk)
      → let r = keep_fitting is_letter_or_mark exact decimal kind budget used cs in
        (r.1 ≡ used + sum_by (line_cost is_letter_or_mark exact decimal kind) r.0)
        × (used ≤ budget → r.1 ≤ budget)
        × (budget < used → r.0 ≡ [])
  unfolding keep_fitting
  keep_fitting-le kind budget used [] = (omega arith, λ le. le, λ lt. refl)
  keep_fitting-le kind budget used (c ∷ cs) =
      let cost = line_cost is_letter_or_mark exact decimal kind c in
      elim (Bool-cases (ltb budget (used + cost))) [
        | inl over ↦ rw over (omega arith, λ le. le, λ lt. refl)
        | inr fits ↦
            let rest = keep_fitting-le kind budget (used + cost) cs in
            rw fits (
              omega (arith, rest.0),
              λ le. rest.1 (not-ltb→le budget (used + cost) fits),
              λ lt. absurd (omega (arith, lt, not-ltb→le budget (used + cost) fits)),
            )
      ]

  -- Where as many are kept as there were, all are.
  pub keep_fitting-all :
      (kind : Kind) (budget used : ℕ) (cs : List Chunk)
      → ltb
          (length (keep_fitting is_letter_or_mark exact decimal kind budget used cs).0)
          (length cs)
        ≡ false
      → (keep_fitting is_letter_or_mark exact decimal kind budget used cs).0 ≡ cs
  unfolding keep_fitting
  keep_fitting-all kind budget used [] h = refl
  keep_fitting-all kind budget used (c ∷ cs) h =
      let cost = line_cost is_letter_or_mark exact decimal kind c in
      elim (Bool-cases (ltb budget (used + cost))) [
        | inl over ↦
            let lost : (keep_fitting is_letter_or_mark exact decimal kind budget used (c ∷ cs)).0
                ≡ [] =
              rw over refl in
            absurd (omega (tests, not-ltb→le _ _ h, ap length lost))
        | inr fits ↦
            let more : (keep_fitting is_letter_or_mark exact decimal kind budget used (c ∷ cs)).0
                ≡ c
                  ∷ (keep_fitting is_letter_or_mark exact decimal kind budget (used + cost) cs).0 =
              rw fits refl in
            more
            ∙ ap (◌∷◌ c) (
                keep_fitting-all kind budget (used + cost) cs
                  (ground (arith, not-ltb→le _ _ h, ap length more)))
      ]

  lines_of-cost :
      (kind : Kind) (cs : List Chunk)
      → sum_by
          (estimate_block_tokens is_letter_or_mark exact decimal)
          (lines_of is_letter_or_mark exact decimal kind cs)
        ≡ sum_by (line_cost is_letter_or_mark exact decimal kind) cs
  unfolding lines_of line_cost
  lines_of-cost kind [] = refl
  lines_of-cost kind (c ∷ cs) = omega (arith, lines_of-cost kind cs)

  -- The lines after the header cost what is kept of the three tiers.
  pub tier_lines-cost :
      (k : Kept)
      → sum_by
          (estimate_block_tokens is_letter_or_mark exact decimal)
          (tier_lines is_letter_or_mark exact decimal k)
        ≡ sum_by (line_cost is_letter_or_mark exact decimal theme_kind) k.theme
          + (sum_by (line_cost is_letter_or_mark exact decimal chapter_kind) k.chapters
              + sum_by (line_cost is_letter_or_mark exact decimal scene_kind) k.scenes)
  unfolding tier_lines
  tier_lines-cost k =
      let est = estimate_block_tokens is_letter_or_mark exact decimal in
      let top = lines_of is_letter_or_mark exact decimal theme_kind k.theme in
      let middle = lines_of is_letter_or_mark exact decimal chapter_kind (reverse k.chapters) in
      let low = lines_of is_letter_or_mark exact decimal scene_kind (reverse k.scenes) in
      omega (
        arith,
        sum_by-append est top (middle ++ low),
        sum_by-append est middle low,
        lines_of-cost theme_kind k.theme,
        lines_of-cost chapter_kind (reverse k.chapters),
        lines_of-cost scene_kind (reverse k.scenes),
        sum_by-reverse_aux (line_cost is_letter_or_mark exact decimal chapter_kind) k.chapters [],
        sum_by-reverse_aux (line_cost is_letter_or_mark exact decimal scene_kind) k.scenes [],
      )
