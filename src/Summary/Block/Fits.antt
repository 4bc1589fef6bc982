-- ===== src/Summary/Block/Fits.antt =====
-- compactor/summarizer.py: the summary block against its budget.
use mathlib.Core.Logic.{inl, inr}
use zions_light_ai.Prelude.{
  ℕ, ◌+◌, ◌≤◌, ◌<◌, ◌≡◌, ◌≢◌, ◌⊎◌, refl, ap, sym, ◌∙◌, Bool, true, false, ◌&&◌, Option, none, some,
  List, [], ◌∷◌, ◌++◌, reverse, sum_by, ltb, if◌then◌else◌, arith, Bool-cases, not-ltb→le, ltb→lt,
}
use zions_light_ai.Prelude.Text.{Text}
use zions_light_ai.Summary.{State, themes}
use zions_light_ai.Summary.Block.{
  theme_kind, chapter_kind, scene_kind, Kept, block_header, estimate_block_tokens, keep_fitting,
  select_tiers, lines_of, tier_lines, has_dropped, with_header, summary_lines,
}
use zions_light_ai.Summary.Block.Keep.{
  length-reverse_aux, reverse-reverse, keep_fitting-le, keep_fitting-all, tier_lines-cost,
}

not-dropped : {A : Type 0} (b c : Bool) (x y : A) → c ≡ false → (if b && c then x else y) ≡ y
not-dropped true c x y e = rw e refl
not-dropped false c x y e = refl

module _ (is_letter_or_mark : ℕ → Bool) (exact : Text → Option ℕ) (decimal : ℕ → Text) where
  no-tier_lines :
      (k : Kept)
      → k.theme ≡ []
      → k.chapters ≡ []
      → k.scenes ≡ []
      → tier_lines is_letter_or_mark exact decimal k ≡ []
  unfolding tier_lines lines_of
  no-tier_lines k e f g = rw (e, f, g, tier_lines) refl

  -- Either the header and what is kept are within the budget, or nothing is kept.
  select_tiers-le :
      (budget : ℕ) (s : State)
      → let k = select_tiers is_letter_or_mark exact decimal budget s in
        (estimate_block_tokens is_letter_or_mark exact decimal block_header
            + sum_by
                (estimate_block_tokens is_letter_or_mark exact decimal)
                (tier_lines is_letter_or_mark exact decimal k)
          ≤ budget)
        ⊎ (tier_lines is_letter_or_mark exact decimal k ≡ [])
  unfolding select_tiers
  select_tiers-le budget s =
      let used = estimate_block_tokens is_letter_or_mark exact decimal block_header in
      let theme =
        keep_fitting is_letter_or_mark exact decimal theme_kind budget used (themes s.l3) in
      let scenes =
        keep_fitting is_letter_or_mark exact decimal scene_kind budget theme.1 (reverse s.l1) in
      let a =
        keep_fitting-le is_letter_or_mark exact decimal theme_kind budget used (themes s.l3) in
      let b =
        keep_fitting-le is_letter_or_mark exact decimal scene_kind budget theme.1 (reverse s.l1) in
      let c =
        keep_fitting-le is_letter_or_mark exact decimal chapter_kind budget scenes.1
          (reverse s.l2) in
      let k = select_tiers is_letter_or_mark exact decimal budget s in
      elim (Bool-cases (ltb budget used)) [
        | inl over ↦
            let past = ltb→lt budget used over in
            let none_a : theme.0 ≡ [] = a.2 past in
            let past_b : budget < theme.1 = omega (arith, past, a.0) in
            let none_b : scenes.0 ≡ [] = b.2 past_b in
            let past_c : budget < scenes.1 = omega (arith, past_b, b.0) in
            inr (no-tier_lines k none_a (c.2 past_c) none_b)
        | inr room ↦ inl (
            omega (
              arith,
              tier_lines-cost is_letter_or_mark exact decimal k,
              a.0,
              b.0,
              c.0,
              c.1 (b.1 (a.1 (not-ltb→le budget used room))),
            ))
      ]

  -- the lines of everything that the state has
  abbrev pub all_lines : State → List Text
  all_lines s =
      lines_of is_letter_or_mark exact decimal theme_kind (themes s.l3)
      ++ (lines_of is_letter_or_mark exact decimal chapter_kind s.l2
          ++ lines_of is_letter_or_mark exact decimal scene_kind s.l1)

  -- Where nothing is dropped, the lines are those of all the tiers, in their order.
  select_tiers-all :
      (budget : ℕ) (s : State)
      → has_dropped is_letter_or_mark exact decimal
          (select_tiers is_letter_or_mark exact decimal budget s)
          s
        ≡ false
      → tier_lines is_letter_or_mark exact decimal
          (select_tiers is_letter_or_mark exact decimal budget s)
        ≡ all_lines s
  unfolding select_tiers has_dropped tier_lines
  select_tiers-all budget s h =
      let used = estimate_block_tokens is_letter_or_mark exact decimal block_header in
      let theme =
        keep_fitting is_letter_or_mark exact decimal theme_kind budget used (themes s.l3) in
      let scenes =
        keep_fitting is_letter_or_mark exact decimal scene_kind budget theme.1 (reverse s.l1) in
      let chapters =
        keep_fitting is_letter_or_mark exact decimal chapter_kind budget scenes.1 (reverse s.l2) in
      let a : theme.0 ≡ themes s.l3 =
        keep_fitting-all is_letter_or_mark exact decimal theme_kind budget used (themes s.l3)
          (ground (arith, h)) in
      let b : scenes.0 ≡ reverse s.l1 =
        keep_fitting-all is_letter_or_mark exact decimal scene_kind budget theme.1 (reverse s.l1)
          (ground (arith, h, length-reverse_aux s.l1 [])) in
      let c : chapters.0 ≡ reverse s.l2 =
        keep_fitting-all is_letter_or_mark exact decimal chapter_kind budget scenes.1 (reverse s.l2)
          (ground (arith, h, length-reverse_aux s.l2 [])) in
      rw (a, b, c, tier_lines, reverse-reverse s.l1, reverse-reverse s.l2) refl

  with_header_lem :
      (tiers ls : List Text)
      → with_header is_letter_or_mark exact decimal tiers ≡ some ls
      → (ls ≡ block_header ∷ tiers) × (tiers ≢ [])
  with_header_lem [] ls e = cc
  with_header_lem (t ∷ tiers) ls e =
      let same : block_header ∷ t ∷ tiers ≡ ls = cc in (sym same, λ n. cc)

  tiers-fit :
      (budget : ℕ) (s : State) (ls : List Text)
      → with_header is_letter_or_mark exact decimal (
          tier_lines is_letter_or_mark exact decimal
            (select_tiers is_letter_or_mark exact decimal budget s))
        ≡ some ls
      → sum_by (estimate_block_tokens is_letter_or_mark exact decimal) ls ≤ budget
  tiers-fit budget s ls e =
      let tiers =
        tier_lines is_letter_or_mark exact decimal
          (select_tiers is_letter_or_mark exact decimal budget s) in
      let (same, full) = with_header_lem tiers ls e in
      elim (select_tiers-le budget s) [
        | inl le ↦
            omega
              (arith, le, ap (sum_by (estimate_block_tokens is_letter_or_mark exact decimal)) same)
        | inr none_kept ↦ absurd (full none_kept)
      ]

  pub summary_lines_header :
      (budget : ℕ) (all_or_nothing : Bool) (s : State) (ls : List Text)
      → summary_lines is_letter_or_mark exact decimal budget all_or_nothing s ≡ some ls
      → (tiers : List Text) × (ls ≡ block_header ∷ tiers)
  unfolding summary_lines
  summary_lines_header budget all_or_nothing s ls e =
      let kept = select_tiers is_letter_or_mark exact decimal budget s in
      let tiers = tier_lines is_letter_or_mark exact decimal kept in
      elim (Bool-cases (all_or_nothing && has_dropped is_letter_or_mark exact decimal kept s)) [
        | inl over ↦
            let nothing : summary_lines is_letter_or_mark exact decimal budget all_or_nothing s
                ≡ none =
              rw (over, summary_lines) refl in
            cc
        | inr fits ↦
            let given : summary_lines is_letter_or_mark exact decimal budget all_or_nothing s
                ≡ with_header is_letter_or_mark exact decimal tiers =
              rw (fits, summary_lines) refl in
            (tiers, (with_header_lem tiers ls (sym given ∙ e)).0)
      ]

  -- A block that is given is within its budget by the estimate of its lines, and one that is asked for
  -- as a whole has every tier's lines, the theme's before the chapters' before the scenes'.
  pub summary_lines_fit :
      (budget : ℕ) (all_or_nothing : Bool) (s : State) (ls : List Text)
      → summary_lines is_letter_or_mark exact decimal budget all_or_nothing s ≡ some ls
      → (sum_by (estimate_block_tokens is_letter_or_mark exact decimal) ls ≤ budget)
        × ((all_or_nothing ≡ false) ⊎ (ls ≡ block_header ∷ all_lines s))
  unfolding summary_lines
  summary_lines_fit budget all_or_nothing s ls e =
      let kept = select_tiers is_letter_or_mark exact decimal budget s in
      elim (Bool-cases (has_dropped is_letter_or_mark exact decimal kept s)) [
        | inl dropped ↦ elim (Bool-cases all_or_nothing) [
          | inl whole ↦
              let nothing : summary_lines is_letter_or_mark exact decimal budget all_or_nothing s
                  ≡ none =
                rw (whole, dropped, summary_lines) refl in
              cc
          | inr part ↦
              let given : summary_lines is_letter_or_mark exact decimal budget all_or_nothing s
                  ≡ with_header is_letter_or_mark exact decimal
                      (tier_lines is_letter_or_mark exact decimal kept) =
                rw (part, summary_lines) refl in
              (tiers-fit budget s ls (sym given ∙ e), inl part)
        ]
        | inr complete ↦
            let given : summary_lines is_letter_or_mark exact decimal budget all_or_nothing s
                ≡ with_header is_letter_or_mark exact decimal
                    (tier_lines is_letter_or_mark exact decimal kept) =
              not-dropped all_or_nothing _ _ _ complete in
            let e' = sym given ∙ e in
            (
              tiers-fit budget s ls e',
              inr (
                  (with_header_lem (tier_lines is_letter_or_mark exact decimal kept) ls e').0
                  ∙ ap (◌∷◌ block_header) (select_tiers-all budget s complete)),
            )
      ]
