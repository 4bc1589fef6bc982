-- ===== src/Summary/Prefix/Reach.antt =====
-- compactor/summarizer.py: `_covered_prefix` against the turns that the chunks cover one by one.
use mathlib.Core.Logic.{inl, inr}
use mathlib.Core.Path.{subst}
use zions_light_ai.Prelude.{
  ℕ, zero, suc, ◌+◌, ◌≤◌, ◌<◌, ◌≡◌, ◌↔◌, refl, sym, ◌∙◌, Bool, true, false, ◌&&◌, List, [], ◌∷◌,
  ◌++◌, leb, ltb, filter, any, all, if◌then◌else◌, arith, tests, Bool-cases, leb→le, ltb→lt,
  not-leb→lt,
}
use zions_light_ai.Prelude.Sort.{sorted}
use zions_light_ai.Summary.{Chunk, State, themes}
use zions_light_ai.Summary.Prefix.{is_span, span_before, reach_from, covered_prefix}
use zions_light_ai.Summary.Prefix.Spans.{
  has_turn, Ascending, any-sorted, any-filter_span, sorted-Ascending, filter-AllSpans,
  sorted-AllSpans,
}

-- a chunk of any tier has the turn
abbrev pub is_covered : State → ℕ → Bool
is_covered s u = any (has_turn u) (s.l1 ++ (s.l2 ++ themes s.l3))

-- What is covered stays so up to where the walk ends.
reach_from-sound :
    (P : ℕ → Type 0) (reach : ℕ) (cs : List Chunk)
    → ((u : ℕ) → any (has_turn u) cs ≡ true → P u)
    → all is_span cs ≡ true
    → ((u : ℕ) → 1 ≤ u → u ≤ reach → P u)
    → (u : ℕ) → 1 ≤ u
    → u ≤ reach_from reach cs
    → P u
unfolding reach_from
reach_from-sound P reach [] f sp h u one le = h u one le
reach_from-sound P reach (c ∷ cs) f sp h u one le =
    elim (Bool-cases (ltb (reach + 1) c.first_turn)) [
      | inl hole ↦
          let stops : reach_from reach (c ∷ cs) ≡ reach = rw (hole, reach_from) refl in
          h u one (omega (arith, le, stops))
      | inr on ↦
          let goes : reach_from reach (c ∷ cs)
              ≡ reach_from (if ltb reach c.last_turn then c.last_turn else reach) cs =
            rw (on, reach_from) refl in
          reach_from-sound P (if ltb reach c.last_turn then c.last_turn else reach) cs
            (λ v k. f v (ground (arith, k))) (ground (arith, sp))
            (λ v one_v le_v. elim (Bool-cases (leb v reach)) [
              | inl old ↦ h v one_v (leb→le v reach old)
              | inr new ↦ f v (ground arith)
            ])
            u one (omega (arith, le, goes))
    ]

-- A walk never ends before where it is.
reach_from-ge : (reach : ℕ) (cs : List Chunk) → reach ≤ reach_from reach cs
unfolding reach_from
reach_from-ge reach [] = omega arith
reach_from-ge reach (c ∷ cs) =
    ground (arith, reach_from-ge (if ltb reach c.last_turn then c.last_turn else reach) cs)

later-not-has_turn :
    (u first : ℕ) (cs : List Chunk)
    → u < first
    → all (λ d. leb first d.first_turn) cs ≡ true
    → any (has_turn u) cs ≡ false
later-not-has_turn u first [] h k = refl
later-not-has_turn u first (c ∷ cs) h k = ground (arith, later-not-has_turn u first cs)

-- The turn after the end of the walk is in no chunk that the walk was given.
reach_from-maximal :
    (reach : ℕ) (cs : List Chunk)
    → Ascending cs
    → any (has_turn (reach_from reach cs + 1)) cs ≡ false
unfolding reach_from
reach_from-maximal reach [] t = refl
reach_from-maximal reach (c ∷ cs) (h, t) = elim (Bool-cases (ltb (reach + 1) c.first_turn)) [
  | inl hole ↦
      let stops : reach_from reach (c ∷ cs) ≡ reach = rw (hole, reach_from) refl in
      subst (λ w. any (has_turn (w + 1)) (c ∷ cs) ≡ false) (sym stops)
        (later-not-has_turn (reach + 1) c.first_turn (c ∷ cs) (ltb→lt _ _ hole) (ground (arith, h)))
  | inr on ↦
      let next = if ltb reach c.last_turn then c.last_turn else reach in
      let goes : reach_from reach (c ∷ cs) ≡ reach_from next cs = rw (on, reach_from) refl in
      let past : c.last_turn ≤ next = ground arith in
      subst (λ w. any (has_turn (w + 1)) (c ∷ cs) ≡ false) (sym goes)
        (ground (arith, past, reach_from-ge next cs, reach_from-maximal next cs t))
]

module _ (s : State) where
  abbrev spans : List Chunk
  spans = sorted span_before (filter is_span (s.l1 ++ (s.l2 ++ themes s.l3)))

  any-spans : (u : ℕ) → any (has_turn u) spans ≡ is_covered s u
  any-spans u =
      any-sorted (has_turn u) span_before (filter is_span (s.l1 ++ (s.l2 ++ themes s.l3)))
      ∙ any-filter_span u (s.l1 ++ (s.l2 ++ themes s.l3))

  prefix_iff : (t : ℕ) → (t ≤ covered_prefix s) ↔ ((u : ℕ) → 1 ≤ u → u ≤ t → is_covered s u ≡ true)
  unfolding covered_prefix
  prefix_iff t = (
    λ le u one le_u.
        reach_from-sound (λ v. is_covered s v ≡ true) 0 spans (λ v k. sym (any-spans v) ∙ k)
          (sorted-AllSpans span_before (filter is_span (s.l1 ++ (s.l2 ++ themes s.l3)))
            (filter-AllSpans (s.l1 ++ (s.l2 ++ themes s.l3))))
          (λ v o z. absurd (omega (arith, o, z))) u one (omega (arith, le, le_u)),
    λ f. elim (Bool-cases (leb t (reach_from 0 spans))) [
      | inl in_reach ↦ leb→le t _ in_reach
      | inr past ↦
          let no : is_covered s (reach_from 0 spans + 1) ≡ false =
            sym (any-spans _)
            ∙ reach_from-maximal 0 spans
                (sorted-Ascending (filter is_span (s.l1 ++ (s.l2 ++ themes s.l3)))) in
          let all_in =
            f (reach_from 0 spans + 1) (omega arith) (omega (tests, not-leb→lt _ _ past)) in
          cc
    ],
  )

  -- Turns 1 to `t`, one by one.
  abbrev pub covers_up_to : ℕ → Bool
  covers_up_to zero = true
  covers_up_to (suc t) = covers_up_to t && is_covered s (suc t)

  covers_up_to→each :
      (t : ℕ) → covers_up_to t ≡ true → (u : ℕ) → 1 ≤ u → u ≤ t → is_covered s u ≡ true
  covers_up_to→each zero h u one le = absurd (omega arith)
  covers_up_to→each (suc t) h u one le = elim (Bool-cases (leb u t)) [
    | inl early ↦ covers_up_to→each t (ground (arith, h)) u one (leb→le u t early)
    | inr newest ↦
        let e : suc t ≡ u = omega (tests, le, not-leb→lt u t newest) in
        subst (λ v. is_covered s v ≡ true) e (ground (arith, h))
  ]

  each→covers_up_to :
      (t : ℕ) → ((u : ℕ) → 1 ≤ u → u ≤ t → is_covered s u ≡ true) → covers_up_to t ≡ true
  each→covers_up_to zero f = refl
  each→covers_up_to (suc t) f =
      let before = each→covers_up_to t (λ u one le. f u one (omega (arith, le))) in
      let here = f (suc t) (omega arith) (omega arith) in rw (before, here) refl

  -- The walk over the sorted spans, which stops at the first hole, reaches a turn just when every turn
  -- up to it is in the span of a chunk of some tier, whatever the order of the spans, nested or
  -- overlapping.
  pub covered_prefix-covers_up_to : (t : ℕ) → leb t (covered_prefix s) ≡ covers_up_to t
  covered_prefix-covers_up_to t =
      let (to, from) = prefix_iff t in
      elim (Bool-cases (leb t (covered_prefix s))) [
        | inl far ↦ far ∙ sym (each→covers_up_to t (to (leb→le t _ far)))
        | inr near ↦ elim (Bool-cases (covers_up_to t)) [
          | inl all_in ↦
              absurd (omega (tests, not-leb→lt t _ near, from (covers_up_to→each t all_in)))
          | inr some_out ↦ near ∙ sym some_out
        ]
      ]
