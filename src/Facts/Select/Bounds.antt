-- ===== src/Facts/Select/Bounds.antt =====
-- compactor/facts.py: what `select_for_injection` promises.
use mathlib.Core.List.{append-nil}
use mathlib.Core.Logic.{inl, inr, ◌⊎◌}
use zions_light_ai.Prelude.{
  ℕ, zero, suc, ◌≤◌, ◌<◌, ◌≡◌, refl, Option, List, [], ◌∷◌, ◌++◌, take, filter, arith, tests, ltb,
  leb, Bool-cases, ltb→lt,
}
use zions_light_ai.Prelude.Text.{Text}
use zions_light_ai.Prelude.Sort.{sorted}
use zions_light_ai.Facts.{Fact, header_tokens, rendered_cost, rendered_cost-nil}
use zions_light_ai.Facts.Split.{turn_before}
use zions_light_ai.Facts.Split.Budget.{lru_split-le}
use zions_light_ai.Facts.Select.{
  Embedder, settle_rest, select_with, select_for_injection, is_no_query,
}

module _ {V : Type 0} (e : Embedder V) where
  settle_rest-le :
      (m : ℕ) (pinned : List Fact) (n : ℕ) (rest : List Fact)
      → rendered_cost pinned ≤ m
      → rendered_cost (pinned ++ settle_rest e m pinned n rest) ≤ m
  unfolding settle_rest
  settle_rest-le m pinned zero rest h = rw append-nil h
  settle_rest-le m pinned (suc n) rest h =
      elim (Bool-cases (ltb m (rendered_cost (pinned ++ take (suc n) rest)))) [
        | inl over ↦ rw over (settle_rest-le m pinned n rest h)
        | inr fits ↦ rw fits (omega tests)
      ]

  select_with-le :
      (pinned facts : List Fact) (m : ℕ) (query : Option Text)
      → (rendered_cost (select_with e pinned facts m query) ≤ m)
        ⊎ ((m < rendered_cost pinned) × (select_with e pinned facts m query ≡ pinned))
  unfolding select_with
  select_with-le [] facts m query = inl (elim (Bool-cases (is_no_query e query)) [
    | inl old ↦ rw old (lru_split-le facts m)
    | inr ranked ↦ elim (Bool-cases (ltb m header_tokens)) [
      | inl low ↦ rw (ranked, low, rendered_cost-nil) (omega arith)
      | inr room ↦ rw (ranked, room) (settle_rest-le m [] _ _ (rw rendered_cost-nil (omega arith)))
    ]
  ])
  select_with-le (p ∷ ps) facts m query = elim (Bool-cases (leb m (rendered_cost (p ∷ ps)))) [
    | inl full ↦ elim (Bool-cases (ltb m (rendered_cost (p ∷ ps)))) [
      | inl over ↦ inr (ltb→lt _ _ over, rw full refl)
      | inr exact ↦ inl (rw full (omega tests))
    ]
    | inr room ↦ inl (rw room (settle_rest-le m (p ∷ ps) _ _ (omega tests)))
  ]

  -- Whatever the query and whatever the embedder answers, the block of the selected facts is within
  -- the budget, unless the pinned facts alone exceed it and are then all that is selected.
  pub select_for_injection-le :
      (facts : List Fact) (max_tokens : ℕ) (query : Option Text)
      → (rendered_cost (select_for_injection e facts max_tokens query) ≤ max_tokens)
        ⊎ ((max_tokens < rendered_cost (sorted turn_before (filter (λ f. f.pin) facts)))
            × (select_for_injection e facts max_tokens query
                ≡ sorted turn_before (filter (λ f. f.pin) facts)))
  unfolding select_for_injection
  select_for_injection-le [] m query = inl (rw rendered_cost-nil (omega arith))
  select_for_injection-le (f ∷ fs) m query =
      select_with-le (sorted turn_before (filter (λ g. g.pin) (f ∷ fs))) (f ∷ fs) m query
