-- ===== src/Facts/Split/Budget.antt =====
-- compactor/facts.py: what `_lru_split` keeps renders within the budget.
use mathlib.Core.List.{Perm}
use mathlib.Core.List.Perm
use mathlib.Core.Logic.{inl, inr}
use zions_light_ai.Prelude.{
  ℕ, zero, suc, ◌+◌, ◌/◌, ◌≤◌, ◌≡◌, ap, List, [], ◌∷◌, length, take, arith, tests, ltb, leb,
  Bool-cases,
}
use zions_light_ai.Prelude.Sort.{sorted-perm, sum_by-perm}
use zions_light_ai.Facts.{
  Fact, rendered_cost, rendered_cost_lem, rendered_cost-nil, header_tokens, line_length,
  facts_block_header,
}
use zions_light_ai.Facts.Split.{turn_before, settle, kept_reversed, lru_split}

-- The cost does not depend on the order of the facts.
pub rendered_cost-perm : (xs ys : List Fact) → Perm xs ys → rendered_cost xs ≡ rendered_cost ys
rendered_cost-perm [] ys h = ap rendered_cost (Perm.nil-eq h)
rendered_cost-perm (x ∷ xs) [] h = ap rendered_cost (Perm.eq-nil h)
rendered_cost-perm (x ∷ xs) (y ∷ ys) h =
    rw (rendered_cost_lem x xs, rendered_cost_lem y ys)
      (ap (λ (n : ℕ). (length facts_block_header + n) / 4) (sum_by-perm line_length h))

settle-le : (m n : ℕ) (fs : List Fact) → rendered_cost (settle m n fs) ≤ m
unfolding settle
settle-le m zero fs = rw rendered_cost-nil (omega arith)
settle-le m (suc n) fs = elim (Bool-cases (ltb m (rendered_cost (take (suc n) fs)))) [
  | inl e ↦ rw e (settle-le m n fs)
  | inr e ↦ rw e (omega tests)
]

kept_reversed-le : (facts : List Fact) (m : ℕ) → rendered_cost (kept_reversed facts m) ≤ m
unfolding kept_reversed
kept_reversed-le facts m = settle-le m _ _

-- The block rendered from the facts that are kept is within the budget, whatever the facts are.
pub lru_split-le :
    (facts : List Fact) (max_tokens : ℕ) → rendered_cost (lru_split facts max_tokens).0 ≤ max_tokens
unfolding lru_split
lru_split-le [] m = rw rendered_cost-nil (omega arith)
lru_split-le (f ∷ fs) m = elim (Bool-cases (ltb m header_tokens)) [
  | inl low ↦ rw (low, lru_split, rendered_cost-nil) (omega arith)
  | inr room ↦ elim (Bool-cases (leb (rendered_cost (f ∷ fs)) m)) [
    | inl fits ↦ rw (room, fits, lru_split) (omega tests)
    | inr over ↦
        rw
          (
            room,
            over,
            lru_split,
            rendered_cost-perm _ _ (sorted-perm turn_before (kept_reversed (f ∷ fs) m)),
          )
          (kept_reversed-le (f ∷ fs) m)
  ]
]
