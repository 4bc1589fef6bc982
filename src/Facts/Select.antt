-- ===== src/Facts/Select.antt =====
-- compactor/facts.py: `select_for_injection`. The embedding model and its cosine are an argument:
-- `embed` is none where it returns nothing or raises, and `nearer q a b` says that the cosine of `a`
-- with `q` is at least that of `b`. Budgets are natural numbers.
pub mod Bounds
pub mod Pins
use mathlib.Core.List.{zip}
use zions_light_ai.Prelude.{
  ℕ, zero, suc, ◌-◌, Bool, true, false, not, ◌||◌, Option, none, some, List, [], ◌∷◌, ◌++◌, map,
  length, take, filter, any, ltb, leb, ◌==◌, if◌then◌else◌,
}
use zions_light_ai.Prelude.Text.{Text}
use zions_light_ai.Prelude.Sort.{sorted}
use zions_light_ai.Facts.{Fact, header_tokens, rendered_cost}
use zions_light_ai.Facts.Split.{use_before, turn_before, fill, lru_split}

pub record Embedder (V : Type 0) : Type 0 where
  pub embed : List Text → Option (List V)
  pub nearer : V → V → V → Bool

unfoldable pub is_nil : {A : Type 0} → List A → Bool
is_nil [] = true
is_nil (x ∷ xs) = false

module _ {V : Type 0} (e : Embedder V) where
  -- the vectors, where there is one for the query and one for each candidate
  unfoldable pub rank : List Fact → Option (List V) → Option (List Fact)
  rank candidates none = none
  rank candidates (some []) = none
  rank candidates (some (q ∷ vs)) =
      if length vs == length candidates
      then some (map (λ p. p.0) (sorted (λ a b. e.nearer q a.1 b.1) (zip candidates vs)))
      else none

  unfoldable pub relevance_order : List Fact → Option Text → Option (List Fact)
  unfolding rank is_nil
  relevance_order candidates none = none
  relevance_order candidates (some query) =
      if is_nil query || is_nil candidates
      then none
      else if any (λ f. is_nil f.text) candidates
      then none
      else rank candidates (e.embed (query ∷ map (λ f. f.text) candidates))

  unfoldable pub greedy_fill_by_priority : List Fact → ℕ → List Fact
  unfolding fill
  greedy_fill_by_priority priority budget =
      if leb budget 0 then [] else sorted turn_before (fill budget 0 priority)

  -- by relevance, or else the most recently used first
  unfoldable pub priority_of : List Fact → Option (List Fact) → List Fact
  priority_of candidates none = sorted (λ f g. use_before g f) candidates
  priority_of candidates (some ranked) = ranked

  unfoldable pub select_rest : List Fact → ℕ → Option Text → List Fact
  unfolding relevance_order greedy_fill_by_priority priority_of
  select_rest candidates budget query =
      if is_nil candidates || leb budget 0
      then []
      else greedy_fill_by_priority (priority_of candidates (relevance_order candidates query))
          budget

  -- the loop of `_settle_against_budget`, on the first `n` of the rest
  unfoldable pub settle_rest : ℕ → List Fact → ℕ → List Fact → List Fact
  settle_rest max_tokens pinned zero rest = []
  settle_rest max_tokens pinned (suc n) rest =
      let shorter = settle_rest max_tokens pinned n rest in
      if ltb max_tokens (rendered_cost (pinned ++ take (suc n) rest))
      then shorter
      else take (suc n) rest

  unfoldable pub settle_against_budget : List Fact → List Fact → ℕ → List Fact
  unfolding settle_rest
  settle_against_budget pinned rest max_tokens =
      pinned ++ settle_rest max_tokens pinned (length rest) rest

  unfoldable pub is_no_query : Option Text → Bool
  unfolding is_nil
  is_no_query none = true
  is_no_query (some q) = is_nil q

  -- the part of `select_for_injection` below its first test, with the pinned facts in order
  unfoldable pub select_with : List Fact → List Fact → ℕ → Option Text → List Fact
  unfolding is_no_query select_rest settle_against_budget
  select_with [] facts max_tokens query =
      if is_no_query query
      then (lru_split facts max_tokens).0
      else if ltb max_tokens header_tokens
      then []
      else settle_against_budget []
          (select_rest (filter (λ f. not f.pin) facts) (max_tokens - header_tokens) query)
          max_tokens
  select_with (p ∷ ps) facts max_tokens query =
      let cost = rendered_cost (p ∷ ps) in
      if leb max_tokens cost
      then p ∷ ps
      else settle_against_budget (p ∷ ps)
          (select_rest (filter (λ f. not f.pin) facts) (max_tokens - cost) query) max_tokens

  unfoldable pub select_for_injection : List Fact → ℕ → Option Text → List Fact
  unfolding select_with
  select_for_injection [] max_tokens query = []
  select_for_injection (f ∷ fs) max_tokens query =
      select_with (sorted turn_before (filter (λ g. g.pin) (f ∷ fs))) (f ∷ fs) max_tokens query
