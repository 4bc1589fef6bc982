-- ===== src/Facts/Select/Pins.antt =====
-- compactor/facts.py: `select_for_injection` takes every pinned fact, and each fact once at most.
use mathlib.Core.List.{zip, Perm, Nodup, append-nil, append_assoc}
use mathlib.Core.List.Perm
use mathlib.Core.Logic.{inl, inr}
use mathlib.Core.Path.{subst}
use zions_light_ai.Prelude.{
  ℕ, zero, suc, ◌≡◌, refl, ap, Bool, not, ◌||◌, Option, none, some, List, [], ◌∷◌, ◌++◌, map,
  length, take, drop, filter, any, arith, ltb, leb, ◌==◌, Bool-cases, ==_iff, take-append-drop,
}
use zions_light_ai.Prelude.Text.{Text}
use zions_light_ai.Prelude.Sort.{sorted, sorted-perm, partition-perm}
use zions_light_ai.Facts.{Fact, header_tokens, rendered_cost}
use zions_light_ai.Facts.Split.{turn_before, lru_split}
use zions_light_ai.Facts.Split.Partition.{fill-perm, objects, lru_split-perm}
use zions_light_ai.Facts.Select.{
  Embedder, rank, relevance_order, greedy_fill_by_priority, priority_of, select_rest, settle_rest,
  select_with, select_for_injection, is_no_query, is_nil,
}

-- The elements of one list are among those of another, each as often at most.
abbrev pub Within : List Fact → List Fact → Type 0
Within xs ys = (rest : List Fact) × Perm (xs ++ rest) ys

Within-trans : (xs ys zs : List Fact) → Within xs ys → Within ys zs → Within xs zs
Within-trans xs ys zs (r, h) (s, k) =
    (r ++ s, rw (← append_assoc) (Perm.trans (Perm.append_right s h) k))

Within-perm : (xs ys : List Fact) → Perm xs ys → Within xs ys
Within-perm xs ys h = ([], rw append-nil h)

Within-nil : (ys : List Fact) → Within [] ys
Within-nil ys = (ys, Perm.refl ys)

Within-take : (n : ℕ) (xs : List Fact) → Within (take n xs) xs
Within-take n xs = (drop n xs, rw take-append-drop (Perm.refl xs))

Within-sorted :
    (before : Fact → Fact → Bool) (xs ys : List Fact) → Within xs ys → Within (sorted before xs) ys
Within-sorted before xs ys (r, h) = (r, Perm.trans (Perm.append_right r (sorted-perm before xs)) h)

zip_facts :
    {V : Type 0} (fs : List Fact) (vs : List V)
    → length vs ≡ length fs
    → map (λ p. p.0) (zip fs vs) ≡ fs
unfolding zip
zip_facts [] vs h = refl
zip_facts (f ∷ fs) [] h = absurd (omega arith)
zip_facts (f ∷ fs) (v ∷ vs) h = ap (◌∷◌ f) (zip_facts fs vs (omega arith))

module _ {V : Type 0} (e : Embedder V) where
  abbrev nearest : V → Fact × V → Fact × V → Bool
  nearest q a b = e.nearer q a.1 b.1

  rank-perm :
      (fs : List Fact) (answer : Option (List V)) → Within (priority_of e fs (rank e fs answer)) fs
  unfolding rank priority_of
  rank-perm fs none = Within-perm _ fs (sorted-perm _ fs)
  rank-perm fs (some []) = Within-perm _ fs (sorted-perm _ fs)
  rank-perm fs (some (q ∷ vs)) = elim (Bool-cases (length vs == length fs)) [
    | inl same ↦
        rw (same, priority_of)
          (Within-perm _ fs (
            subst (Perm (map (λ p. p.0) (sorted (nearest q) (zip fs vs))))
              (zip_facts fs vs ((==_iff (length vs) (length fs)).0 same))
              (Perm.map (λ p. p.0) (sorted-perm (nearest q) (zip fs vs)))))
    | inr differ ↦ rw (differ, priority_of) (Within-perm _ fs (sorted-perm _ fs))
  ]

  priority-Within :
      (fs : List Fact) (query : Option Text)
      → Within (priority_of e fs (relevance_order e fs query)) fs
  unfolding relevance_order priority_of
  priority-Within fs none = Within-perm _ fs (sorted-perm _ fs)
  priority-Within fs (some q) = elim (Bool-cases (is_nil q || is_nil fs)) [
    | inl nothing ↦ rw (nothing, priority_of) (Within-perm _ fs (sorted-perm _ fs))
    | inr asked ↦ elim (Bool-cases (any (λ f. is_nil f.text) fs)) [
      | inl blank ↦ rw (asked, blank, priority_of) (Within-perm _ fs (sorted-perm _ fs))
      | inr full ↦ rw (asked, full) (rank-perm fs _)
    ]
  ]

  fill-Within :
      (xs ys : List Fact) (budget : ℕ)
      → Within xs ys
      → Within (greedy_fill_by_priority e xs budget) ys
  unfolding greedy_fill_by_priority
  fill-Within xs ys budget h = elim (Bool-cases (leb budget 0)) [
    | inl none_left ↦ rw none_left (Within-nil ys)
    | inr some_left ↦
        rw some_left
          (Within-sorted turn_before _ ys (Within-trans _ xs ys (fill-perm budget 0 xs) h))
  ]

  select_rest-Within :
      (fs : List Fact) (budget : ℕ) (query : Option Text)
      → Within (select_rest e fs budget query) fs
  unfolding select_rest
  select_rest-Within fs budget query = elim (Bool-cases (is_nil fs || leb budget 0)) [
    | inl nothing ↦ rw nothing (Within-nil fs)
    | inr some_left ↦ rw some_left (fill-Within _ fs budget (priority-Within fs query))
  ]

  settle_rest-take :
      (m : ℕ) (pinned : List Fact) (n : ℕ) (rest : List Fact)
      → (k : ℕ) × (settle_rest e m pinned n rest ≡ take k rest)
  unfolding settle_rest
  settle_rest-take m pinned zero rest = (0, refl)
  settle_rest-take m pinned (suc n) rest =
      elim (Bool-cases (ltb m (rendered_cost (pinned ++ take (suc n) rest)))) [
        | inl over ↦ let (k, h) = settle_rest-take m pinned n rest in (k, rw over h)
        | inr fits ↦ (suc n, rw fits refl)
      ]

  settle_rest-Within :
      (m : ℕ) (pinned : List Fact) (n : ℕ) (rest fs : List Fact)
      → Within rest fs
      → Within (settle_rest e m pinned n rest) fs
  settle_rest-Within m pinned n rest fs h =
      let (k, same) = settle_rest-take m pinned n rest in
      rw same (Within-trans (take k rest) rest fs (Within-take k rest) h)

  abbrev Selects : List Fact → List Fact → List Fact → Type 0
  Selects pinned others selected =
      (more : List Fact) × (selected ≡ pinned ++ more) × Within more others

  select_with-Selects :
      (pinned facts : List Fact) (m : ℕ) (query : Option Text)
      → (pinned ≡ [] → Perm (filter (λ f. not f.pin) facts) facts)
      → Nodup (objects facts)
      → Selects pinned (filter (λ f. not f.pin) facts) (select_with e pinned facts m query)
  unfolding select_with
  select_with-Selects [] facts m query all_free d = elim (Bool-cases (is_no_query e query)) [
    | inl old ↦ rw old (
      (lru_split facts m).0,
      refl,
      ((lru_split facts m).1, Perm.trans (lru_split-perm facts m d) (Perm.symm (all_free refl))),
    )
    | inr ranked ↦ elim (Bool-cases (ltb m header_tokens)) [
      | inl low ↦ rw (ranked, low) ([], refl, Within-nil _)
      | inr room ↦
          rw (ranked, room)
            (
              _,
              refl,
              settle_rest-Within m [] _ _ _
                  (select_rest-Within (filter (λ f. not f.pin) facts) _ query),
            )
    ]
  ]
  select_with-Selects (p ∷ ps) facts m query all_free d =
      elim (Bool-cases (leb m (rendered_cost (p ∷ ps)))) [
        | inl full ↦ rw full ([], rw append-nil refl, Within-nil _)
        | inr room ↦ rw room (
          _,
          refl,
          settle_rest-Within m (p ∷ ps) _ _ _
              (select_rest-Within (filter (λ f. not f.pin) facts) _ query),
        )
      ]

free_all :
    (facts : List Fact)
    → sorted turn_before (filter (λ f. f.pin) facts) ≡ []
    → Perm (filter (λ f. not f.pin) facts) facts
free_all facts h =
    let none_pinned : filter (λ f. f.pin) facts ≡ [] =
      Perm.eq-nil
        (subst (Perm (filter (λ f. f.pin) facts)) h (Perm.symm (sorted-perm turn_before _))) in
    subst (λ l. Perm (l ++ filter (λ f. not f.pin) facts) facts) none_pinned
      (partition-perm (λ f. f.pin) facts)

-- Where the facts are distinct objects, the selection is all the pinned facts by turn, and then
-- facts that are not pinned, each once at most: whatever the budget, the query and the embedder.
pub select_for_injection_pins :
    {V : Type 0} (e : Embedder V) (facts : List Fact) (max_tokens : ℕ) (query : Option Text)
    → Nodup (objects facts)
    → (more : List Fact) × (select_for_injection e facts max_tokens query
        ≡ sorted turn_before (filter (λ f. f.pin) facts) ++ more)
      × Within more (filter (λ f. not f.pin) facts)
unfolding select_for_injection sorted
select_for_injection_pins e [] m query d = ([], refl, Within-nil [])
select_for_injection_pins e (f ∷ fs) m query d =
    select_with-Selects e (sorted turn_before (filter (λ g. g.pin) (f ∷ fs))) (f ∷ fs) m query
      (free_all (f ∷ fs)) d
