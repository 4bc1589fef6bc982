-- ===== src/Facts/Split/Pins.antt =====
-- compactor/facts.py: `_lru_split` evicts no pinned fact while the pinned facts fit by themselves.
use mathlib.Core.List.{Perm, reverse_perm}
use mathlib.Core.List.Perm
use mathlib.Core.Logic.{inl, inr}
use zions_light_ai.Prelude.{
  ◌∙◌, ltb→lt, ℕ, ◌+◌, ◌-◌, ◌/◌, ◌≤◌, ◌≡◌, refl, Bool, true, not, ◌||◌, List, [], ◌∷◌, ◌++◌, length,
  take, sum_by, arith, tests, ltb, leb, Bool-cases, filter, all, length-append,
}
use zions_light_ai.Prelude.Sort.{sorted, sorted-perm}
use zions_light_ai.Facts.{
  Fact, rendered_cost, rendered_cost-le, header_tokens_lem, header_tokens, line_length,
  facts_block_header,
}
use zions_light_ai.Facts.Split.{
  lru_before, turn_before, settle, is_among, by_recency, kept_reversed, lru_split,
}
use zions_light_ai.Facts.Split.Partition.{all_among-append, all_among_self}
use mathlib.Core.Path.{subst}
use zions_light_ai.Facts.Split.Walk.{
  is_pinned, is_free, bullets, bullets-le, fill-append, settle-keeps, all-perm, take-past,
  take-length, walk,
}

-- kept, or not pinned
abbrev is_safe : List Fact → Fact → Bool
is_safe kept f = not f.pin || is_among kept f

all_safe-append :
    (kept xs ys : List Fact)
    → all (is_safe kept) xs ≡ true
    → all (is_safe kept) ys ≡ true
    → all (is_safe kept) (xs ++ ys) ≡ true
all_safe-append kept [] ys h k = k
all_safe-append kept (x ∷ xs) ys h k = ground (arith, all_safe-append kept xs ys)

free-safe : (kept fs : List Fact) → all is_free fs ≡ true → all (is_safe kept) fs ≡ true
free-safe kept [] h = refl
free-safe kept (f ∷ fs) h = ground (arith, free-safe kept fs)

among-safe : (kept fs : List Fact) → all (is_among kept) fs ≡ true → all (is_safe kept) fs ≡ true
among-safe kept [] h = refl
among-safe kept (f ∷ fs) h = ground (arith, among-safe kept fs)

safe-evicted :
    (kept fs : List Fact)
    → all (is_safe kept) fs ≡ true
    → all is_free (filter (λ f. not (is_among kept f)) fs) ≡ true
safe-evicted kept [] h = refl
safe-evicted kept (f ∷ fs) h = ground (arith, safe-evicted kept fs)

-- After the last step the pinned facts still come first, all of them.
settle-append :
    (m : ℕ) (ps us : List Fact)
    → rendered_cost ps ≤ m
    → (more : List Fact) × (settle m (length (ps ++ us)) (ps ++ us) ≡ ps ++ more)
settle-append m ps us h =
    let (k, above, same) =
      settle-keeps m (length (ps ++ us)) (length ps) (ps ++ us) (omega (arith, length-append ps us))
        (rw (take-length ps us) h) in
    (take (k - length ps) us, same ∙ take-past k ps us above)

kept_shape :
    (facts ps us : List Fact) (m : ℕ)
    → by_recency facts ≡ ps ++ us
    → bullets ps ≤ m - header_tokens
    → rendered_cost ps ≤ m
    → (more : List Fact) × (kept_reversed facts m ≡ ps ++ more)
unfolding kept_reversed
kept_shape facts ps us m e fits cost =
    let filled = fill-append (m - header_tokens) 0 ps us (omega arith) in
    rw (e, filled) (settle-append m ps _ cost)

keeps_pins :
    (facts : List Fact) (m : ℕ)
    → (length facts_block_header + 1 + sum_by line_length (filter is_pinned facts)) / 4 ≤ m
    → all (is_safe (kept_reversed facts m)) facts ≡ true
unfolding by_recency
keeps_pins facts m h =
    let (ps, us, e, a, b, s) = walk facts in
    let (more, shape) =
      kept_shape facts ps us m e (omega (arith, bullets-le ps, header_tokens_lem))
        (omega (arith, rendered_cost-le ps)) in
    let order : Perm facts (ps ++ us) = Perm.trans (Perm.symm (sorted-perm lru_before facts)) (
      Perm.trans (Perm.symm (reverse_perm (sorted lru_before facts)))
        (subst (λ l. Perm (by_recency facts) l) e (Perm.refl (by_recency facts)))) in
    rw shape (
      all-perm (is_safe (ps ++ more)) facts (ps ++ us) order (
        all_safe-append (ps ++ more) ps us
          (among-safe (ps ++ more) ps (all_among-append ps more ps (all_among_self ps)))
          (free-safe (ps ++ more) us b)))

-- Where the block of the pinned facts alone, made one character longer, costs the budget at most, no
-- pinned fact is evicted.
pub lru_split_pinned :
    (facts : List Fact) (max_tokens : ℕ)
    → (length facts_block_header + 1 + sum_by line_length (filter is_pinned facts)) / 4 ≤ max_tokens
    → all is_free (lru_split facts max_tokens).1 ≡ true
unfolding lru_split
lru_split_pinned [] m h = refl
lru_split_pinned (f ∷ fs) m h = elim (Bool-cases (ltb m header_tokens)) [
  | inl low ↦ absurd (omega (tests, ltb→lt _ _ low, header_tokens_lem))
  | inr room ↦ elim (Bool-cases (leb (rendered_cost (f ∷ fs)) m)) [
    | inl fits ↦ rw (room, fits, lru_split) refl
    | inr over ↦
        rw (room, over, lru_split)
          (all-perm is_free _ _ (sorted-perm turn_before _)
            (safe-evicted (kept_reversed (f ∷ fs) m) (f ∷ fs) (keeps_pins (f ∷ fs) m h)))
  ]
]
