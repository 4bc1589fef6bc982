-- ===== src/Facts/Split/Partition.antt =====
-- compactor/facts.py: `_lru_split` loses no fact and doubles none.
use mathlib.Core.List.{
  Perm, Mem, Nodup, Nodup-append, mem-cons_self, mem-cons_of_mem, append_assoc, append-nil,
  map-append, perm_middle, reverse_perm,
}
use mathlib.Core.List.Perm
use mathlib.Core.Logic.{inl, inr}
use mathlib.Core.Path.{subst}
use zions_light_ai.Prelude.{
  ℕ, zero, suc, ◌+◌, ◌-◌, ◌≡◌, refl, ap, true, not, List, [], ◌∷◌, ◌++◌, map, length, take, drop,
  filter, all, arith, ltb, leb, ◌==◌, Bool-cases, ==_iff, filter-append, filter-not-all,
  take-append-drop,
}
use zions_light_ai.Prelude.Sort.{sorted, sorted-perm, filter-perm}
use zions_light_ai.Facts.{Fact, rendered_cost, header_tokens, fact_bullet_tokens}
use zions_light_ai.Facts.Split.{
  lru_before, turn_before, fill, settle, is_among, by_recency, kept_reversed, lru_split,
}

-- the identities of the facts
abbrev pub objects : List Fact → List ℕ
objects = map (λ f. f.object)

-- What the walk passes over completes what it keeps.
pub fill-perm :
    (budget running : ℕ) (fs : List Fact)
    → (rest : List Fact) × Perm (fill budget running fs ++ rest) fs
unfolding fill
fill-perm budget running [] = ([], Perm.refl [])
fill-perm budget running (f ∷ fs) =
    elim (Bool-cases (leb (running + fact_bullet_tokens f) budget)) [
      | inl e ↦
          let (rest, h) = fill-perm budget (running + fact_bullet_tokens f) fs in
          (rest, rw e (Perm.cons f h))
      | inr e ↦
          let (rest, h) = fill-perm budget running fs in
          (f ∷ rest, rw e (Perm.trans (perm_middle _ _) (Perm.cons f h)))
    ]

pub settle-take : (m n : ℕ) (fs : List Fact) → (k : ℕ) × (settle m n fs ≡ take k fs)
unfolding settle
settle-take m zero fs = (0, refl)
settle-take m (suc n) fs = elim (Bool-cases (ltb m (rendered_cost (take (suc n) fs)))) [
  | inl e ↦ let (k, h) = settle-take m n fs in (k, rw e h)
  | inr e ↦ (suc n, rw e refl)
]

-- The facts that `kept_reversed` keeps are completed to all the facts.
pub kept_reversed-perm :
    (facts : List Fact) (m : ℕ) → (rest : List Fact) × Perm (kept_reversed facts m ++ rest) facts
unfolding kept_reversed by_recency
kept_reversed-perm facts m =
    let filled = fill (m - header_tokens) 0 (by_recency facts) in
    let (rest, h) = fill-perm (m - header_tokens) 0 (by_recency facts) in
    let (k, e) = settle-take m (length filled) filled in
    (drop k filled ++ rest, rw (e, ← append_assoc, take-append-drop) (Perm.trans h order))
  where
    order : Perm (by_recency facts) facts
    order = Perm.trans (reverse_perm (sorted lru_before facts)) (sorted-perm lru_before facts)

among_self : (fs : List Fact) (f : Fact) → is_among (f ∷ fs) f ≡ true
unfolding is_among
among_self fs f = ground arith

all_among :
    (kept fs : List Fact) (f : Fact)
    → all (is_among kept) fs ≡ true
    → all (is_among (f ∷ kept)) fs ≡ true
unfolding is_among
all_among kept [] f h = refl
all_among kept (g ∷ fs) f h = ground (arith, all_among kept fs f)

pub all_among_self : (fs : List Fact) → all (is_among fs) fs ≡ true
all_among_self [] = refl
all_among_self (f ∷ fs) = rw (among_self fs f) (all_among fs fs f (all_among_self fs))

among-append :
    (kept more : List Fact) (f : Fact) → is_among kept f ≡ true → is_among (kept ++ more) f ≡ true
unfolding is_among
among-append [] more f h = cc
among-append (g ∷ kept) more f h = ground (arith, among-append kept more f)

pub all_among-append :
    (kept more fs : List Fact)
    → all (is_among kept) fs ≡ true
    → all (is_among (kept ++ more)) fs ≡ true
all_among-append kept more [] h = refl
all_among-append kept more (f ∷ fs) h =
    ground (arith, among-append kept more f, all_among-append kept more fs)

mem_of_among : (kept : List Fact) (f : Fact) → is_among kept f ≡ true → Mem f.object (objects kept)
unfolding is_among
mem_of_among [] f h = cc
mem_of_among (g ∷ kept) f h = elim (Bool-cases (g.object == f.object)) [
  | inl e ↦ rw ((==_iff g.object f.object).0 e) mem-cons_self
  | inr e ↦ mem-cons_of_mem g.object (mem_of_among kept f (ground arith))
]

-- Facts whose identities are not among those kept all pass the filter.
filter_others :
    (kept fs : List Fact)
    → ((a : ℕ) → Mem a (objects kept) → Mem a (objects fs) → ⊥)
    → filter (λ f. not (is_among kept f)) fs ≡ fs
filter_others kept [] apart = refl
filter_others kept (f ∷ fs) apart = elim (Bool-cases (is_among kept f)) [
  | inl e ↦ absurd (apart f.object (mem_of_among kept f e) mem-cons_self)
  | inr e ↦
      rw e (ap (◌∷◌ f) (filter_others kept fs (λ a h k. apart a h (mem-cons_of_mem f.object k))))
]

filter-not_among :
    (kept rest : List Fact)
    → Nodup (objects (kept ++ rest))
    → filter (λ f. not (is_among kept f)) (kept ++ rest) ≡ rest
filter-not_among kept rest d =
    let (_, _, apart) =
      Nodup-append.0
        (subst Nodup {y = objects kept ++ objects rest} (map-append (λ f. f.object) kept rest) d) in
    rw
      (
        filter-append (λ f. not (is_among kept f)) kept rest,
        filter-not-all (is_among kept) kept (all_among_self kept),
      )
      (filter_others kept rest apart)

abbrev evicted_of : List Fact → List Fact → List Fact
evicted_of kept facts = filter (λ f. not (is_among kept f)) facts

split-perm :
    (facts : List Fact) (m : ℕ)
    → Nodup (objects facts)
    → Perm
        (sorted turn_before (kept_reversed facts m)
          ++ sorted turn_before (evicted_of (kept_reversed facts m) facts))
        facts
split-perm facts m d =
    let (rest, h) = kept_reversed-perm facts m in
    let kept = kept_reversed facts m in
    let distinct : Nodup (objects (kept ++ rest)) =
      Perm.nodup (Perm.symm (Perm.map (λ f. f.object) h)) d in
    let others : Perm (evicted_of kept facts) rest =
      rw (filter-not_among kept rest distinct) at
        (filter-perm (λ f. not (is_among kept f)) (Perm.symm h)) in
    Perm.trans
      (Perm.append (sorted-perm turn_before kept) (Perm.trans (sorted-perm turn_before _) others)) h

-- Where the facts are distinct objects, every fact is kept or evicted, and none is both.
pub lru_split-perm :
    (facts : List Fact) (max_tokens : ℕ)
    → Nodup (objects facts)
    → Perm ((lru_split facts max_tokens).0 ++ (lru_split facts max_tokens).1) facts
unfolding lru_split
lru_split-perm [] m d = Perm.refl []
lru_split-perm (f ∷ fs) m d = elim (Bool-cases (ltb m header_tokens)) [
  | inl low ↦ rw (low, lru_split) (sorted-perm turn_before (f ∷ fs))
  | inr room ↦ elim (Bool-cases (leb (rendered_cost (f ∷ fs)) m)) [
    | inl fits ↦ rw (room, fits, lru_split, append-nil) (Perm.refl _)
    | inr over ↦ rw (room, over, lru_split) (split-perm (f ∷ fs) m d)
  ]
]
