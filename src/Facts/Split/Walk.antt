-- ===== src/Facts/Split/Walk.antt =====
-- compactor/facts.py: the order in which `_lru_split` walks over the facts, pinned ones first, and
-- what its walk and its last step keep of the first of them.
use mathlib.Core.List.{Perm, reverse-append, reverse_perm}
use mathlib.Core.Logic.{inl, inr}
use native.Mathlib.Nat.{add-zero, add_assoc}
use zions_light_ai.Prelude.{
  ◌∙◌, le→leb, leb→le, ltb→lt, if◌then◌else◌, ℕ, zero, suc, ◌+◌, ◌-◌, ◌*◌, ◌≤◌, ◌≡◌, refl, ap, Bool,
  true, not, List, [], ◌∷◌, ◌++◌, reverse, length, take, sum_by, arith, tests, ltb, leb, Bool-cases,
  filter, all, sum_by-append,
}
use zions_light_ai.Prelude.Sort.{insert, sorted, sorted-perm, sum_by-perm}
use zions_light_ai.Facts.{
  Fact, rendered_cost, line_length, fact_bullet_tokens, fact_bullet_tokens_lem,
}
use zions_light_ai.Facts.Split.{lru_before, fill, settle, by_recency}

abbrev pub is_pinned : Fact → Bool
is_pinned f = f.pin

-- in the sort order, what follows a pinned fact is pinned
abbrev PinsLast : List Fact → Type 0
PinsLast [] = Unit {0}
PinsLast (f ∷ fs) = (f.pin ≡ true → all is_pinned fs ≡ true) × PinsLast fs

all_pinned-insert :
    (x : Fact) (ys : List Fact)
    → x.pin ≡ true
    → all is_pinned ys ≡ true
    → all is_pinned (insert lru_before x ys) ≡ true
unfolding insert
all_pinned-insert x [] p h = ground arith
all_pinned-insert x (y ∷ ys) p h = ground (arith, all_pinned-insert x ys p)

insert-PinsLast : (x : Fact) (ys : List Fact) → PinsLast ys → PinsLast (insert lru_before x ys)
unfolding insert lru_before
insert-PinsLast x [] h = (λ p. refl, tt)
insert-PinsLast x (y ∷ ys) h = elim (Bool-cases (lru_before x y)) [
  | inl e ↦ rw (e, PinsLast) (λ p. ground (arith, h.0), h)
  | inr e ↦
      rw (e, PinsLast)
        (λ p. all_pinned-insert x ys (ground arith) (h.0 p), insert-PinsLast x ys h.1)
]

sorted-PinsLast : (fs : List Fact) → PinsLast (sorted lru_before fs)
unfolding sorted
sorted-PinsLast [] = tt
sorted-PinsLast (f ∷ fs) = insert-PinsLast f (sorted lru_before fs) (sorted-PinsLast fs)

abbrev pub is_free : Fact → Bool
is_free f = not f.pin

-- Such a list is cut where its pinned facts begin.
pub cut :
    (fs : List Fact)
    → PinsLast fs
    → (free pins : List Fact) × (fs ≡ free ++ pins)
      × (all is_free free ≡ true)
      × (all is_pinned pins ≡ true)
cut [] h = ([], [], refl, refl, refl)
cut (f ∷ fs) h = elim (Bool-cases f.pin) [
  | inl p ↦ ([], f ∷ fs, refl, refl, ground (arith, h.0 p))
  | inr p ↦
      let (free, pins, e, a, b) = cut fs h.1 in (f ∷ free, pins, ap (◌∷◌ f) e, ground arith, b)
]

-- the sum of the costs by which the walk judges
abbrev pub bullets : List Fact → ℕ
bullets = sum_by fact_bullet_tokens

pub bullets-le : (fs : List Fact) → 4 * bullets fs ≤ sum_by line_length fs
bullets-le [] = omega arith
bullets-le (f ∷ fs) = omega (arith, bullets-le fs, fact_bullet_tokens_lem f)

-- A first part that fits is kept whole.
pub fill-append :
    (budget running : ℕ) (ps us : List Fact)
    → running + bullets ps ≤ budget
    → fill budget running (ps ++ us) ≡ ps ++ fill budget (running + bullets ps) us
unfolding fill
fill-append budget running [] us h = rw add-zero refl
fill-append budget running (p ∷ ps) us h =
    let e = le→leb (running + fact_bullet_tokens p) budget (omega arith) in
    rw e (
      ap (◌∷◌ p) (
        fill-append budget (running + fact_bullet_tokens p) ps us (omega arith)
        ∙ ap (λ n. ps ++ fill budget n us) (add_assoc running (fact_bullet_tokens p) (bullets ps))))

-- The last step stops no earlier than at a first part that fits.
pub settle-keeps :
    (m n j : ℕ) (fs : List Fact)
    → j ≤ n
    → rendered_cost (take j fs) ≤ m
    → (k : ℕ) × (j ≤ k) × (settle m n fs ≡ take k fs)
unfolding settle
settle-keeps m zero j fs h c = (0, h, refl)
settle-keeps m (suc n) j fs h c = elim (Bool-cases (ltb m (rendered_cost (take (suc n) fs)))) [
  | inl e ↦ elim (Bool-cases (leb j n)) [
    | inl below ↦
        let (k, above, same) = settle-keeps m n j fs (leb→le j n below) c in (k, above, rw e same)
    | inr last ↦
        let q : j ≡ suc n = omega tests in
        absurd (omega (tests, ltb→lt _ _ e, ap (λ i. rendered_cost (take i fs)) q))
  ]
  | inr e ↦ (suc n, h, rw e refl)
]

-- A filter that looks at a list and at another list with the same elements passes all of both.
misses : (Fact → Bool) → List Fact → ℕ
misses q = sum_by (λ f. if q f then 0 else 1)

all-misses : (q : Fact → Bool) (fs : List Fact) → all q fs ≡ true → misses q fs ≡ 0
unfolding misses
all-misses q [] h = refl
all-misses q (f ∷ fs) h = ground (arith, all-misses q fs)

misses-all : (q : Fact → Bool) (fs : List Fact) → misses q fs ≡ 0 → all q fs ≡ true
unfolding misses
misses-all q [] h = refl
misses-all q (f ∷ fs) h = ground (arith, misses-all q fs)

pub all-perm :
    (q : Fact → Bool) (xs ys : List Fact) → Perm xs ys → all q ys ≡ true → all q xs ≡ true
unfolding misses
all-perm q xs ys h a =
    misses-all q xs (sum_by-perm (λ f. if q f then 0 else 1) h ∙ all-misses q ys a)

pub take-past :
    (k : ℕ) (ps us : List Fact) → length ps ≤ k → take k (ps ++ us) ≡ ps ++ take (k - length ps) us
take-past k [] us h = ap (λ n. take n us) (omega arith)
take-past zero (p ∷ ps) us h = absurd (omega arith)
take-past (suc k) (p ∷ ps) us h =
    ap (◌∷◌ p) (take-past k ps us (omega arith) ∙ ap (λ n. ps ++ take n us) (omega arith))

-- the lengths of the pinned facts alone
abbrev pinned_length : List Fact → ℕ
pinned_length = sum_by (λ f. if f.pin then line_length f else 0)

pinned_length-filter :
    (fs : List Fact) → sum_by line_length (filter is_pinned fs) ≡ pinned_length fs
pinned_length-filter [] = refl
pinned_length-filter (f ∷ fs) = ground (arith, pinned_length-filter fs)

pinned_length-all :
    (fs : List Fact) → all is_pinned fs ≡ true → pinned_length fs ≡ sum_by line_length fs
pinned_length-all [] h = refl
pinned_length-all (f ∷ fs) h = ground (arith, pinned_length-all fs)

-- the facts in the order of the walk, cut where the pinned ones end
pub walk :
    (facts : List Fact)
    → (ps us : List Fact) × (by_recency facts ≡ ps ++ us)
      × (all is_pinned ps ≡ true)
      × (all is_free us ≡ true)
      × (sum_by line_length ps ≤ sum_by line_length (filter is_pinned facts))
unfolding by_recency
walk facts =
    let (free, pins, e, a, b) = cut (sorted lru_before facts) (sorted-PinsLast facts) in
    (
      reverse pins,
      reverse free,
      ap reverse e ∙ reverse-append free pins,
      all-perm is_pinned (reverse pins) pins (reverse_perm pins) b,
      all-perm is_free (reverse free) free (reverse_perm free) a,
      omega (
        arith,
        sum_by-perm line_length (reverse_perm pins),
        pinned_length-all pins b,
        sum_by-append (λ f. if f.pin then line_length f else 0) free pins,
        ap pinned_length e,
        sum_by-perm (λ f. if f.pin then line_length f else 0) (sorted-perm lru_before facts),
        pinned_length-filter facts,
      ),
    )

pub take-length : (ps us : List Fact) → take (length ps) (ps ++ us) ≡ ps
take-length [] us = refl
take-length (p ∷ ps) us = ap (◌∷◌ p) (take-length ps us)
