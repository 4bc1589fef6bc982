-- ===== src/Portability/Merge.antt =====
-- compactor/portability.py: a merge of facts loses neither side's facts, pins or uses.
use mathlib.Core.Logic.{inl, inr}
use zions_light_ai.Prelude.{
  ℕ, ◌+◌, ◌≤◌, ◌≡◌, refl, ap, ◌∙◌, Bool, true, false, not, ◌&&◌, ◌||◌, Option, none, some, List, [],
  ◌∷◌, length, any, all, filter, leb, if◌then◌else◌, arith, Bool-cases,
}
use zions_light_ai.Prelude.Text.{Text, same_text, same_text_refl}
use zions_light_ai.Facts.{Fact}
use zions_light_ai.Portability.{
  Merging, merge_pin_and_recency, is_changed, fact_key, same_key, fold_in, has_key, absorb,
  merge_from, merge_fact_lists,
}
use zions_light_ai.Portability.Counts.{keyed, one_of, Merges, merge_from-Merges}

-- `y` is `x` with more protection at most
abbrev pub Stronger : Fact → Fact → Type 0
Stronger x y =
    (y.text ≡ x.text)
    × (y.added_turn ≡ x.added_turn)
    × (x.last_used ≤ y.last_used)
    × ((not x.pin || y.pin) ≡ true)

-- the facts at their places, with more protection at most, and others after them
abbrev pub Keeps : List Fact → List Fact → Type 0
Keeps [] ys = true ≡ true
Keeps (x ∷ xs) [] = true ≡ false
Keeps (x ∷ xs) (y ∷ ys) = Stronger x y × Keeps xs ys

Keeps-refl : (xs : List Fact) → Keeps xs xs
Keeps-refl [] = refl
Keeps-refl (x ∷ xs) = ((refl, refl, omega arith, ground arith), Keeps-refl xs)

Keeps-trans : (xs ys zs : List Fact) → Keeps xs ys → Keeps ys zs → Keeps xs zs
Keeps-trans [] ys zs h k = refl
Keeps-trans (x ∷ xs) [] zs h k = cc
Keeps-trans (x ∷ xs) (y ∷ ys) [] h k = k
Keeps-trans (x ∷ xs) (y ∷ ys) (z ∷ zs) ((a, b, c, d), h) ((a', b', c', d'), k) =
    ((a' ∙ a, b' ∙ b, omega (arith, c, c'), ground (arith, d, d')), Keeps-trans xs ys zs h k)

module _ (casefold : Text → Text) where
  -- a fact of the same key, as pinned and as recent at least
  abbrev pub is_copy : Fact → Fact → Bool
  is_copy f g = same_key casefold f g && ((not f.pin || g.pin) && leb f.last_used g.last_used)

  Stronger-is_copy : (f x y : Fact) → Stronger x y → is_copy f x ≡ true → is_copy f y ≡ true
  Stronger-is_copy f x y (a, b, c, d) h =
      let same : same_key casefold f y ≡ same_key casefold f x =
        ap (λ t. same_text (fact_key casefold f.text) (fact_key casefold t)) a in
      ground (arith, same, c, d, h)

  Keeps-copy :
      (f : Fact) (xs ys : List Fact)
      → Keeps xs ys
      → any (is_copy f) xs ≡ true
      → any (is_copy f) ys ≡ true
  Keeps-copy f [] ys h e = cc
  Keeps-copy f (x ∷ xs) [] h e = cc
  Keeps-copy f (x ∷ xs) (y ∷ ys) (s, h) e = elim (Bool-cases (is_copy f x)) [
    | inl here ↦ let same = Stronger-is_copy f x y s here in ground (arith, same)
    | inr later ↦ let rest = Keeps-copy f xs ys h (ground (arith, later, e)) in ground (arith, rest)
  ]

  fold_in-Keeps :
      (floor : Option ℕ) (f : Fact) (gs : List Fact) → Keeps gs (fold_in casefold floor f gs).merged
  unfolding fold_in merge_pin_and_recency
  fold_in-Keeps floor f [] = refl
  fold_in-Keeps floor f (g ∷ gs) = elim (Bool-cases (same_key casefold f g)) [
    | inl same ↦ rw same ((refl, refl, omega arith, ground arith), Keeps-refl gs)
    | inr other ↦ rw other ((refl, refl, omega arith, ground arith), fold_in-Keeps floor f gs)
  ]

  fold_in-copy :
      (floor : Option ℕ) (f : Fact) (gs : List Fact)
      → any (is_copy f) (fold_in casefold floor f gs).merged ≡ true
  unfolding fold_in merge_pin_and_recency
  fold_in-copy none f [] = ground (arith, same_text_refl (fact_key casefold f.text))
  fold_in-copy (some n) f [] = ground (arith, same_text_refl (fact_key casefold f.text))
  fold_in-copy floor f (g ∷ gs) = elim (Bool-cases (same_key casefold f g)) [
    | inl same ↦ rw same (ground (arith, same))
    | inr other ↦ let rest = fold_in-copy floor f gs in rw other (ground (arith, rest))
  ]

  -- One fact is added, updated or left, and only an added one makes the list longer.
  fold_in-counts :
      (floor : Option ℕ) (f : Fact) (gs : List Fact)
      → let m = fold_in casefold floor f gs in
        (m.added + m.updated + m.unchanged ≡ 1) × (length m.merged ≡ length gs + m.added)
  unfolding fold_in
  fold_in-counts floor f [] = (omega arith, omega arith)
  fold_in-counts floor f (g ∷ gs) = elim (Bool-cases (same_key casefold f g)) [
    | inl same ↦ elim (Bool-cases (is_changed g f)) [
      | inl changed ↦ rw (same, changed) (omega arith, omega arith)
      | inr kept ↦ rw (same, kept) (omega arith, omega arith)
    ]
    | inr other ↦ let (one, more) = fold_in-counts floor f gs in rw other (one, omega (arith, more))
  ]

  abbrev counted : Merging → ℕ
  counted m = m.added + m.updated + m.unchanged

  -- the loop's progress from one state to another, over some facts
  abbrev Merged : Merging → List Fact → Merging → Type 0
  Merged m fs r =
      Keeps m.merged r.merged
      × (all (λ f. not (keyed casefold f) || any (is_copy f) r.merged) fs ≡ true)
      × (counted r ≡ counted m + length (filter (keyed casefold) fs))
      × (length r.merged + m.added ≡ length m.merged + r.added)

  absorb-Merged :
      (floor : Option ℕ) (m : Merging) (f : Fact)
      → let r = absorb casefold floor m f in
        Keeps m.merged r.merged
        × ((not (keyed casefold f) || any (is_copy f) r.merged) ≡ true)
        × (counted r ≡ counted m + (if keyed casefold f then 1 else 0))
        × (length r.merged + m.added ≡ length m.merged + r.added)
  unfolding absorb
  absorb-Merged floor m f = elim (Bool-cases (keyed casefold f)) [
    | inr keyless ↦ rw keyless (Keeps-refl m.merged, refl, omega arith, omega arith)
    | inl key ↦
        let (one, more) = fold_in-counts floor f m.merged in
        rw key (
          fold_in-Keeps floor f m.merged,
          fold_in-copy floor f m.merged,
          omega (arith, one),
          omega (arith, more),
        )
  ]

  merge_from-Merged :
      (floor : Option ℕ) (m : Merging) (fs : List Fact)
      → Merged m fs (merge_from casefold floor m fs)
  unfolding merge_from
  merge_from-Merged floor m [] = (Keeps-refl m.merged, refl, omega arith, omega arith)
  merge_from-Merged floor m (f ∷ fs) =
      let n = absorb casefold floor m f in
      let r = merge_from casefold floor n fs in
      let (first, copied, one, more) = absorb-Merged floor m f in
      let (keeps, held, count, size) = merge_from-Merged floor n fs in
      (
        Keeps-trans m.merged n.merged r.merged first keeps,
        elim (Bool-cases (keyed casefold f)) [
          | inl key ↦
              let still = Keeps-copy f n.merged r.merged keeps (ground (arith, key, copied)) in
              ground (arith, still, held)
          | inr keyless ↦ ground (arith, keyless, held)
        ],
        elim (Bool-cases (keyed casefold f)) [
          | inl key ↦ ground (arith, key, count, one)
          | inr keyless ↦ ground (arith, keyless, count, one)
        ],
        omega (arith, size, more),
      )

  -- A merge keeps each fact of the destination at its place, with its text and turn, and as pinned and
  -- as recent at least; has for each fact of the source that has a key one of the same key, as pinned
  -- and as recent at least; and counts each of those once. In the order of the source, a fact whose
  -- key is not there yet goes to the end and is added; one whose key is there is unchanged if the
  -- first fact of the key is as pinned and as recent, and otherwise updates exactly that one's pin
  -- and use. The added ones are what the list grows by.
  pub merge_fact_lists_lem :
      (dst src : List Fact) (floor : Option ℕ)
      → let r = merge_fact_lists casefold dst src floor in
        (Keeps dst r.merged
          × (all
                (λ f. not (has_key casefold (fact_key casefold f.text)) || any (is_copy f) r.merged)
                src
              ≡ true)
          × (r.added + r.updated + r.unchanged
              ≡ length (filter (λ f. has_key casefold (fact_key casefold f.text)) src))
          × (length r.merged ≡ length dst + r.added))
        × Merges casefold floor (one_of casefold dst 0 0 0) src r
  unfolding merge_fact_lists
  merge_fact_lists_lem dst src floor =
      let start : Merging = record { merged = dst; added = 0; updated = 0; unchanged = 0 } in
      let (keeps, held, count, size) = merge_from-Merged floor start src in
      (
        (keeps, held, omega (arith, count), omega (arith, size)),
        merge_from-Merges casefold floor start src,
      )
