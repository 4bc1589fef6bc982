-- ===== src/Portability/Counts.antt =====
-- compactor/portability.py: what a merge of facts does to the list and to its three counts, fact by fact.
use mathlib.Core.Logic.{inl, inr, ◌⊎◌}
use zions_light_ai.Prelude.{
  ℕ, ◌+◌, ◌≡◌, refl, ap, Bool, true, false, not, ◌&&◌, ◌||◌, Option, List, [], ◌∷◌, ◌++◌, max, any,
  leb, arith, Bool-cases,
}
use zions_light_ai.Prelude.Text.{Text}
use zions_light_ai.Facts.{Fact}
use zions_light_ai.Portability.{
  Merging, merge_pin_and_recency, is_changed, fact_key, same_key, fold_in, has_key, absorb,
  merge_from, floored,
}

module _ (casefold : Text → Text) where
  abbrev pub keyed : Fact → Bool
  keyed f = has_key casefold (fact_key casefold f.text)

  abbrev pub is_covered : Fact → Fact → Bool
  is_covered f g = (not f.pin || g.pin) && leb f.last_used g.last_used

  abbrev pub one_of : List Fact → ℕ → ℕ → ℕ → Merging
  one_of merged added updated unchanged = record {
    merged = merged;
    added = added;
    updated = updated;
    unchanged = unchanged;
  }

  -- What one fact with a key does to a list. A list without its key gets it at the end: one added.
  -- Of a list with its key, the first fact of the key stays as it is where it is as pinned and as
  -- recent: one unchanged. Otherwise it takes the pin and the later use: one updated.
  abbrev pub Folds : Option ℕ → Fact → List Fact → Merging → Type 0
  Folds floor f gs d =
      ((any (same_key casefold f) gs ≡ false) × (d ≡ one_of (gs ++ floored floor f ∷ []) 1 0 0))
      ⊎ ((before : List Fact) × (g : Fact) × (after : List Fact) × (gs ≡ before ++ g ∷ after)
          × (any (same_key casefold f) before ≡ false)
          × (same_key casefold f g ≡ true)
          × (is_covered f g ≡ true → d ≡ one_of gs 0 0 1)
          × (is_covered f g ≡ false
              → d
                ≡ one_of
                    (before
                      ++ record g { pin = g.pin || f.pin; last_used = max g.last_used f.last_used }
                        ∷ after)
                    0 1 0))

  -- the run over the source's facts, in order: one without a key does nothing
  abbrev pub Merges : Option ℕ → Merging → List Fact → Merging → Type 0
  Merges floor m [] r = r ≡ m
  Merges floor m (f ∷ fs) r =
      ((keyed f ≡ false) × Merges floor m fs r)
      ⊎ ((keyed f ≡ true)
          × ((d : Merging) × Folds floor f m.merged d
              × Merges floor
                  (one_of d.merged (m.added + d.added) (m.updated + d.updated)
                    (m.unchanged + d.unchanged))
                  fs r))

  is_changed_lem : (g f : Fact) → is_changed g f ≡ not (is_covered f g)
  unfolding is_changed
  is_changed_lem g f = ground arith

  covered-same : (f g : Fact) → is_covered f g ≡ true → merge_pin_and_recency g f ≡ g
  unfolding merge_pin_and_recency
  covered-same f g h =
      let p : (g.pin || f.pin) ≡ g.pin = ground (arith, h) in
      let u : max g.last_used f.last_used ≡ g.last_used = ground (arith, h) in rw (p, u) refl

  fold_in-Folds :
      (floor : Option ℕ) (f : Fact) (gs : List Fact)
      → Folds floor f gs (fold_in casefold floor f gs)
  unfolding fold_in merge_pin_and_recency
  fold_in-Folds floor f [] = inl (refl, refl)
  fold_in-Folds floor f (g ∷ gs) = elim (Bool-cases (same_key casefold f g)) [
    | inl same ↦
        let changed = is_changed_lem g f in
        inr (
          [],
          g,
          gs,
          refl,
          refl,
          same,
          λ h. rw (same, changed, h, covered-same f g h) refl,
          λ h. rw (same, changed, h) refl,
        )
    | inr other ↦ elim (fold_in-Folds floor f gs) [
      | inl (absent, e) ↦ inl (ground (arith, other, absent), rw (other, e) refl)
      | inr (before, g', after, split, absent, same, kept, updated) ↦ inr (
        g ∷ before,
        g',
        after,
        ap (◌∷◌ g) split,
        ground (arith, other, absent),
        same,
        λ h. rw (other, kept h) refl,
        λ h. rw (other, updated h) refl,
      )
    ]
  ]

  pub merge_from-Merges :
      (floor : Option ℕ) (m : Merging) (fs : List Fact)
      → Merges floor m fs (merge_from casefold floor m fs)
  unfolding merge_from absorb
  merge_from-Merges floor m [] = refl
  merge_from-Merges floor m (f ∷ fs) = elim (Bool-cases (keyed f)) [
    | inr keyless ↦ inl (keyless, rw keyless (merge_from-Merges floor m fs))
    | inl key ↦
        let d = fold_in casefold floor f m.merged in
        inr (
          key,
          (
            d,
            fold_in-Folds floor f m.merged,
            rw key (
                merge_from-Merges floor
                  (one_of d.merged (m.added + d.added) (m.updated + d.updated)
                    (m.unchanged + d.unchanged))
                  fs),
          ),
        )
  ]
