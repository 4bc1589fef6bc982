-- ===== src/Portability.antt =====
-- compactor/portability.py: `_merge_fact_lists`, which folds the facts of one conversation into those
-- of another. Python's `str.casefold` is an argument. The index from keys to places is the search
-- for the first fact with the key, and a copy of a fact keeps its number.
pub mod Counts
pub mod Merge
use zions_light_ai.Prelude.{
  ℕ, zero, suc, ◌+◌, max, Bool, true, false, not, ◌&&◌, ◌||◌, Option, none, some, List, [], ◌∷◌,
  ◌++◌, reverse, leb, ltb, if◌then◌else◌,
}
use zions_light_ai.Prelude.Text.{Text, is_space, same_text, join}
use zions_light_ai.Facts.{Fact}

abbrev pub word_if : Text → List Text → List Text
word_if [] words = words
word_if (c ∷ t) words = reverse (c ∷ t) ∷ words

-- `text.split()`, with the word that is open in reverse
unfoldable pub split_words : Text → Text → List Text
unfolding is_space
split_words word [] = word_if word []
split_words word (c ∷ t) =
    let next = split_words [] t in
    let rest = split_words (c ∷ word) t in if is_space c then word_if word next else rest

unfoldable pub merge_pin_and_recency : Fact → Fact → Fact
merge_pin_and_recency dst src = record dst {
  pin = dst.pin || src.pin;
  last_used = max dst.last_used src.last_used;
}

-- `folded != merged[idx]`
unfoldable pub is_changed : Fact → Fact → Bool
is_changed dst src = (src.pin && not dst.pin) || ltb dst.last_used src.last_used

unfoldable pub dst_last_used_floor : List Fact → ℕ
dst_last_used_floor [] = 0
dst_last_used_floor (f ∷ fs) = max f.last_used (dst_last_used_floor fs)

abbrev pub floored : Option ℕ → Fact → Fact
floored none f = f
floored (some floor) f = record f { last_used = max f.last_used floor }

pub record Merging : Type 0 where
  pub merged : List Fact
  pub added : ℕ
  pub updated : ℕ
  pub unchanged : ℕ

module _ (casefold : Text → Text) where
  unfoldable pub fact_key : Text → Text
  unfolding split_words join
  fact_key text = casefold (join (32 ∷ []) (split_words [] text))

  abbrev pub same_key : Fact → Fact → Bool
  same_key f g = same_text (fact_key f.text) (fact_key g.text)

  -- The first fact with the key of `f` is folded with it, or `f` goes to the end.
  unfoldable pub fold_in : Option ℕ → Fact → List Fact → Merging
  unfolding fact_key same_text is_changed merge_pin_and_recency
  fold_in floor f [] = record {
    merged = floored floor f ∷ [];
    added = 1;
    updated = 0;
    unchanged = 0;
  }
  fold_in floor f (g ∷ gs) =
      let rest = fold_in floor f gs in
      if same_key f g
      then record {
        merged = merge_pin_and_recency g f ∷ gs;
        added = 0;
        updated = if is_changed g f then 1 else 0;
        unchanged = if is_changed g f then 0 else 1;
      }
      else record rest { merged = g ∷ rest.merged }

  abbrev pub has_key : Text → Bool
  has_key [] = false
  has_key (c ∷ t) = true

  abbrev pub count_with : Merging → Merging → Merging
  count_with m n = record n {
    added = m.added + n.added;
    updated = m.updated + n.updated;
    unchanged = m.unchanged + n.unchanged;
  }

  -- A fact without a key is passed over.
  unfoldable pub absorb : Option ℕ → Merging → Fact → Merging
  unfolding fold_in fact_key
  absorb floor m f =
      if has_key (fact_key f.text) then count_with m (fold_in floor f m.merged) else m

  -- The loop over the source's facts.
  unfoldable pub merge_from : Option ℕ → Merging → List Fact → Merging
  unfolding absorb
  merge_from floor m [] = m
  merge_from floor m (f ∷ fs) = merge_from floor (absorb floor m f) fs

  unfoldable pub merge_fact_lists : List Fact → List Fact → Option ℕ → Merging
  unfolding merge_from
  merge_fact_lists dst_facts src_facts last_used_floor =
      merge_from last_used_floor
        (record { merged = dst_facts; added = 0; updated = 0; unchanged = 0 }) src_facts
