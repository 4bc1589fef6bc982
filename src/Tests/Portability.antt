-- ===== src/Tests/Portability.antt =====
-- A merge of facts where one is pinned in the source, and one is new.
use zions_light_ai.Prelude.{
  ◌+◌, ◌≡◌, refl, true, false, not, ◌&&◌, ◌||◌, some, [], ◌∷◌, length, any, all, filter, map, leb,
  if◌then◌else◌,
}
use zions_light_ai.Prelude.Text.{Text, codes, is_space}
use zions_light_ai.Facts.{Fact}
use zions_light_ai.Portability.{fact_key, has_key, merge_fact_lists}
use zions_light_ai.Portability.Counts.{Merges, one_of}
use zions_light_ai.Portability.Merge.{Keeps, is_copy, merge_fact_lists_lem}

-- `str.casefold` on ASCII
abbrev ascii_fold : Text → Text
ascii_fold t = map (λ c. if leb 65 c && leb c 90 then c + 32 else c) t

abbrev likes_tea : Fact
likes_tea = record {
  object = 1;
  text = codes "Likes tea";
  added_turn = 4;
  last_used = 10;
  pin = false;
}

abbrev pinned_tea : Fact
pinned_tea = record {
  object = 2;
  text = codes " likes  TEA";
  added_turn = 9;
  last_used = 7;
  pin = true;
}

abbrev has_a_dog : Fact
has_a_dog = record {
  object = 3;
  text = codes "Has a dog";
  added_turn = 2;
  last_used = 3;
  pin = false;
}

merge_fact_lists_lem_example :
    let r = merge_fact_lists ascii_fold (likes_tea ∷ []) (pinned_tea ∷ has_a_dog ∷ []) (some 10) in
    (Keeps (likes_tea ∷ []) r.merged
      × (all
            (λ f.
              not (has_key ascii_fold (fact_key ascii_fold f.text))
              || any (is_copy ascii_fold f) r.merged)
            (pinned_tea ∷ has_a_dog ∷ [])
          ≡ true)
      × (r.added + r.updated + r.unchanged
          ≡ length (
              filter
                (λ f. has_key ascii_fold (fact_key ascii_fold f.text))
                (pinned_tea ∷ has_a_dog ∷ [])))
      × (length r.merged ≡ length (likes_tea ∷ []) + r.added))
    × Merges ascii_fold
        (some 10)
        (one_of ascii_fold (likes_tea ∷ []) 0 0 0)
        (pinned_tea ∷ has_a_dog ∷ [])
        r
merge_fact_lists_lem_example =
    merge_fact_lists_lem ascii_fold (likes_tea ∷ []) (pinned_tea ∷ has_a_dog ∷ []) (some 10)

-- The pin goes over to the fact that was there, and the new fact is as recent as the others.
merge_fact_lists_run :
    merge_fact_lists ascii_fold (likes_tea ∷ []) (pinned_tea ∷ has_a_dog ∷ []) (some 10) ≡ record {
      merged = record likes_tea { pin = true } ∷ record has_a_dog { last_used = 10 } ∷ [];
      added = 1;
      updated = 1;
      unchanged = 0;
    }
unfolding merge_fact_lists codes is_space
merge_fact_lists_run = refl
