-- ===== src/Tests/Facts.antt =====
-- A store of three facts, one pinned, under budgets that are too small for all of them.
use mathlib.Core.Path.{◌≡◌, refl}
use mathlib.Core.Logic.{◌⊎◌, ◌≢◌}
use mathlib.Core.Logic.Or
use mathlib.Core.HLevel.{⊥_prop}
use mathlib.Core.List.{Perm, Nodup, Mem, Pairwise, not-mem-nil, eq-or-mem_of_mem-cons}
use native.Mathlib.Omega.{arith}
use zions_light_ai.Prelude.{
  ℕ, ◌+◌, ◌/◌, ◌-◌, ◌≤◌, ◌<◌, true, false, some, List, [], ◌∷◌, ◌++◌, length, sum_by, filter, all,
  any, leb, map, max, not, ◌==◌,
}
use zions_light_ai.Prelude.Int.{pos}
use zions_light_ai.Prelude.Text.{Text, codes, is_blank, is_space, join}
use zions_light_ai.Prelude.Sort.{sorted, insert}
use zions_light_ai.Facts.{
  Fact, rendered_cost, facts_block_header, line_length, cost_of, format_facts_block, bullet,
  estimate_tokens, header_tokens, fact_bullet_tokens,
}
use zions_light_ai.Facts.Split.{
  lru_split, turn_before, kept_reversed, by_recency, fill, settle, is_among, lru_before, use_before,
}
use zions_light_ai.Facts.Split.Partition.{objects, lru_split-perm}
use zions_light_ai.Facts.Split.Walk.{is_free, is_pinned}
use zions_light_ai.Facts.Split.Budget.{lru_split-le}
use zions_light_ai.Facts.Split.Pins.{lru_split_pinned}
use zions_light_ai.Facts.Select.{Embedder, select_for_injection}
use zions_light_ai.Facts.Select.Bounds.{select_for_injection-le}
use zions_light_ai.Facts.Select.Pins.{Within, select_for_injection_pins}
use zions_light_ai.Facts.Store.{
  Files, archive_stale_facts, restore_from_archive, archive_facts, prune_facts,
}
use zions_light_ai.Facts.Store.Texts.{held, is_fact, in_archive}
use zions_light_ai.Facts.Store.Held.{moves-held}
use zions_light_ai.Facts.Store.Moves.{Pruned, ArchiveFails, prune_facts-Pruned, prune_facts-le}

abbrev name : Fact
name = record {
  object = 11;
  text = codes "The user is called Ada.";
  added_turn = 1;
  last_used = 50;
  pin = true;
}

abbrev town : Fact
town = record {
  object = 12;
  text = codes "Ada lives in a small town by the sea, with two cats and a garden.";
  added_turn = 2;
  last_used = 90;
  pin = false;
}

abbrev tea : Fact
tea = record {
  object = 13;
  text = codes "Ada likes tea.";
  added_turn = 3;
  last_used = 70;
  pin = false;
}

abbrev three : List Fact
three = name ∷ town ∷ tea ∷ []

-- The town does not fit, and the tea still does.
split_three :
    map objects ((lru_split three 40).0 ∷ (lru_split three 40).1 ∷ [])
    ≡ (11 ∷ 13 ∷ []) ∷ (12 ∷ []) ∷ []
unfolding lru_split kept_reversed by_recency fill settle is_among sorted insert lru_before
    turn_before use_before rendered_cost cost_of format_facts_block bullet estimate_tokens join
    codes facts_block_header header_tokens fact_bullet_tokens
split_three = refl

absent : (a : ℕ) (l : List ℕ) → all (λ b. not (a == b)) l ≡ true → (b : ℕ) → Mem b l → a ≢ b
absent a [] h b m = absurd (not-mem-nil m)
absent a (c ∷ l) h b m = λ e.
    Or.elim ⊥_prop (eq-or-mem_of_mem-cons m) (λ d. ground (arith, d, e))
      (λ k. absent a l (ground arith) b k e)

three-Nodup : Nodup (objects three)
three-Nodup =
    Pairwise.cons (absent 11 (12 ∷ 13 ∷ []) refl)
      (Pairwise.cons (absent 12 (13 ∷ []) refl) (Pairwise.cons (absent 13 [] refl) Pairwise.nil))

-- Vectors are the lengths of the texts, and a nearer length is nearer.
abbrev by_length : Embedder ℕ
by_length = record {
  embed = λ texts. some (map length texts);
  nearer = λ q a b. leb (max (q - a) (a - q)) (max (q - b) (b - q));
}

abbrev files : Files
files = record {
  active = some three;
  archive =
      some
        (record { fact = record tea { text = codes "Ada likes coffee." }; archived_at = 5 } ∷ []);
}

-- the letters as they are, in place of Python's tables
abbrev as_is : Text → Text
as_is t = t

lru_split-perm_example : Perm ((lru_split three 40).0 ++ (lru_split three 40).1) three
lru_split-perm_example = lru_split-perm three 40 three-Nodup

lru_split-le_example : rendered_cost (lru_split three 40).0 ≤ 40
lru_split-le_example = lru_split-le three 40

-- A pinned fact whose block costs the budget exactly, and a short one that is not pinned: the pinned
-- one is evicted, since the header's cost and its own, rounded apart, are one more than together.
abbrev long_pin : Fact
long_pin = record name { text = codes "Ada has lived here for eleven years and two moons" }

pin_evicted :
    (rendered_cost (long_pin ∷ []) ≡ 40)
    × (map objects
          ((lru_split (long_pin ∷ tea ∷ []) 40).0 ∷ (lru_split (long_pin ∷ tea ∷ []) 40).1 ∷ [])
        ≡ (13 ∷ []) ∷ (11 ∷ []) ∷ [])
unfolding lru_split kept_reversed by_recency fill settle is_among sorted insert lru_before
    turn_before use_before rendered_cost cost_of format_facts_block bullet estimate_tokens join
    codes facts_block_header header_tokens fact_bullet_tokens
pin_evicted = (refl, refl)

pinned_fits : (length facts_block_header + 1 + sum_by line_length (filter is_pinned three)) / 4 ≤ 40
unfolding facts_block_header codes
pinned_fits = omega arith

lru_split_pinned_example : all is_free (lru_split three 40).1 ≡ true
lru_split_pinned_example = lru_split_pinned three 40 pinned_fits

select_for_injection-le_example :
    (rendered_cost (select_for_injection by_length three 38 (some (codes "tea?"))) ≤ 38)
    ⊎ ((38 < rendered_cost (sorted turn_before (filter (λ f. f.pin) three)))
        × (select_for_injection by_length three 38 (some (codes "tea?"))
            ≡ sorted turn_before (filter (λ f. f.pin) three)))
select_for_injection-le_example = select_for_injection-le by_length three 38 (some (codes "tea?"))

select_for_injection_pins_example :
    (more : List Fact) × (select_for_injection by_length three 38 (some (codes "tea?"))
      ≡ sorted turn_before (filter (λ f. f.pin) three) ++ more)
    × Within more (filter (λ f. not f.pin) three)
select_for_injection_pins_example =
    select_for_injection_pins by_length three 38 (some (codes "tea?")) three-Nodup

prune_facts-Pruned_example : Pruned true three files (prune_facts true 100 true three 40 files)
prune_facts-Pruned_example = prune_facts-Pruned true 100 true three 40 files three-Nodup

prune_facts-le_example :
    (rendered_cost (prune_facts true 100 false three 40 files).0.0 ≤ 40)
    ⊎ ((true ≡ true)
        × ArchiveFails false files
        × (prune_facts true 100 false three 40 files ≡ ((three, 0), files)))
prune_facts-le_example = prune_facts-le true 100 false three 40 files

tea_not_blank : is_blank (codes "Ada likes tea.") ≡ false
unfolding is_blank is_space codes
tea_not_blank = refl

moves-held_example :
    (held (codes "Ada likes tea.") files ≡ true
      → held (codes "Ada likes tea.") (archive_stale_facts 9000000 true false (pos 90) files).1
        ≡ true)
    × (held (codes "Ada likes tea.") files ≡ true
        → held
            (codes "Ada likes tea.")
            (restore_from_archive as_is 9000000 true false (some (codes "coffee")) files).1
          ≡ true)
    × ((n : ℕ)
        → (archive_facts 9000000 true three files).0 ≡ some n
        → any (is_fact (codes "Ada likes tea.")) three ≡ true
        → in_archive (codes "Ada likes tea.") (archive_facts 9000000 true three files).1.archive
          ≡ true)
moves-held_example =
    moves-held as_is (codes "Ada likes tea.") 9000000 true false (pos 90) (some (codes "coffee"))
      three files tea_not_blank
