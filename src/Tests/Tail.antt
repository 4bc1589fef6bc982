-- ===== src/Tests/Tail.antt =====
-- A reply that is cut in the middle of a sentence, a short one, and a pool that is full.
use mathlib.Core.Path.{◌≡◌, refl}
use mathlib.Core.Logic.{◌⊎◌}
use zions_light_ai.Prelude.{
  ℕ, ◌+◌, ◌≤◌, Bool, true, false, not, ◌&&◌, some, [], ◌∷◌, ◌++◌, length, leb, if◌then◌else◌, map,
  ◌||◌,
}
use zions_light_ai.Prelude.Text.{Text, codes, is_blank, lstrip, is_space, starts_with, same_text}
use zions_light_ai.Sentence.{
  Chars, boundary, trim_to_last_sentence, last_end, in_fence, bisect_right, toggles, split_lines,
  ends_line, is_break, push, is_fence, is_real_sentence_end, is_real_period, word_size, is_letter,
  is_initial, is_list_marker, starts, span, abbreviations, match_at, is_stop, is_wide_stop, is_mark,
  is_wide_mark, is_end,
}
use zions_light_ai.Sentence.Scan.{onto}
use zions_light_ai.Sentence.Longest.{fences_of, trim_to_last_sentence_longest}
use zions_light_ai.TailHealth as TailHealth
use zions_light_ai.TailHealth.Ledger as Ledger
use zions_light_ai.Bgwork.Counters as Counters
use zions_light_ai.Degrade.{Config}
use zions_light_ai.Tail.{
  Exchange, Process, TailDecision, dict, user, assistant, decide_memory_tail, run_memory_tail,
  min_memorable_trimmed_chars,
}
use zions_light_ai.Tail.Replies.{Stores, Label, decide_memory_tail_lem}
use zions_light_ai.Tail.Books.{Booked, run_memory_tail-Booked}
use zions_light_ai.Tail.Serves.{Serves, Serves-counts, start_process}

-- the letters and digits of ASCII, in place of Python's tables
abbrev ascii : Chars
ascii = record {
  is_alnum = λ c. (leb 48 c && leb c 57) || (leb 65 c && leb c 90) || (leb 97 c && leb c 122);
  is_upper = λ c. leb 65 c && leb c 90;
  is_digit = λ c. leb 48 c && leb c 57;
  lower = λ t. map (λ c. if leb 65 c && leb c 90 then c + 32 else c) t;
}

abbrev cut : Text
cut = codes "Dr. Hale paid 3.14 crowns. \"Fine!\" she said to J. Smith and"

-- Neither the title, the decimal nor the initial ends a sentence; the quotation mark belongs to one.
trimmed : trim_to_last_sentence ascii cut ≡ codes "Dr. Hale paid 3.14 crowns. \"Fine!\""
unfolding codes trim_to_last_sentence last_end boundary in_fence bisect_right toggles split_lines
    ends_line is_break push is_fence lstrip is_space starts_with is_real_sentence_end is_real_period
    word_size is_letter is_initial is_list_marker starts span abbreviations same_text match_at
    is_stop is_wide_stop is_mark is_wide_mark is_end
trimmed = refl

trim_to_last_sentence_longest_example :
    ((more : Text) × (trim_to_last_sentence ascii cut ++ more ≡ cut))
    × ((trim_to_last_sentence ascii cut ≡ [])
        ⊎ ((ps : Text) × (c : ℕ) × (after : Text) × (cut ≡ ps ++ c ∷ after)
            × (boundary ascii (fences_of cut) (length ps) (onto ps []) c after
                ≡ some (length (trim_to_last_sentence ascii cut)))))
    × ((ps : Text) (c : ℕ) (after : Text) (e : ℕ)
        → cut ≡ ps ++ c ∷ after
        → boundary ascii (fences_of cut) (length ps) (onto ps []) c after ≡ some e
        → e ≤ length (trim_to_last_sentence ascii cut))
trim_to_last_sentence_longest_example = trim_to_last_sentence_longest ascii cut

-- no reply is taken for a loop
abbrev never : Text → Bool
never t = false

abbrev decided : TailDecision
decided = decide_memory_tail ascii never cut false true false

decide_memory_tail_lem_example :
    ((decided.store ≡ TailHealth.is_storing decided.outcome)
      × (decided.store
          ≡ not false
            && (not (is_blank cut)
                && (leb min_memorable_trimmed_chars (length (trim_to_last_sentence ascii cut))
                    && not (never (trim_to_last_sentence ascii cut)))))
      × (decided.store ≡ false → decided.text ≡ [])
      × (decided.store ≡ true → Stores never cut (trim_to_last_sentence ascii cut) false decided))
    × Label never cut (trim_to_last_sentence ascii cut) false false decided.outcome
decide_memory_tail_lem_example = decide_memory_tail_lem ascii never cut false true false

abbrev config : Config
config = record { min_free = 200; check_ttl = 100 }

abbrev whole : Exchange
whole = record {
  text = codes "The rain stopped at noon.";
  finished = true;
  truncated = false;
  holed = false;
  last_user_text = codes "And then?";
  messages = dict user ∷ dict assistant ∷ dict user ∷ [];
  position = some 2;
  now = 40;
  free = some 900;
}

abbrev broken : Exchange
broken = record whole { text = cut; finished = false; now = 90 }

-- one task at a time, and one outstanding
abbrev idle : Process
idle = start_process 1 1 3000

abbrev busy : Process
busy = (run_memory_tail ascii never config whole idle).1

run_memory_tail-Booked_example :
    Booked busy
      (run_memory_tail ascii never config whole busy).0
      (run_memory_tail ascii never config whole busy).1
run_memory_tail-Booked_example = run_memory_tail-Booked ascii never config whole busy

abbrev left : Process
left = (run_memory_tail ascii never config broken busy).1

abbrev stores : ℕ
stores =
    0
    + (if (run_memory_tail ascii never config whole idle).0.store then 1 else 0)
    + (if (run_memory_tail ascii never config broken busy).0.store then 1 else 0)

abbrev skips : ℕ
skips =
    0
    + (if (run_memory_tail ascii never config whole idle).0.store then 0 else 1)
    + (if (run_memory_tail ascii never config broken busy).0.store then 0 else 1)

served : Serves ascii never config 1 1 3000 stores skips left
served = Serves.exchanges broken (Serves.exchanges whole Serves.fresh)

Serves-counts_example :
    (left.ledger.stored_count ≡ stores)
    × (left.ledger.skipped ≡ skips)
    × Ledger.IsSound left.ledger
    × Counters.IsSound left.pool
Serves-counts_example = Serves-counts ascii never config 1 1 3000 served
