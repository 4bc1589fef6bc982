-- ===== src/Summary/Block.antt =====
-- compactor/summarizer.py: `format_summary_block`, what of the summaries goes into a request. The
-- tokenizer service (`exact`, none where it does not answer), the letters and marks of Unicode and
-- Python's `str` of an int are arguments. 1.25 and 1.05 are fractions, rounded down.
pub mod Keep
pub mod Fits
pub mod Joined
use zions_light_ai.Prelude.{
  ℕ, zero, suc, ◌+◌, ◌*◌, ◌/◌, min, Bool, true, false, not, ◌&&◌, ◌||◌, Option, none, some, List,
  [], ◌∷◌, ◌++◌, length, reverse, filter, sum_by, leb, ltb, if◌then◌else◌,
}
use zions_light_ai.Prelude.Text.{Text, codes, join}
use zions_light_ai.Summary.{Chunk, State, themes}

-- how many bytes UTF-8 takes for a character
unfoldable pub utf8_size : ℕ → ℕ
utf8_size c = if ltb c 128 then 1 else if ltb c 2048 then 2 else if ltb c 65536 then 3 else 4

unfoldable pub block_header : Text
unfolding codes
block_header =
    codes
      "[Hierarchical summary of earlier portions of this conversation, ordered by recency — background you already hold, for continuity of events. Older summaries are denser; the L3 line (if present) is the whole-conversation theme.]"

-- the kinds of `_summary_line`
pub data Kind : Type 0 where
  theme_kind chapter_kind scene_kind : Kind

unfoldable pub kind_text : Kind → Text
unfolding codes
kind_text theme_kind = codes "conversation-wide theme"
kind_text chapter_kind = codes "chapter"
kind_text scene_kind = codes "scene"

-- what of the tiers is kept, the newest first
pub record Kept : Type 0 where
  pub theme : List Chunk
  pub chapters : List Chunk
  pub scenes : List Chunk

module _ (is_letter_or_mark : ℕ → Bool) (exact : Text → Option ℕ) (decimal : ℕ → Text) where
  abbrev pub or_count : Option ℕ → ℕ → ℕ
  or_count none n = n
  or_count (some k) n = k

  unfoldable pub estimate_block_tokens : Text → ℕ
  unfolding utf8_size
  estimate_block_tokens text =
      let wide = filter (λ c. not (ltb c 128)) text in
      or_count (exact text) (
        length (filter (λ c. ltb c 128) text) / 4
        + length (filter is_letter_or_mark wide) * 5 / 4
        + sum_by utf8_size (filter (λ c. not (is_letter_or_mark c)) wide) * 105 / 100
        + 1)

  unfoldable pub line_header : Kind → Chunk → Text
  unfolding kind_text codes
  line_header kind c =
      codes "\n--- "
      ++ (kind_text kind
          ++ (codes " (turns "
              ++ (decimal c.first_turn ++ (codes "-" ++ (decimal c.last_turn ++ codes ") ---")))))

  unfoldable pub line_cost : Kind → Chunk → ℕ
  unfolding estimate_block_tokens line_header
  line_cost kind c = estimate_block_tokens (line_header kind c) + estimate_block_tokens c.text

  -- The chunks that fit, up to the first that does not, and what is used with them.
  unfoldable pub keep_fitting : Kind → ℕ → ℕ → List Chunk → List Chunk × ℕ
  unfolding line_cost
  keep_fitting kind budget used [] = ([], used)
  keep_fitting kind budget used (c ∷ cs) =
      let (kept, used') = keep_fitting kind budget (used + line_cost kind c) cs in
      if ltb budget (used + line_cost kind c) then ([], used) else (c ∷ kept, used')

  unfoldable pub select_tiers : ℕ → State → Kept
  unfolding keep_fitting themes block_header estimate_block_tokens
  select_tiers budget s =
      let (theme, used) =
        keep_fitting theme_kind budget (estimate_block_tokens block_header) (themes s.l3) in
      let (scenes, used') = keep_fitting scene_kind budget used (reverse s.l1) in
      let (chapters, used'') = keep_fitting chapter_kind budget used' (reverse s.l2) in
      record { theme = theme; chapters = chapters; scenes = scenes }

  unfoldable pub lines_of : Kind → List Chunk → List Text
  unfolding line_header
  lines_of kind [] = []
  lines_of kind (c ∷ cs) = line_header kind c ∷ c.text ∷ lines_of kind cs

  -- the lines after the header, from the general to the specific
  unfoldable pub tier_lines : Kept → List Text
  unfolding lines_of
  tier_lines k =
      lines_of theme_kind k.theme
      ++ (lines_of chapter_kind (reverse k.chapters) ++ lines_of scene_kind (reverse k.scenes))

  -- whether a tier has lost something
  unfoldable pub has_dropped : Kept → State → Bool
  unfolding themes
  has_dropped k s =
      ltb (length k.theme) (length (themes s.l3))
      || (ltb (length k.scenes) (length s.l1) || ltb (length k.chapters) (length s.l2))

  abbrev pub with_header : List Text → Option (List Text)
  with_header [] = none
  with_header (l ∷ ls) = some (block_header ∷ l ∷ ls)

  abbrev pub budget_of : ℕ → Option ℕ → ℕ
  budget_of cap none = cap
  budget_of cap (some max_tokens) = min cap max_tokens

  -- The block's lines. Without a summary, the tiers' lines are none either.
  unfoldable pub summary_lines : ℕ → Bool → State → Option (List Text)
  unfolding select_tiers has_dropped tier_lines block_header
  summary_lines budget all_or_nothing s =
      let kept = select_tiers budget s in
      if all_or_nothing && has_dropped kept s then none else with_header (tier_lines kept)

  unfoldable pub format_summary_block : ℕ → State → Option ℕ → Bool → Option Text
  unfolding summary_lines join
  format_summary_block cap s max_tokens all_or_nothing =
      elim (summary_lines (budget_of cap max_tokens) all_or_nothing s) [
        | none ↦ none
        | some ls ↦ some (join (10 ∷ []) ls)
      ]
