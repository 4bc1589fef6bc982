-- ===== src/Summary/Pass.antt =====
-- compactor/summarizer.py: `_maybe_rollup_body`, a pass from the state that it loads to the state that
-- it saves. The lists of turns have no system messages. Whether a turn has image parts is an argument.
pub mod Start
pub mod Kept
use zions_light_ai.Prelude.{
  ℕ, ◌+◌, ◌-◌, Bool, true, false, not, ◌&&◌, ◌||◌, Option, none, some, List, [], ◌∷◌, ◌++◌, length,
  leb, ltb, ◌==◌, if◌then◌else◌,
}
use zions_light_ai.Prelude.Text.{Text, same_text}
use zions_light_ai.Tail.{Role, assistant}
use zions_light_ai.Summary.{
  Chunk, State, Config, needs_rollup, needs_l1_rollup, recorded_position,
  repair_watermark_below_chunks,
}
use zions_light_ai.Summary.Rollup.{Turn, Piece, Candidate, nth}
use zions_light_ai.Summary.Position.{observed_position}
use zions_light_ai.Summary.Legacy.{adopt_legacy_record}
use zions_light_ai.Summary.Patch.{patch_candidates}
use zions_light_ai.Summary.Drain.{Loop, Request, drain}

abbrev pub same_option : Option ℕ → Option ℕ → Bool
same_option none none = true
same_option (some a) (some b) = a == b
same_option _ _ = false

-- whether the position, the anchor or the window's signature has changed
unfoldable pub has_moved : State → State → Bool
unfolding same_text
has_moved before after =
    not (before.turns_seen == after.turns_seen)
    || (not (same_text before.tail_fp after.tail_fp)
        || not
            (same_option before.head_fp after.head_fp && before.window_turns == after.window_turns))

-- the request as the client sent it, where it is given, and the reply as it was streamed
pub record RawRequest : Type 0 where
  pub raw_messages : Option (List Turn)
  pub reply_as_streamed : Option Text

abbrev pub is_reply : Role → Bool
is_reply assistant = true
is_reply _ = false

abbrev pub as_streamed : Option Text → Turn → Turn
as_streamed none t = t
as_streamed (some content) t = record t { body = content }

-- the lengths of the raw turns and of the turns, whose last one is given
unfoldable pub align_with :
    List Turn → Option Text → List Turn → Option Turn → List Turn × Option (List Turn)
align_with raw streamed turns none =
    if length raw == length turns then (raw, some raw) else ([], none)
align_with raw streamed turns (some reply) =
    if length raw == length turns
    then (raw, some raw)
    else if length raw + 1 == length turns && is_reply reply.role
    then (raw, some (raw ++ as_streamed streamed reply ∷ []))
    else ([], none)

-- `request_turns` and `raw_turns`
unfoldable pub align_raw : RawRequest → List Turn → List Turn × Option (List Turn)
unfolding align_with nth
align_raw raw turns = elim raw.raw_messages [
  | none ↦ ([], none)
  | some messages ↦ align_with messages raw.reply_as_streamed turns (nth (length turns - 1) turns)
]

-- the loop's variables at its start
unfoldable pub start_of : State → Option (List Chunk) → List Candidate → Bool → Loop
start_of s sidecar patch changed = record {
  state = s;
  sidecar = sidecar;
  patch = patch;
  l3_done = false;
  l3_failed = false;
  l2_failed = false;
  changed = changed;
}

-- a bound that the position must not be past, where there is one
abbrev pub is_past : Option ℕ → ℕ → Bool
is_past none position = false
is_past (some bound) position = ltb bound position

unfoldable pub request_of : Option (List Turn) → List Turn → ℕ → Request
request_of raw_turns turns current = record {
  turns = turns;
  raw_turns = raw_turns;
  window_offset = current - length turns;
  current_turns = current;
}

-- The state that the drain starts from, with the position.
unfoldable pub observe : (Turn → ℕ) → State → List Turn → State × ℕ
unfolding repair_watermark_below_chunks observed_position
observe fingerprint s turns =
    observed_position fingerprint (repair_watermark_below_chunks s).0 turns

module _ (llm : ℕ → List Piece → Text) (allows writes : ℕ → Bool) (has_image_parts : Turn → Bool)
    (covered_fp : Turn → ℕ) (config : Config) where
  -- The first read index is 0 where the source's is below.
  unfoldable pub patch_for : Option (List Turn) → ℕ → ℕ → State → List Candidate
  unfolding needs_l1_rollup patch_candidates
  patch_for none window_offset current s = []
  patch_for (some raw_turns) window_offset current s =
      if needs_l1_rollup config current s
      then patch_candidates has_image_parts covered_fp config s raw_turns
          (s.last_summarized_turn - window_offset)
      else []

  unfoldable pub rollup_from :
      ℕ → Bool → Option (List Turn) → List Turn → Option (List Chunk) → State × ℕ → Option Loop
  unfolding start_of request_of patch_for drain needs_rollup
  rollup_from fuel changed raw_turns turns sidecar (s, current) =
      if needs_rollup config current s
      then drain llm allows writes covered_fp config (request_of raw_turns turns current) fuel 0
          (start_of s sidecar (patch_for raw_turns (current - length turns) current s) changed)
      else some (start_of s sidecar [] changed)

  -- The variables as they are at the end: the state is written where `changed` is true.
  unfoldable pub maybe_rollup :
      (Turn → ℕ) → ℕ → Option ℕ → RawRequest → List Turn → Option (List Chunk) → State → Option Loop
  unfolding observe align_raw adopt_legacy_record rollup_from has_moved start_of recorded_position
      repair_watermark_below_chunks
  maybe_rollup fingerprint fuel skip_if_position_past raw turns sidecar s =
      if is_past skip_if_position_past (recorded_position s)
      then some (start_of s sidecar [] false)
      else let (observed, current) = observe fingerprint s turns in
        let (request_turns, raw_turns) = align_raw raw turns in
        let (adopted, is_adopted) =
          adopt_legacy_record covered_fp observed request_turns (current - length turns)
            s.last_summarized_turn in
        rollup_from fuel
          (((repair_watermark_below_chunks s).1
              || has_moved (repair_watermark_below_chunks s).0 observed)
            || is_adopted)
          raw_turns turns sidecar (adopted, current)
