-- ===== src/Tests/Summary.antt =====
-- Witnesses for the summaries, and runs of them.
use mathlib.Core.List.{Perm}
use zions_light_ai.Prelude.{
  ◌+◌, Option, ℕ, ◌≤◌, ◌≡◌, refl, Bool, true, false, none, some, List, [], ◌∷◌, ◌++◌, take, length,
  leb, arith,
}
use zions_light_ai.Prelude.Text.{Text, same_text, join, is_blank, is_space}
use zions_light_ai.Tail.{user}
use zions_light_ai.Summary.{
  Chunk, State, Config, recorded_position, themes, needs_l1_rollup, needs_l2_rollup,
}
use zions_light_ai.Summary.Record.{record_chunk_fps}
use zions_light_ai.Summary.Record.Kept.{known_at, or_else, fp_from, record_chunk_fps-known}
use zions_light_ai.Summary.Rollup.{Turn, Piece, is_some_text, nth, do_l3_rollup}
use zions_light_ai.Summary.Rollup.Tiles.{IsTiled, Exact, Apart}
use zions_light_ai.Summary.Rollup.Archive.{Refreshed, do_l3_rollup-Refreshed}
use zions_light_ai.Summary.Drain.{Loop, Request, drain}
use zions_light_ai.Summary.Drain.Ends.{Ends}
use zions_light_ai.Summary.Drain.Kept.{drain-Exact, drain-enough}
use zions_light_ai.Summary.Prefix.{covered_prefix}
use zions_light_ai.Summary.Prefix.Reach.{covers_up_to, covered_prefix-covers_up_to}
use zions_light_ai.Summary.Position.{observed_position}
use zions_light_ai.Summary.Position.Observed.{observed_position-Rises, observed_position-aligned}
use zions_light_ai.Summary.Pairing.{pairing}
use zions_light_ai.Summary.Pairing.Anchors.{IsOrdered}
use zions_light_ai.Summary.Pairing.Order.{pairing-IsOrdered}
use zions_light_ai.Summary.Plan.{coverage_plan}
use zions_light_ai.Summary.Plan.Safe.{is_vouched, coverage_plan-is_vouched}
use zions_light_ai.Summary.Block.{
  block_header, tier_lines, select_tiers, summary_lines, budget_of, format_summary_block,
}
use zions_light_ai.Summary.Block.Joined.{Fits, format_summary_block-Fits}
use zions_light_ai.Summary.File.{StateFile, chunk_row, other_row, load_tiers, load_state, for_disk}
use zions_light_ai.Summary.File.Kept.{rewritten, load_state-for_disk}
use zions_light_ai.Summary.Legacy.{adopt_legacy_record, is_legacy_unread}
use zions_light_ai.Summary.Patch.{patch_candidates}
use zions_light_ai.Summary.Plan.{record_sequence}
use zions_light_ai.Summary.Pass.{RawRequest, observe, maybe_rollup}
use zions_light_ai.Summary.Pass.Kept.{maybe_rollup-Apart, maybe_rollup-caught_up}

abbrev config : Config
config = record { l1_chunk_size = 2; l2_chunk_size = 2; l3_chunk_size = 2 }

abbrev answers : ℕ → List Piece → Text
answers k pieces = 115 ∷ []

abbrev always : ℕ → Bool
always k = true

abbrev turn : ℕ → Turn
turn n = record { role = user; body = n ∷ [] }

-- a fingerprint that tells these turns apart
abbrev first_code : List ℕ → ℕ
first_code [] = 0
first_code (c ∷ t) = c

abbrev fingerprint : Turn → ℕ
fingerprint t = first_code t.body

abbrev chunk : ℕ → ℕ → Chunk
chunk first last = record { text = 116 ∷ []; first_turn = first; last_turn = last }

-- two scenes, of turns 1 to 4, with the record of the turns
abbrev two_scenes : State
two_scenes = record {
  l1 = chunk 1 2 ∷ chunk 3 4 ∷ [];
  l2 = [];
  l3 = none;
  last_summarized_turn = 4;
  turns_seen = 4;
  tail_fp = 31 ∷ 32 ∷ 33 ∷ 34 ∷ [];
  head_fp = some 31;
  window_turns = 4;
  covered_fps = some 31 ∷ some 32 ∷ some 33 ∷ some 34 ∷ [];
  covered_extra = [];
  legacy_adopted = false;
}

abbrev seven_turns : List Turn
seven_turns = turn 31 ∷ turn 32 ∷ turn 33 ∷ turn 34 ∷ turn 35 ∷ turn 36 ∷ turn 37 ∷ []

abbrev request : Request
request = record { turns = seven_turns; raw_turns = none; window_offset = 0; current_turns = 7 }

abbrev start : Loop
start = record {
  state = two_scenes;
  sidecar = some [];
  patch = [];
  l3_done = false;
  l3_failed = false;
  l2_failed = false;
  changed = false;
}

drain-Exact_example :
    Ends
      (λ r. IsTiled Exact r.state)
      (drain answers always always fingerprint config request 20 0 start)
unfolding themes
drain-Exact_example =
    drain-Exact answers always always fingerprint config request 20 0 start (omega arith)
      (omega arith) (omega arith) (refl, omega arith, (refl, omega arith, refl))

drain-enough_example :
    Ends
      (λ r. drain answers always always fingerprint config request 30 0 start ≡ some r)
      (drain answers always always fingerprint config request 20 0 start)
drain-enough_example =
    drain-enough answers always always fingerprint config request 20 30 0 start (omega arith)
      (omega arith) (omega arith)

abbrev no_images : Turn → Bool
no_images t = false

-- a scene of turns 1 to 4 that recorded no turns: its closing exchange is not adopted
abbrev unrecorded : State
unrecorded = record two_scenes { l1 = chunk 1 4 ∷ []; covered_fps = [] }

adopted_run : adopt_legacy_record fingerprint unrecorded seven_turns 0 4 ≡ (
  record unrecorded { covered_fps = some 31 ∷ some 32 ∷ none ∷ none ∷ []; legacy_adopted = true },
  true,
)
unfolding adopt_legacy_record covered_prefix is_legacy_unread
adopted_run = refl

-- The second turn was edited: the next scene re-reads it after the first.
patch_candidates_run :
    patch_candidates no_images fingerprint config two_scenes
      (turn 31 ∷ turn 99 ∷ turn 33 ∷ turn 34 ∷ turn 35 ∷ [])
      4
    ≡ record { index = 1; after = 1 } ∷ []
unfolding patch_candidates record_sequence is_blank is_space
patch_candidates_run = refl

-- the raw request, whose last turn the client wrote otherwise
abbrev raw_seven : RawRequest
raw_seven = record {
  raw_messages = some (take 6 seven_turns ++ turn 99 ∷ []);
  reply_as_streamed = none;
}

maybe_rollup-Apart_example :
    Ends
      (λ r. IsTiled Apart r.state)
      (maybe_rollup answers always always no_images fingerprint config fingerprint 40 none raw_seven
        seven_turns
        (some [])
        two_scenes)
unfolding observe observed_position recorded_position themes
maybe_rollup-Apart_example =
    maybe_rollup-Apart answers always always no_images fingerprint config fingerprint 40 none
      raw_seven seven_turns (some []) two_scenes (omega arith) (omega arith)
      (omega arith, omega arith, (omega arith, omega arith, omega arith))

maybe_rollup-caught_up_example :
    Ends
      (λ r.
        (needs_l1_rollup config (observe fingerprint two_scenes seven_turns).1 r.state ≡ false)
        × (needs_l2_rollup config r.state ≡ false))
      (maybe_rollup answers always always no_images fingerprint config fingerprint 40 none raw_seven
        seven_turns
        (some [])
        two_scenes)
unfolding observe observed_position recorded_position is_some_text
maybe_rollup-caught_up_example =
    maybe_rollup-caught_up answers always always no_images fingerprint config fingerprint 40
      raw_seven seven_turns (some []) two_scenes (omega arith) (omega arith) (λ k pieces. refl)
      (λ k. refl) (omega arith)

abbrev two_chapters : State
two_chapters = record {
  l1 = chunk 9 10 ∷ [];
  l2 = chunk 1 4 ∷ chunk 5 8 ∷ [];
  l3 = none;
  last_summarized_turn = 10;
  turns_seen = 10;
  tail_fp = [];
  head_fp = none;
  window_turns = 0;
  covered_fps = [];
  covered_extra = [];
  legacy_adopted = false;
}

do_l3_rollup-Refreshed_example :
    Refreshed two_chapters
      (some (chunk 1 4 ∷ []))
      (do_l3_rollup (answers 0) config true (some (chunk 1 4 ∷ [])) two_chapters)
do_l3_rollup-Refreshed_example =
    do_l3_rollup-Refreshed (answers 0) config true (some (chunk 1 4 ∷ [])) two_chapters

-- The chapter that the sidecar has is not written again.
do_l3_rollup_run :
    (do_l3_rollup (answers 0) config true (some (chunk 1 4 ∷ [])) two_chapters).0.1
    ≡ some (chunk 1 4 ∷ chunk 5 8 ∷ [])
unfolding do_l3_rollup same_text
do_l3_rollup_run = refl

covered_prefix-covers_up_to_example : leb 4 (covered_prefix two_scenes) ≡ covers_up_to two_scenes 4
covered_prefix-covers_up_to_example = covered_prefix-covers_up_to two_scenes 4

observed_position-Rises_example :
    let r = observed_position fingerprint two_scenes seven_turns in
    (recorded_position two_scenes ≤ r.1)
    × (length seven_turns ≤ r.1)
    × (recorded_position r.0 ≡ r.1)
    × (r.0.last_summarized_turn ≡ two_scenes.last_summarized_turn)
    × (r.0.l1 ≡ two_scenes.l1)
    × (r.0.l2 ≡ two_scenes.l2)
    × (r.0.l3 ≡ two_scenes.l3)
observed_position-Rises_example = observed_position-Rises fingerprint two_scenes seven_turns

-- The window begins at turn 2, and the anchor is turns 3 and 4.
abbrev anchored : State
anchored = record two_scenes { tail_fp = 33 ∷ 34 ∷ [] }

observed_position-aligned_example :
    (observed_position fingerprint anchored
      (turn 32 ∷ turn 33 ∷ turn 34 ∷ turn 35 ∷ turn 36 ∷ [])).1
    ≡ 6
unfolding recorded_position
observed_position-aligned_example =
    observed_position-aligned fingerprint anchored (turn 32)
      (turn 33 ∷ turn 34 ∷ turn 35 ∷ turn 36 ∷ []) 33 (32 ∷ []) (34 ∷ 35 ∷ 36 ∷ []) (34 ∷ []) refl
      refl refl refl

pairing-IsOrdered_example :
    IsOrdered
      (some 1 ∷ none ∷ some 2 ∷ some 3 ∷ [])
      (1 ∷ 3 ∷ 2 ∷ 3 ∷ [])
      0
      0
      (pairing (some 1 ∷ none ∷ some 2 ∷ some 3 ∷ []) (1 ∷ 3 ∷ 2 ∷ 3 ∷ []))
pairing-IsOrdered_example =
    pairing-IsOrdered (some 1 ∷ none ∷ some 2 ∷ some 3 ∷ []) (1 ∷ 3 ∷ 2 ∷ 3 ∷ [])

-- The turns around the edited second one are replaced.
coverage_plan-is_vouched_example :
    is_vouched two_scenes (nth 2 (31 ∷ 99 ∷ 33 ∷ 34 ∷ 35 ∷ [])) ≡ true
unfolding coverage_plan
coverage_plan-is_vouched_example =
    coverage_plan-is_vouched two_scenes (31 ∷ 99 ∷ 33 ∷ 34 ∷ 35 ∷ []) 2 (omega arith) refl

coverage_plan_run :
    coverage_plan two_scenes (31 ∷ 99 ∷ 33 ∷ 34 ∷ 35 ∷ [])
    ≡ record { covered = 4; changed = 1 ∷ [] }
unfolding coverage_plan
coverage_plan_run = refl

record_chunk_fps-known_example :
    known_at 2 (record_chunk_fps 3 4 (33 ∷ 34 ∷ []) (some 31 ∷ []))
    ≡ or_else (known_at 2 (some 31 ∷ [])) (fp_from 2 2 (33 ∷ 34 ∷ []))
record_chunk_fps-known_example =
    record_chunk_fps-known 3 4 (33 ∷ 34 ∷ []) (some 31 ∷ []) 2 (omega arith) (omega arith) refl

-- A tokenizer that does not answer, an alphabet without letters beyond ASCII, and digits by code.
abbrev no_count : Text → Option ℕ
no_count t = none

abbrev digit : ℕ → Text
digit n = (48 + n) ∷ []

-- A block for which the budget has room for the newest scene only.
abbrev small_block : Text
small_block = join (10 ∷ []) (
    block_header
    ∷ tier_lines (λ c. false) no_count digit
        (select_tiers (λ c. false) no_count digit 70 two_scenes))

format_summary_block-Fits_example :
    Fits
      (λ c. false)
      no_count
      digit
      (budget_of (λ c. false) no_count digit 12000 (some 70))
      false
      two_scenes
      small_block
unfolding format_summary_block summary_lines
format_summary_block-Fits_example =
    format_summary_block-Fits (λ c. false) no_count digit 12000 (some 70) false two_scenes
      small_block refl

-- a file with a chunk, a row that is none, and a theme that is none
abbrev file : StateFile
file = record {
  l1 = some (other_row 7 ∷ chunk_row (chunk 1 2) ∷ []);
  l2 = some [];
  l3 = some (other_row 8);
  last_summarized_turn = some 2;
  turns_seen = none;
  tail_fp = some 31 ∷ none ∷ [];
  head_fp = none;
  window_turns = none;
  covered_fps = [];
  covered_extra = [];
  legacy_adopted = some true;
}

load_state-for_disk_example :
    let x = load_tiers file (other_row 7 ∷ chunk_row (chunk 1 2) ∷ []) [] in
    (load_state (some (for_disk x)) ≡ some x)
    × ((for_disk x).l1 ≡ some (rewritten (other_row 7 ∷ chunk_row (chunk 1 2) ∷ [])))
    × Perm
        (rewritten (other_row 7 ∷ chunk_row (chunk 1 2) ∷ []))
        (other_row 7 ∷ chunk_row (chunk 1 2) ∷ [])
    × ((for_disk x).l2 ≡ some (rewritten []))
    × Perm (rewritten []) []
    × ((for_disk x).l3 ≡ file.l3)
unfolding load_state
load_state-for_disk_example =
    load_state-for_disk file (other_row 7 ∷ chunk_row (chunk 1 2) ∷ []) []
      (load_tiers file (other_row 7 ∷ chunk_row (chunk 1 2) ∷ []) []) refl refl refl
