-- ===== src/Summary.antt =====
-- compactor/summarizer.py: the state of a conversation's summaries, and the gates of its three tiers.
-- Labels and positions are natural numbers. `covered_fps` is kept as its list of entries, of which an
-- unknown one (`_FP_UNKNOWN`) is none; a fingerprint is a number.
pub mod Record
pub mod Paragraphs
pub mod Rollup
pub mod Drain
pub mod Prefix
pub mod Position
pub mod Pairing
pub mod Plan
pub mod Legacy
pub mod Patch
pub mod Pass
pub mod Block
pub mod File
use zions_light_ai.Prelude.{
  ℕ, ◌+◌, max, Bool, true, false, not, ◌&&◌, ◌||◌, Option, none, some, List, [], ◌∷◌, ◌++◌, length,
  leb, ltb, ◌==◌, if◌then◌else◌,
}
use zions_light_ai.Prelude.Text.{Text}

pub record Chunk : Type 0 where
  pub text : Text
  pub first_turn : ℕ
  pub last_turn : ℕ

-- a turn that a chunk re-read out of position: what it sorts after, and its chunk's last turn
pub record Extra : Type 0 where
  pub after : ℕ
  pub owner : ℕ
  pub fp : ℕ

pub record State : Type 0 where
  pub l1 : List Chunk
  pub l2 : List Chunk
  pub l3 : Option Chunk
  pub last_summarized_turn : ℕ
  pub turns_seen : ℕ
  pub tail_fp : List ℕ
  pub head_fp : Option ℕ
  pub window_turns : ℕ
  pub covered_fps : List (Option ℕ)
  pub covered_extra : List Extra
  pub legacy_adopted : Bool

pub record Config : Type 0 where
  pub l1_chunk_size : ℕ
  pub l2_chunk_size : ℕ
  pub l3_chunk_size : ℕ

unfoldable pub empty_state : State
empty_state = record {
  l1 = [];
  l2 = [];
  l3 = none;
  last_summarized_turn = 0;
  turns_seen = 0;
  tail_fp = [];
  head_fp = none;
  window_turns = 0;
  covered_fps = [];
  covered_extra = [];
  legacy_adopted = false;
}

unfoldable pub needs_l1_rollup : Config → ℕ → State → Bool
needs_l1_rollup config current_turns s =
    leb (s.last_summarized_turn + config.l1_chunk_size) current_turns

unfoldable pub needs_l2_rollup : Config → State → Bool
needs_l2_rollup config s = leb config.l2_chunk_size (length s.l1)

-- `l2[-1]`, where `l2` is the chapter and those after it
unfoldable pub last_chunk : Chunk → List Chunk → Chunk
last_chunk c [] = c
last_chunk c (d ∷ ds) = last_chunk d ds

unfoldable pub covers_other : Option Chunk → List Chunk → Bool
unfolding last_chunk
covers_other none l2 = true
covers_other (some l3) [] = true
covers_other (some l3) (c ∷ cs) =
    not (l3.first_turn == c.first_turn) || not (l3.last_turn == (last_chunk c cs).last_turn)

unfoldable pub needs_l3_rollup : Config → State → Bool
unfolding covers_other
needs_l3_rollup config s = leb config.l3_chunk_size (length s.l2) && covers_other s.l3 s.l2

unfoldable pub needs_rollup : Config → ℕ → State → Bool
unfolding needs_l1_rollup needs_l2_rollup needs_l3_rollup
needs_rollup config current_turns s =
    needs_l1_rollup config current_turns s || needs_l2_rollup config s || needs_l3_rollup config s

-- `l3`, where there is one, as a list
unfoldable pub themes : Option Chunk → List Chunk
themes none = []
themes (some c) = c ∷ []

unfoldable pub highest_of : ℕ → List Chunk → ℕ
highest_of highest [] = highest
highest_of highest (c ∷ cs) = highest_of (max highest c.last_turn) cs

unfoldable pub highest_chunk_turn : State → ℕ
unfolding highest_of themes
highest_chunk_turn s = highest_of 0 (s.l1 ++ (s.l2 ++ themes s.l3))

unfoldable pub recorded_position : State → ℕ
unfolding highest_chunk_turn
recorded_position s = max (max s.turns_seen s.last_summarized_turn) (highest_chunk_turn s)

unfoldable pub repair_watermark_below_chunks : State → State × Bool
unfolding highest_chunk_turn
repair_watermark_below_chunks s =
    let highest = highest_chunk_turn s in
    if leb highest s.last_summarized_turn
    then (s, false)
    else (record s { last_summarized_turn = highest }, true)
