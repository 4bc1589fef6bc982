-- ===== src/Summary/File.antt =====
-- compactor/summarizer.py: the state file, `load_state` and `_for_disk`. A key that is absent or has
-- another type than the source expects is none. The conversation's id and the time of the write
-- are left out.
pub mod Kept
use zions_light_ai.Prelude.{
  ℕ, Bool, true, false, not, Option, none, some, List, [], ◌∷◌, ◌++◌, map, filter, if◌then◌else◌,
}
use zions_light_ai.Prelude.Text.{is_blank}
use zions_light_ai.Summary.{Chunk, Extra, State, empty_state}

-- a row of a tier: text and two turns, or something else, by its identity
pub data Row : Type 0 where
  chunk_row : Chunk → Row
  other_row : ℕ → Row

-- a tier, none where it is not a list
pub record StateFile : Type 0 where
  pub l1 : Option (List Row)
  pub l2 : Option (List Row)
  pub l3 : Option Row
  pub last_summarized_turn : Option ℕ
  pub turns_seen : Option ℕ
  pub tail_fp : List (Option ℕ)
  pub head_fp : Option ℕ
  pub window_turns : Option ℕ
  pub covered_fps : List (Option ℕ)
  pub covered_extra : List (Option Extra)
  pub legacy_adopted : Option Bool

-- the rows under `_UNRECOGNIZED`
pub record Parked : Type 0 where
  pub l1 : List Row
  pub l2 : List Row
  pub l3 : Option Row

pub record Loaded : Type 0 where
  pub state : State
  pub parked : Parked

unfoldable pub is_chunk : Row → Bool
unfolding is_blank
is_chunk (chunk_row c) = not (is_blank c.text)
is_chunk (other_row n) = false

abbrev pub cons_if : {A : Type 0} → Bool → A → List A → List A
cons_if true x xs = x ∷ xs
cons_if false x xs = xs

-- `[x for x in v if _is_chunk(x)]`, and the others
unfoldable pub chunks_of : List Row → List Chunk
unfolding is_chunk
chunks_of [] = []
chunks_of (chunk_row c ∷ rows) = cons_if (is_chunk (chunk_row c)) c (chunks_of rows)
chunks_of (other_row n ∷ rows) = chunks_of rows

unfoldable pub others_of : List Row → List Row
unfolding is_chunk
others_of rows = filter (λ r. not (is_chunk r)) rows

unfoldable pub theme_of : Option Row → Option Chunk
unfolding is_chunk
theme_of none = none
theme_of (some (chunk_row c)) = if is_chunk (chunk_row c) then some c else none
theme_of (some (other_row n)) = none

unfoldable pub parked_theme : Option Row → Option Row
unfolding is_chunk
parked_theme none = none
parked_theme (some r) = if is_chunk r then none else some r

abbrev pub or_zero : Option ℕ → ℕ
or_zero none = 0
or_zero (some n) = n

abbrev pub is_some_true : Option Bool → Bool
is_some_true none = false
is_some_true (some b) = b

unfoldable pub somes : {A : Type 0} → List (Option A) → List A
somes [] = []
somes (none ∷ xs) = somes xs
somes (some x ∷ xs) = x ∷ somes xs

unfoldable pub load_tiers : StateFile → List Row → List Row → Loaded
unfolding chunks_of others_of theme_of parked_theme somes
load_tiers f l1 l2 = record {
  state = record {
    l1 = chunks_of l1;
    l2 = chunks_of l2;
    l3 = theme_of f.l3;
    last_summarized_turn = or_zero f.last_summarized_turn;
    turns_seen = or_zero f.turns_seen;
    tail_fp = somes f.tail_fp;
    head_fp = f.head_fp;
    window_turns = or_zero f.window_turns;
    covered_fps = f.covered_fps;
    covered_extra = somes f.covered_extra;
    legacy_adopted = is_some_true f.legacy_adopted;
  };
  parked = record { l1 = others_of l1; l2 = others_of l2; l3 = parked_theme f.l3 };
}

-- none where a tier is not a list: `StoreUnreadable`
abbrev pub load_with : StateFile → Option (List Row) → Option (List Row) → Option Loaded
load_with f (some l1) (some l2) = some (load_tiers f l1 l2)
load_with f _ _ = none

abbrev pub fresh : Loaded
fresh = record { state = empty_state; parked = record { l1 = []; l2 = []; l3 = none } }

-- The file is none where there is no file.
unfoldable pub load_state : Option StateFile → Option Loaded
unfolding load_tiers empty_state
load_state none = some fresh
load_state (some f) = load_with f f.l1 f.l2

-- A parked theme only comes back where there is no other.
unfoldable pub theme_row : Option Chunk → Option Row → Option Row
theme_row none parked = parked
theme_row (some c) parked = some (chunk_row c)

unfoldable pub for_disk : Loaded → StateFile
unfolding theme_row
for_disk x = record {
  l1 = some (map chunk_row x.state.l1 ++ x.parked.l1);
  l2 = some (map chunk_row x.state.l2 ++ x.parked.l2);
  l3 = theme_row x.state.l3 x.parked.l3;
  last_summarized_turn = some x.state.last_summarized_turn;
  turns_seen = some x.state.turns_seen;
  tail_fp = map some x.state.tail_fp;
  head_fp = x.state.head_fp;
  window_turns = some x.state.window_turns;
  covered_fps = x.state.covered_fps;
  covered_extra = map some x.state.covered_extra;
  legacy_adopted = some x.state.legacy_adopted;
}
