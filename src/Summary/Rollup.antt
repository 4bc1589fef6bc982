-- ===== src/Summary/Rollup.antt =====
-- compactor/summarizer.py: `_do_l1_rollup`, `_do_l2_rollup`, `_do_l3_rollup` and the archive of
-- chapters. The language model is an argument: `llm` says what `_summarize_pieces` returns for the
-- pieces, the empty text where it fails. `fingerprint` is `_covered_turn_fingerprint`. The lists of
-- turns have no system messages.
pub mod Tiles
pub mod Tiling
pub mod Archive
use zions_light_ai.Prelude.{
  ℕ, zero, suc, ◌+◌, ◌-◌, min, Bool, true, false, not, ◌&&◌, ◌||◌, Option, none, some, List, [],
  ◌∷◌, ◌++◌, length, take, drop, map, any, filter, reverse, leb, ltb, ◌==◌, if◌then◌else◌,
}
use zions_light_ai.Prelude.Text.{Text, same_text, is_blank, strip}
use zions_light_ai.Tail.{Role}
use zions_light_ai.Summary.{Chunk, Extra, State, Config, last_chunk}
use zions_light_ai.Summary.Paragraphs.{split_paragraphs, parts_of, numbered}
use zions_light_ai.Summary.Record.{record_chunk_fps, record_patch_fps}

pub record Turn : Type 0 where
  pub role : Role
  pub body : Text

-- what the source renders as a piece: a turn, an earlier turn, a scene, a chapter, or a numbered part
-- of the story so far or of the newer chapters in short
pub data Piece : Type 0 where
  turn_piece earlier : Turn → Piece
  scene chapter : Chunk → Piece
  story_so_far : Chunk → ℕ → ℕ → Text → Piece
  newer_chapters : ℕ → ℕ → Text → Piece

-- a candidate of `patch`: the index of a turn, and what it sorts after
pub record Candidate : Type 0 where
  pub index : ℕ
  pub after : ℕ

unfoldable pub nth : {A : Type 0} → ℕ → List A → Option A
nth n [] = none
nth zero (x ∷ xs) = some x
nth (suc n) (x ∷ xs) = nth n xs

-- turns `first` to `last`, counted from 1
unfoldable pub turn_slice : {A : Type 0} → ℕ → ℕ → List A → List A
turn_slice first last turns = take ((last + 1) - first) (drop (first - 1) turns)

unfoldable pub has_span : ℕ → ℕ → List Chunk → Bool
has_span first last chunks = any (λ c. c.first_turn == first && c.last_turn == last) chunks

unfoldable pub is_some_text : Text → Bool
is_some_text [] = false
is_some_text (c ∷ t) = true

-- the earlier turns that a patch names, with their rows for the record
unfoldable pub patch_pieces : List Candidate → List Turn → List Piece
unfolding nth
patch_pieces [] turns = []
patch_pieces (p ∷ patch) turns = elim (nth p.index turns) [
  | none ↦ patch_pieces patch turns
  | some t ↦ earlier t ∷ patch_pieces patch turns
]

-- the candidates before the chunk's own turns
unfoldable pub patch_of : ℕ → List Turn → Option (List Turn) → List Candidate → List Candidate
patch_of pos_first turns none patch = []
patch_of pos_first turns (some raw) patch =
    filter (λ p. ltb p.index (min (length turns) (length raw)) && ltb p.index (pos_first - 1)) patch

abbrev pub or_turns : Option (List Turn) → List Turn → List Turn
or_turns none turns = turns
or_turns (some raw) turns = raw

-- the end of `_do_l2_rollup`: a chapter of the scenes with its text
unfoldable pub fold_l1 : List Chunk → List Chunk → Text → State → State × Bool
unfolding last_chunk
fold_l1 [] rest text s = (s, false)
fold_l1 (c ∷ chunks) rest [] s = (s, false)
fold_l1 (c ∷ chunks) rest (x ∷ text) s = (
  record s {
    l2 =
        s.l2
        ++ record {
          text = x ∷ text;
          first_turn = c.first_turn;
          last_turn = (last_chunk c chunks).last_turn;
        }
          ∷ [];
    l1 = rest;
  },
  true,
)

-- the sidecar, none where it cannot be read, and whether it can be written
unfoldable pub same_chunk : Chunk → Chunk → Bool
same_chunk c d =
    c.first_turn == d.first_turn && (c.last_turn == d.last_turn && same_text c.text d.text)

unfoldable pub archive_chapters :
    Bool → List Chunk → Option (List Chunk) → Option (List Chunk) × Bool
unfolding same_chunk
archive_chapters written [] sidecar = (sidecar, true)
archive_chapters written (c ∷ cs) none = (none, false)
archive_chapters false (c ∷ cs) (some rows) = (some rows, false)
archive_chapters true (c ∷ cs) (some rows) =
    (some (rows ++ filter (λ d. not (any (λ r. same_chunk d r) rows)) (c ∷ cs)), true)

unfoldable pub first_of : Option Chunk → Chunk → ℕ
first_of none c = c.first_turn
first_of (some prior) c = prior.first_turn

unfoldable pub refresh_l3 :
    Bool
    → Option (List Chunk)
    → Chunk
    → List Chunk
    → Text
    → State
    → (State × Option (List Chunk)) × Bool
unfolding archive_chapters first_of last_chunk
refresh_l3 written sidecar c l2 [] s = ((s, sidecar), false)
refresh_l3 written sidecar c l2 (x ∷ text) s =
    let (sidecar', archived) = archive_chapters written (c ∷ l2) sidecar in
    let l3 : Chunk = record {
      text = x ∷ text;
      first_turn = first_of s.l3 c;
      last_turn = (last_chunk c l2).last_turn;
    } in
    if archived
    then ((record s { l3 = some l3; l2 = [] }, sidecar'), true)
    else ((s, sidecar'), false)

-- the parts of the story so far, and those of the newer chapters
unfoldable pub story_pieces : Chunk → Text → List Piece
unfolding parts_of numbered strip
story_pieces prior text =
    let old = parts_of (strip prior.text) in
    let new = parts_of text in
    numbered (story_so_far prior (length old)) 1 old ++ numbered (newer_chapters (length new)) 1 new

module _ (fingerprint : Turn → ℕ) where
  unfoldable pub patch_rows : ℕ → List Candidate → List Turn → List Extra
  unfolding nth
  patch_rows owner [] raw = []
  patch_rows owner (p ∷ patch) raw = elim (nth p.index raw) [
    | none ↦ patch_rows owner patch raw
    | some t ↦
        record { after = p.after; owner = owner; fp = fingerprint t } ∷ patch_rows owner patch raw
  ]

  -- the end of `_do_l1_rollup`, with the text of the chunk
  unfoldable pub append_l1 :
      ℕ → ℕ → ℕ → List Turn → Option (List Turn) → List Candidate → Text → State → State × Bool
  unfolding patch_rows record_chunk_fps record_patch_fps turn_slice
  append_l1 covered_first last_turn window_offset turns raw patch [] s = (s, false)
  append_l1 covered_first last_turn window_offset turns raw patch (c ∷ t) s =
      let src = or_turns raw turns in
      let chunk : Chunk = record {
        text = c ∷ t;
        first_turn = covered_first;
        last_turn = last_turn;
      } in
      let fps =
        map fingerprint
          (turn_slice (covered_first - window_offset) (last_turn - window_offset) src) in
      (
        record s {
          l1 = s.l1 ++ chunk ∷ [];
          last_summarized_turn = last_turn;
          covered_fps = record_chunk_fps covered_first last_turn fps s.covered_fps;
          covered_extra =
              record_patch_fps last_turn (patch_rows last_turn patch src) s.covered_extra;
        },
        true,
      )

module _ (llm : List Piece → Text) (fingerprint : Turn → ℕ) where
  -- `_do_l1_rollup` with the bounds of the chunk
  unfoldable pub l1_between :
      ℕ → ℕ → ℕ → List Turn → Option (List Turn) → List Candidate → State → State × Bool
  unfolding turn_slice has_span patch_of patch_pieces append_l1
  l1_between covered_first last_turn window_offset turns raw patch s =
      let pos_first = covered_first - window_offset in
      let own = turn_slice pos_first (last_turn - window_offset) turns in
      let patch' = patch_of pos_first turns raw patch in
      if leb (length own) 0
      then (s, false)
      else if has_span covered_first last_turn s.l1
      then (record s { last_summarized_turn = last_turn }, true)
      else append_l1 fingerprint covered_first last_turn window_offset turns raw patch'
          (llm (patch_pieces patch' turns ++ map turn_piece own)) s

  unfoldable pub do_l1_rollup :
      Config → List Turn → ℕ → Option (List Turn) → List Candidate → State → State × Bool
  unfolding l1_between
  do_l1_rollup config turns window_offset raw patch s =
      let first_turn = s.last_summarized_turn + 1 in
      let last_turn = s.last_summarized_turn + config.l1_chunk_size in
      if leb last_turn window_offset
      then (record s { last_summarized_turn = window_offset }, true)
      else l1_between (if leb first_turn window_offset then window_offset + 1 else first_turn)
          last_turn window_offset turns raw patch s

module _ (llm : List Piece → Text) where
  -- With a size of 0 the source raises, and the model does nothing.
  unfoldable pub do_l2_rollup : Config → State → State × Bool
  unfolding fold_l1
  do_l2_rollup config s =
      if ltb (length s.l1) config.l2_chunk_size
      then (s, false)
      else let chunks = take config.l2_chunk_size s.l1 in
        fold_l1 chunks (drop config.l2_chunk_size s.l1) (llm (map scene chunks)) s

  -- the two stages: the chapters, and then the story so far with them
  unfoldable pub l3_text : Option Chunk → Text → Text
  unfolding is_some_text is_blank story_pieces
  l3_text none text = text
  l3_text (some prior) text =
      if is_some_text text && not (is_blank prior.text) then llm (story_pieces prior text) else text

  unfoldable pub refresh_of :
      Bool → Option (List Chunk) → List Chunk → State → (State × Option (List Chunk)) × Bool
  unfolding refresh_l3 l3_text
  refresh_of written sidecar [] s = ((s, sidecar), false)
  refresh_of written sidecar (c ∷ l2) s =
      refresh_l3 written sidecar c l2 (l3_text s.l3 (llm (map chapter (c ∷ l2)))) s

  unfoldable pub do_l3_rollup :
      Config → Bool → Option (List Chunk) → State → (State × Option (List Chunk)) × Bool
  unfolding refresh_of
  do_l3_rollup config written sidecar s =
      if ltb (length s.l2) config.l3_chunk_size
      then ((s, sidecar), false)
      else refresh_of written sidecar s.l2 s
