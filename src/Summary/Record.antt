-- ===== src/Summary/Record.antt =====
-- compactor/summarizer.py: the record of the turns that chunks have read, written with each chunk.
pub mod Kept
use zions_light_ai.Prelude.{
  ℕ, zero, suc, ◌+◌, ◌-◌, Bool, true, false, not, ◌&&◌, ◌||◌, Option, none, some, List, [], ◌∷◌,
  ◌++◌, length, take, drop, map, leb, ltb, ◌==◌, if◌then◌else◌, any, filter,
}
use zions_light_ai.Summary.{Extra}

unfoldable pub unknowns : ℕ → List (Option ℕ)
unknowns zero = []
unknowns (suc n) = none ∷ unknowns n

-- Entries that hold a fingerprint stay; unknown ones are filled, and new ones go to the end.
unfoldable pub overlay : List (Option ℕ) → List ℕ → List (Option ℕ)
overlay [] fps = map some fps
overlay (e ∷ entries) [] = e ∷ entries
overlay (none ∷ entries) (fp ∷ fps) = some fp ∷ overlay entries fps
overlay (some old ∷ entries) (fp ∷ fps) = some old ∷ overlay entries fps

unfoldable pub write_fps : ℕ → List ℕ → List (Option ℕ) → List (Option ℕ)
unfolding unknowns overlay
write_fps before fps entries =
    let padded = entries ++ unknowns (before - length entries) in
    take before padded ++ overlay (drop before padded) fps

-- The entries after `_record_chunk_fps`.
unfoldable pub record_chunk_fps : ℕ → ℕ → List ℕ → List (Option ℕ) → List (Option ℕ)
unfolding write_fps
record_chunk_fps first_turn last_turn fps entries =
    if ltb first_turn 1 || ltb last_turn first_turn
    then entries
    else if length fps == (last_turn - first_turn) + 1
    then write_fps (first_turn - 1) fps entries
    else entries

abbrev pub is_row : ℕ → ℕ → Extra → Bool
is_row after fp e = e.after == after && e.fp == fp

-- how many rows there are at a place with a fingerprint
unfoldable pub rows_at : ℕ → ℕ → List Extra → ℕ
rows_at after fp rows = length (filter (is_row after fp) rows)

-- Of equal rows, only those beyond the number held are new; `seen` are the rows before.
unfoldable pub new_rows : ℕ → List Extra → List Extra → List Extra → List Extra
unfolding rows_at
new_rows owner held seen [] = []
new_rows owner held seen (r ∷ rows) =
    let row = record r { owner = owner } in
    let rest = new_rows owner held (row ∷ seen) rows in
    if leb (rows_at r.after r.fp seen + 1) (rows_at r.after r.fp held) then rest else row ∷ rest

-- The rows after `_record_patch_fps`. The owner of a given row is not read.
unfoldable pub record_patch_fps : ℕ → List Extra → List Extra → List Extra
unfolding new_rows
record_patch_fps owner rows held = held ++ new_rows owner held [] rows
