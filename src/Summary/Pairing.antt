-- ===== src/Summary/Pairing.antt =====
-- compactor/summarizer.py: `_pairing` of a request's turns with the record's entries, by patience
-- alignment. A pairing is the list of its pairs, by the request's index. Places count from 0, and
-- `next` is one past the source's `last_k`.
pub mod Anchors
pub mod Order
use zions_light_ai.Prelude.{
  ℕ, zero, suc, ◌+◌, ◌-◌, Bool, true, false, not, ◌&&◌, ◌||◌, Option, none, some, List, [], ◌∷◌,
  ◌++◌, length, filter, any, reverse, leb, ltb, ◌==◌, if◌then◌else◌,
}
use zions_light_ai.Summary.Rollup.{nth}

pub record Pair : Type 0 where
  pub at_now : ℕ
  pub at_record : ℕ

-- The chains of the patience sort, by the record index of their newest pair. A chain, newest first,
-- is what the source's `prev` links from its newest pair. The pair goes on top of the chain
-- before the first one whose newest record index is not less.
unfoldable pub place : Pair → List Pair → List (List Pair) → List (List Pair)
place c below [] = (c ∷ below) ∷ []
place c below ([] ∷ chains) = (c ∷ below) ∷ chains
place c below ((d ∷ ds) ∷ chains) =
    let rest = place c (d ∷ ds) chains in
    if ltb d.at_record c.at_record then (d ∷ ds) ∷ rest else (c ∷ below) ∷ chains

unfoldable pub place_all : List (List Pair) → List Pair → List (List Pair)
unfolding place
place_all chains [] = chains
place_all chains (c ∷ cand) = place_all (place c [] chains) cand

-- `tails_i[-1]` with the pairs before it, newest first
unfoldable pub last_chain : List Pair → List (List Pair) → List Pair
last_chain chain [] = chain
last_chain chain (c ∷ chains) = last_chain c chains

unfoldable pub increasing_anchors : List Pair → List Pair
unfolding place_all last_chain
increasing_anchors cand = reverse (last_chain [] (place_all [] cand))

abbrev pub is_entry : ℕ → Option ℕ → Bool
is_entry fp none = false
is_entry fp (some old) = fp == old

-- `rec_idx[fp]`: where the record has the fingerprint, from `k` on
unfoldable pub indices : ℕ → ℕ → List (Option ℕ) → List ℕ
indices fp k [] = []
indices fp k (e ∷ record_fps) =
    let rest = indices fp (k + 1) record_fps in if is_entry fp e then k ∷ rest else rest

-- `now_count[fp]`
unfoldable pub count_of : ℕ → List ℕ → ℕ
count_of fp now = length (filter (λ x. x == fp) now)

-- a turn that both sequences have once
unfoldable pub candidate_at : ℕ → Bool → List ℕ → List Pair
candidate_at j true (k ∷ []) = record { at_now = j; at_record = k } ∷ []
candidate_at j _ _ = []

-- `cand`, of the turns from `j` on
unfoldable pub candidates : List (Option ℕ) → List ℕ → ℕ → List ℕ → List Pair
unfolding indices count_of candidate_at
candidates record_fps now j [] = []
candidates record_fps now j (fp ∷ fps) =
    candidate_at j (count_of fp now == 1) (indices fp 0 record_fps)
    ++ candidates record_fps now (j + 1) fps

-- the first index from `next` on
unfoldable pub first_from : ℕ → List ℕ → Option ℕ
first_from next [] = none
first_from next (k ∷ ks) = let rest = first_from next ks in if leb next k then some k else rest

abbrev pub before_end : ℕ → Option ℕ → Option ℕ
before_end end none = none
before_end end (some k) = if ltb k end then some k else none

-- the entry before `end` that a turn of a gap may take
unfoldable pub entry_for : List (Option ℕ) → ℕ → ℕ → Option ℕ → Option ℕ
unfolding indices first_from
entry_for record_fps next end none = none
entry_for record_fps next end (some fp) = before_end end (first_from next (indices fp 0 record_fps))

-- `n` turns of a gap, from `j` on
unfoldable pub fill_gap : List (Option ℕ) → List ℕ → ℕ → ℕ → ℕ → ℕ → List Pair
unfolding entry_for nth
fill_gap record_fps now j zero next end = []
fill_gap record_fps now j (suc n) next end = elim (entry_for record_fps next end (nth j now)) [
  | none ↦ fill_gap record_fps now (j + 1) n next end
  | some k ↦ record { at_now = j; at_record = k } ∷ fill_gap record_fps now (j + 1) n (k + 1) end
]

unfoldable pub fill_gaps : List (Option ℕ) → List ℕ → ℕ → ℕ → List Pair → List Pair
unfolding fill_gap
fill_gaps record_fps now j next [] =
    fill_gap record_fps now j (length now - j) next (length record_fps)
fill_gaps record_fps now j next (a ∷ anchors) =
    fill_gap record_fps now j (a.at_now - j) next a.at_record
    ++ (a ∷ fill_gaps record_fps now (a.at_now + 1) (a.at_record + 1) anchors)

abbrev pub is_known : Option ℕ → Bool
is_known none = false
is_known (some fp) = true

unfoldable pub pairing : List (Option ℕ) → List ℕ → List Pair
unfolding increasing_anchors candidates fill_gaps
pairing record_fps now =
    if not (any is_known record_fps)
    then []
    else fill_gaps record_fps now 0 0 (increasing_anchors (candidates record_fps now 0 now))
