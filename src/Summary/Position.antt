-- ===== src/Summary/Position.antt =====
-- compactor/summarizer.py: `_observed_position`, the conversation's position from the window that the
-- client sent, and `_align_candidates`. The lists of turns have no system messages; `fingerprint`
-- stands for `_turn_fingerprints` at one turn.
pub mod Align
pub mod Observed
use zions_light_ai.Prelude.{
  ℕ, zero, suc, ◌+◌, ◌-◌, max, Bool, true, false, not, ◌&&◌, ◌||◌, Option, none, some, List, [],
  ◌∷◌, ◌++◌, length, take, drop, map, leb, ltb, ◌==◌, if◌then◌else◌,
}
use zions_light_ai.Prelude.Text.{same_text}
use zions_light_ai.Summary.{State, highest_chunk_turn, recorded_position}
use zions_light_ai.Summary.Rollup.{Turn}

abbrev pub anchor_turns : ℕ
anchor_turns = 4

abbrev pub assumed_new_turns : ℕ
assumed_new_turns = 2

abbrev pub fingerprint_tail_turns : ℕ
fingerprint_tail_turns = 64

-- `xs[-k:]`, for a positive `k`
abbrev pub last_of {ℓ} : {A : Type ℓ} → ℕ → List A → List A
last_of k xs = drop (length xs - k) xs

-- A sorted list of the elements of a set, with one more.
unfoldable pub insert_once : ℕ → List ℕ → List ℕ
insert_once k [] = k ∷ []
insert_once k (x ∷ xs) =
    let rest = insert_once k xs in
    if ltb k x then k ∷ x ∷ xs else if k == x then x ∷ xs else x ∷ rest

-- One `j` of the inner loop, for the first `m` of the anchor's `size` fingerprints.
unfoldable pub align_at : ℕ → ℕ → List ℕ → List ℕ → ℕ → List ℕ → List ℕ
unfolding same_text insert_once
align_at size m prefix fps j out =
    if same_text (take m (drop (j - m) fps)) prefix
    then insert_once ((length fps - j) - (size - m)) out
    else out

-- The inner loop from `j = m + k` down to `m`.
unfoldable pub align_ends : ℕ → ℕ → List ℕ → List ℕ → ℕ → List ℕ → List ℕ
unfolding align_at
align_ends size m prefix fps zero out = align_at size m prefix fps m out
align_ends size m prefix fps (suc k) out =
    align_ends size m prefix fps k (align_at size m prefix fps (m + suc k) out)

-- The outer loop from `m` down to 1.
unfoldable pub align_prefixes : List ℕ → List ℕ → ℕ → List ℕ → List ℕ
unfolding align_ends
align_prefixes anchor fps zero out = out
align_prefixes anchor fps (suc m) out = align_prefixes anchor fps m (
    if leb (suc m) (length fps)
    then align_ends (length anchor) (suc m) (take (suc m) anchor) fps (length fps - suc m) out
    else out)

unfoldable pub align_candidates : List ℕ → List ℕ → List ℕ
unfolding align_prefixes
align_candidates anchor fps = align_prefixes anchor fps (length anchor) []

-- which candidate is taken; `steady` is an unchanged window that is no suffix
unfoldable pub choose : Bool → List ℕ → ℕ
choose steady [] = assumed_new_turns
choose steady (k ∷ []) = k
choose steady (k ∷ next ∷ ks) = if k == 0 && not steady then next else k

abbrev pub same_head : ℕ → Option ℕ → Bool
same_head fp none = false
same_head fp (some old) = fp == old

unfoldable pub new_turns : State → ℕ → ℕ → List ℕ → List ℕ → ℕ
unfolding highest_chunk_turn recorded_position choose align_candidates
new_turns s n head_fp fps [] = if ltb n (highest_chunk_turn s) then assumed_new_turns else 0
new_turns s n head_fp fps (a ∷ anchor) =
    choose
      ((n == s.window_turns && same_head head_fp s.head_fp) && not (ltb n (recorded_position s)))
      (align_candidates (a ∷ anchor) fps)

module _ (fingerprint : Turn → ℕ) where
  -- what is hashed of the window
  abbrev pub hashed : List Turn → List ℕ
  hashed turns = map fingerprint (last_of fingerprint_tail_turns turns)

  unfoldable pub observed_position : State → List Turn → State × ℕ
  unfolding recorded_position new_turns
  observed_position s [] = (record s { turns_seen = recorded_position s }, recorded_position s)
  observed_position s (t ∷ ts) =
      let fps = hashed (t ∷ ts) in
      let n = length (t ∷ ts) in
      let position = max n (recorded_position s + new_turns s n (fingerprint t) fps s.tail_fp) in
      (
        record s {
          turns_seen = position;
          tail_fp = last_of anchor_turns fps;
          head_fp = some (fingerprint t);
          window_turns = n;
        },
        position,
      )
