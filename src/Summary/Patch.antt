-- ===== src/Summary/Patch.antt =====
-- compactor/summarizer.py: `_patch_candidates`, the older turns that the next scene re-reads. Whether a
-- turn has image parts is an argument.
use zions_light_ai.Prelude.{
  ℕ, ◌+◌, Bool, ◌||◌, Option, none, some, List, [], ◌∷◌, take, map, leb, ◌==◌, if◌then◌else◌,
}
use zions_light_ai.Prelude.Text.{is_blank}
use zions_light_ai.Summary.{State, Config}
use zions_light_ai.Summary.Rollup.{Turn, Candidate, nth}
use zions_light_ai.Summary.Pairing.{Pair, pairing}
use zions_light_ai.Summary.Plan.{Element, entries_of, record_sequence}

-- `pairs[j]`, where there is one
unfoldable pub paired_with : ℕ → List Pair → Option ℕ
paired_with j [] = none
paired_with j (p ∷ pairs) = if p.at_now == j then some p.at_record else paired_with j pairs

-- `seq_pos[k]`
unfoldable pub position_at : ℕ → ℕ → List Element → ℕ
unfolding nth
position_at default k seq = elim (nth k seq) [ none ↦ default | some e ↦ e.position ]

module _ (has_image_parts : Turn → Bool) (covered_fp : Turn → ℕ) (config : Config) where
  -- The candidates among the turns from index `j` on, with `n` before them.
  unfoldable pub patch_from : List Element → List Pair → ℕ → ℕ → ℕ → List Turn → List Candidate
  unfolding paired_with position_at
  patch_from seq pairs j after n [] = []
  patch_from seq pairs j after n (t ∷ turns) =
      let skipped = patch_from seq pairs (j + 1) after n turns in
      let more = patch_from seq pairs (j + 1) after (n + 1) turns in
      elim (paired_with j pairs) [
        | some k ↦ patch_from seq pairs (j + 1) (position_at after k seq) n turns
        | none ↦
            if has_image_parts t || is_blank t.body
            then skipped
            else record { index = j; after = after }
              ∷ (if leb config.l1_chunk_size (n + 1) then [] else more)
      ]

  -- Without a sequence there is none.
  abbrev pub patch_of_sequence : List Element → List Turn → ℕ → List Candidate
  patch_of_sequence [] raw_turns first_read = []
  patch_of_sequence (e ∷ seq) raw_turns first_read =
      patch_from (e ∷ seq) (pairing (entries_of (e ∷ seq)) (map covered_fp raw_turns)) 0 0 0
        (take first_read raw_turns)

  unfoldable pub patch_candidates : State → List Turn → ℕ → List Candidate
  unfolding record_sequence pairing patch_from
  patch_candidates s raw_turns first_read =
      patch_of_sequence (record_sequence s) raw_turns first_read
