-- ===== src/Summary/Drain/Units.antt =====
-- compactor/summarizer.py: what a unit of each tier does to the watermark and to the scenes.
use mathlib.Core.Logic.{inl, inr}
use zions_light_ai.Prelude.{
  ℕ, ◌+◌, ◌-◌, ◌≤◌, ◌<◌, ◌≡◌, ◌⊎◌, refl, ap, Bool, true, false, Option, List, [], ◌∷◌, ◌++◌, length,
  take, drop, leb, ltb, arith, tests, Bool-cases, take-append-drop, length-append, leb→le,
}
use zions_light_ai.Prelude.Text.{Text}
use zions_light_ai.Summary.{Chunk, State, Config}
use zions_light_ai.Summary.Rollup.{
  Turn, Piece, Candidate, append_l1, l1_between, do_l1_rollup, fold_l1, do_l2_rollup, refresh_l3,
  refresh_of, do_l3_rollup, archive_chapters, has_span, turn_slice,
}

-- a unit that failed left the state as it was
abbrev pub Failed : State → State × Bool → Type 0
Failed s r = (r.1 ≡ false) × (r.0 ≡ s)

-- a unit of the scenes moves the watermark, and adds at most one scene
abbrev pub Reads : State → State × Bool → Type 0
Reads s r =
    (r.1 ≡ true)
    × (s.last_summarized_turn < r.0.last_summarized_turn)
    × (length r.0.l1 ≤ length s.l1 + 1)

-- a unit of the chapters takes scenes away, and leaves the watermark
abbrev pub Folds : State → State × Bool → Type 0
Folds s r =
    (r.1 ≡ true)
    × (r.0.last_summarized_turn ≡ s.last_summarized_turn)
    × (length r.0.l1 < length s.l1)

append_l1-Reads :
    (fingerprint : Turn → ℕ) (first last offset : ℕ) (turns : List Turn) (raw : Option (List Turn))
    (patch : List Candidate) (text : Text) (s : State)
    → s.last_summarized_turn < last
    → Reads s (append_l1 fingerprint first last offset turns raw patch text s)
      ⊎ Failed s (append_l1 fingerprint first last offset turns raw patch text s)
unfolding append_l1
append_l1-Reads fingerprint first last offset turns raw patch [] s h = inr (refl, refl)
append_l1-Reads fingerprint first last offset turns raw patch (c ∷ text) s h = inl (
  refl,
  h,
  omega (
    arith,
    length-append s.l1 (record { text = c ∷ text; first_turn = first; last_turn = last } ∷ []),
  ),
)

l1_between-Reads :
    (llm : List Piece → Text) (fingerprint : Turn → ℕ) (first last offset : ℕ) (turns : List Turn)
    (raw : Option (List Turn)) (patch : List Candidate) (s : State)
    → s.last_summarized_turn < last
    → Reads s (l1_between llm fingerprint first last offset turns raw patch s)
      ⊎ Failed s (l1_between llm fingerprint first last offset turns raw patch s)
unfolding l1_between
l1_between-Reads llm fingerprint first last offset turns raw patch s h =
    elim (Bool-cases (leb (length (turn_slice (first - offset) (last - offset) turns)) 0)) [
      | inl nothing ↦ rw (nothing, l1_between) (inr (refl, refl))
      | inr some_turns ↦ elim (Bool-cases (has_span first last s.l1)) [
        | inl present ↦ rw (some_turns, present, l1_between) (inl (refl, h, omega arith))
        | inr absent ↦
            rw (some_turns, absent, l1_between)
              (append_l1-Reads fingerprint first last offset turns raw _ _ s h)
      ]
    ]

pub do_l1_rollup-Reads :
    (llm : List Piece → Text) (fingerprint : Turn → ℕ) (config : Config) (turns : List Turn)
    (offset : ℕ) (raw : Option (List Turn)) (patch : List Candidate) (s : State)
    → 1 ≤ config.l1_chunk_size
    → Reads s (do_l1_rollup llm fingerprint config turns offset raw patch s)
      ⊎ Failed s (do_l1_rollup llm fingerprint config turns offset raw patch s)
unfolding do_l1_rollup
do_l1_rollup-Reads llm fingerprint config turns offset raw patch s one =
    let last = s.last_summarized_turn + config.l1_chunk_size in
    elim (Bool-cases (leb last offset)) [
      | inl behind ↦
          rw (behind, do_l1_rollup)
            (inl (refl, omega (tests, leb→le last offset behind), omega arith))
      | inr ahead ↦
          rw (ahead, do_l1_rollup)
            (l1_between-Reads llm fingerprint _ last offset turns raw patch s (omega arith))
    ]

fold_l1-Folds :
    (chunks rest : List Chunk) (text : Text) (s : State)
    → chunks ++ rest ≡ s.l1
    → Folds s (fold_l1 chunks rest text s) ⊎ Failed s (fold_l1 chunks rest text s)
unfolding fold_l1
fold_l1-Folds [] rest text s e = inr (refl, refl)
fold_l1-Folds (c ∷ chunks) rest [] s e = inr (refl, refl)
fold_l1-Folds (c ∷ chunks) rest (x ∷ text) s e =
    inl (refl, refl, omega (arith, length-append (c ∷ chunks) rest, ap length e))

pub do_l2_rollup-Folds :
    (llm : List Piece → Text) (config : Config) (s : State)
    → Folds s (do_l2_rollup llm config s) ⊎ Failed s (do_l2_rollup llm config s)
unfolding do_l2_rollup
do_l2_rollup-Folds llm config s = elim (Bool-cases (ltb (length s.l1) config.l2_chunk_size)) [
  | inl few ↦ rw (few, do_l2_rollup) (inr (refl, refl))
  | inr enough ↦
      rw (enough, do_l2_rollup)
        (fold_l1-Folds (take config.l2_chunk_size s.l1) (drop config.l2_chunk_size s.l1) _ s
          (take-append-drop config.l2_chunk_size s.l1))
]

-- a unit of the theme leaves the scenes and the watermark
abbrev pub Themes : State → State → Type 0
Themes s r = (r.last_summarized_turn ≡ s.last_summarized_turn) × (r.l1 ≡ s.l1)

refresh_l3-Themes :
    (written : Bool) (sidecar : Option (List Chunk)) (c : Chunk) (l2 : List Chunk) (text : Text)
    (s : State)
    → Themes s (refresh_l3 written sidecar c l2 text s).0.0
unfolding refresh_l3
refresh_l3-Themes written sidecar c l2 [] s = (refl, refl)
refresh_l3-Themes written sidecar c l2 (x ∷ text) s =
    elim (Bool-cases (archive_chapters written (c ∷ l2) sidecar).1) [
      | inl archived ↦ rw (archived, refresh_l3) (refl, refl)
      | inr failed ↦ rw (failed, refresh_l3) (refl, refl)
    ]

refresh_of-Themes :
    (llm : List Piece → Text) (written : Bool) (sidecar : Option (List Chunk)) (l2 : List Chunk)
    (s : State)
    → Themes s (refresh_of llm written sidecar l2 s).0.0
unfolding refresh_of
refresh_of-Themes llm written sidecar [] s = (refl, refl)
refresh_of-Themes llm written sidecar (c ∷ l2) s = refresh_l3-Themes written sidecar c l2 _ s

pub do_l3_rollup-Themes :
    (llm : List Piece → Text) (config : Config) (written : Bool) (sidecar : Option (List Chunk))
    (s : State)
    → Themes s (do_l3_rollup llm config written sidecar s).0.0
unfolding do_l3_rollup
do_l3_rollup-Themes llm config written sidecar s =
    elim (Bool-cases (ltb (length s.l2) config.l3_chunk_size)) [
      | inl few ↦ rw (few, do_l3_rollup) (refl, refl)
      | inr enough ↦ rw (enough, do_l3_rollup) (refresh_of-Themes llm written sidecar s.l2 s)
    ]
