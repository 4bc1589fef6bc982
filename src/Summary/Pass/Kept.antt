-- ===== src/Summary/Pass/Kept.antt =====
-- compactor/summarizer.py: what a whole pass keeps, and that it catches up.
use mathlib.Core.Logic.{inl, inr}
use zions_light_ai.Prelude.{
  ℕ, ◌+◌, ◌*◌, ◌≤◌, ◌<◌, ◌-◌, ◌≡◌, refl, ap, ◌∙◌, Bool, true, false, Option, none, List, length,
  arith, Bool-cases,
}
use zions_light_ai.Prelude.Text.{Text}
use zions_light_ai.Summary.{
  Chunk, State, Config, needs_rollup, needs_l1_rollup, needs_l2_rollup, recorded_position,
  repair_watermark_below_chunks,
}
use zions_light_ai.Summary.Rollup.{Turn, Piece, is_some_text}
use zions_light_ai.Summary.Rollup.Tiles.{IsTiled, Apart}
use zions_light_ai.Summary.Position.Observed.{observed_position-Rises}
use zions_light_ai.Summary.Drain.Ends.{Ends}
use zions_light_ai.Summary.Drain.Kept.{drain-Apart}
use zions_light_ai.Summary.Drain.Complete.{drain-caught_up}
use zions_light_ai.Summary.Pass.{
  is_past, start_of, request_of, observe, rollup_from, maybe_rollup, RawRequest, align_raw,
  patch_for,
}
use zions_light_ai.Summary.Legacy.{adopt_legacy_record}
use zions_light_ai.Summary.Pass.Start.{
  observe-IsTiled, observe-l1, adopt-IsTiled, adopt-l1, not-needs_rollup,
}

module _ (llm : ℕ → List Piece → Text) (allows writes : ℕ → Bool) (has_image_parts : Turn → Bool)
    (covered_fp : Turn → ℕ) (config : Config) where
  -- the state that the drain starts from, with what is adopted
  abbrev pub adopted : (Turn → ℕ) → RawRequest → List Turn → State → State
  adopted fingerprint raw turns s =
      (adopt_legacy_record covered_fp (observe fingerprint s turns).0 (align_raw raw turns).0
        ((observe fingerprint s turns).1 - length turns) s.last_summarized_turn).0

  adopted-l1 :
      (fingerprint : Turn → ℕ) (raw : RawRequest) (turns : List Turn) (s : State)
      → (adopted fingerprint raw turns s).l1 ≡ s.l1
  adopted-l1 fingerprint raw turns s =
      adopt-l1 covered_fp (observe fingerprint s turns).0 _ _ _ ∙ observe-l1 fingerprint turns s

  rollup_from-Apart :
      (fuel : ℕ) (changed : Bool) (raw : Option (List Turn)) (turns : List Turn)
      (sidecar : Option (List Chunk)) (o : State × ℕ)
      → 1 ≤ config.l1_chunk_size
      → 2 * o.1 + length o.0.l1 + 2 < fuel
      → IsTiled Apart o.0
      → Ends
          (λ r. IsTiled Apart r.state)
          (rollup_from llm allows writes has_image_parts covered_fp config fuel changed raw turns
            sidecar o)
  unfolding rollup_from start_of request_of
  rollup_from-Apart fuel changed raw turns sidecar (s, current) one enough t =
      elim (Bool-cases (needs_rollup config current s)) [
        | inl due ↦
            rw (due, rollup_from)
              (drain-Apart llm allows writes covered_fp config (request_of raw turns current) fuel 0
                (start_of s sidecar
                  (patch_for llm allows writes has_image_parts covered_fp config raw
                    (current - length turns) current s)
                  changed)
                one (omega (arith, enough)) t)
        | inr idle ↦ rw (idle, rollup_from) t
      ]

  -- With scenes of one turn at least, with or without raw messages: from a state whose spans of theme,
  -- chapters and scenes are in order and apart up to the watermark, the pass has a result, on fuel that
  -- grows with the position and the scenes, and leaves them so, whether it is skipped, finds nothing
  -- due, or drains, and whatever the model, the budget and the archive do.
  pub maybe_rollup-Apart :
      (fingerprint : Turn → ℕ) (fuel : ℕ) (skip : Option ℕ) (raw : RawRequest) (turns : List Turn)
      (sidecar : Option (List Chunk)) (s : State)
      → 1 ≤ config.l1_chunk_size
      → 2 * (observe fingerprint s turns).1 + length s.l1 + 2 < fuel
      → IsTiled Apart s
      → Ends
          (λ r. IsTiled Apart r.state)
          (maybe_rollup llm allows writes has_image_parts covered_fp config fingerprint fuel skip
            raw turns sidecar s)
  unfolding maybe_rollup start_of
  maybe_rollup-Apart fingerprint fuel skip raw turns sidecar s one enough t =
      elim (Bool-cases (is_past skip (recorded_position s))) [
        | inl skipped ↦ rw (skipped, maybe_rollup) t
        | inr goes ↦
            rw (goes, maybe_rollup)
              (rollup_from-Apart fuel _ (align_raw raw turns).1 turns sidecar
                (adopted fingerprint raw turns s, (observe fingerprint s turns).1) one
                (omega (arith, enough, ap length (adopted-l1 fingerprint raw turns s)))
                (adopt-IsTiled covered_fp (observe fingerprint s turns).0 (align_raw raw turns).0
                  ((observe fingerprint s turns).1 - length turns) s.last_summarized_turn
                  (observe-IsTiled fingerprint turns s t)))
      ]

  rollup_from-caught_up :
      (fuel : ℕ) (changed : Bool) (raw : Option (List Turn)) (turns : List Turn)
      (sidecar : Option (List Chunk)) (o : State × ℕ)
      → 1 ≤ config.l1_chunk_size
      → 1 ≤ config.l2_chunk_size
      → ((k : ℕ) (pieces : List Piece) → is_some_text (llm k pieces) ≡ true)
      → ((k : ℕ) → allows k ≡ true)
      → length turns ≤ o.1
      → 2 * o.1 + length o.0.l1 + 2 < fuel
      → Ends
          (λ r.
            (needs_l1_rollup config o.1 r.state ≡ false) × (needs_l2_rollup config r.state ≡ false))
          (rollup_from llm allows writes has_image_parts covered_fp config fuel changed raw turns
            sidecar o)
  unfolding rollup_from start_of request_of
  rollup_from-caught_up fuel changed raw turns sidecar (s, current) one1 one2 answers free fits
        enough =
      elim (Bool-cases (needs_rollup config current s)) [
        | inl due ↦
            rw (due, rollup_from)
              (drain-caught_up llm allows writes covered_fp config (request_of raw turns current)
                fuel 0
                (start_of s sidecar
                  (patch_for llm allows writes has_image_parts covered_fp config raw
                    (current - length turns) current s)
                  changed)
                one1 one2 answers free (omega (arith, fits)) refl (omega (arith, enough)))
        | inr idle ↦ rw (idle, rollup_from) (not-needs_rollup config current s idle)
      ]

  -- With scenes of one turn and chapters of one scene at least, with or without raw messages:
  -- when the model answers every call and the budget allows every unit, a pass that is not skipped
  -- ends, on fuel that grows with the position and the scenes, with no scene and no chapter due at
  -- the position that it observed, from any state and for any window of turns.
  pub maybe_rollup-caught_up :
      (fingerprint : Turn → ℕ) (fuel : ℕ) (raw : RawRequest) (turns : List Turn)
      (sidecar : Option (List Chunk)) (s : State)
      → 1 ≤ config.l1_chunk_size
      → 1 ≤ config.l2_chunk_size
      → ((k : ℕ) (pieces : List Piece) → is_some_text (llm k pieces) ≡ true)
      → ((k : ℕ) → allows k ≡ true)
      → 2 * (observe fingerprint s turns).1 + length s.l1 + 2 < fuel
      → Ends
          (λ r.
            (needs_l1_rollup config (observe fingerprint s turns).1 r.state ≡ false)
            × (needs_l2_rollup config r.state ≡ false))
          (maybe_rollup llm allows writes has_image_parts covered_fp config fingerprint fuel none
            raw turns sidecar s)
  unfolding maybe_rollup observe
  maybe_rollup-caught_up fingerprint fuel raw turns sidecar s one1 one2 answers free enough =
      let rises = observed_position-Rises fingerprint (repair_watermark_below_chunks s).0 turns in
      rollup_from-caught_up fuel _ (align_raw raw turns).1 turns sidecar
        (adopted fingerprint raw turns s, (observe fingerprint s turns).1) one1 one2 answers free
        rises.1 (omega (arith, enough, ap length (adopted-l1 fingerprint raw turns s)))
