-- ===== src/Summary/Position/Observed.antt =====
-- compactor/summarizer.py: what `_observed_position` promises of the position.
use zions_light_ai.Prelude.{
  ℕ, suc, ◌+◌, ◌-◌, ◌≤◌, max, ◌≡◌, refl, true, List, [], ◌∷◌, ◌++◌, length, arith,
}
use zions_light_ai.Summary.{State, highest_chunk_turn, recorded_position}
use zions_light_ai.Summary.Rollup.{Turn}
use zions_light_ai.Summary.Position.{choose, new_turns, hashed, observed_position}
use zions_light_ai.Summary.Position.Align.{is_absent, align_candidates-once}

module _ (fingerprint : Turn → ℕ) where
  -- The position is at least what was recorded and at least the window's turns, it is what is recorded
  -- from then on, and neither the watermark nor a chunk changes.
  pub observed_position-Rises :
      (s : State) (turns : List Turn)
      → let r = observed_position fingerprint s turns in
        (recorded_position s ≤ r.1)
        × (length turns ≤ r.1)
        × (recorded_position r.0 ≡ r.1)
        × (r.0.last_summarized_turn ≡ s.last_summarized_turn)
        × (r.0.l1 ≡ s.l1)
        × (r.0.l2 ≡ s.l2)
        × (r.0.l3 ≡ s.l3)
  unfolding observed_position recorded_position highest_chunk_turn
  observed_position-Rises s [] = (omega arith, omega arith, omega arith, refl, refl, refl, refl)
  observed_position-Rises s (t ∷ ts) =
      (omega arith, omega arith, omega arith, refl, refl, refl, refl)

  -- Where the first turn of the stored anchor is in the hashed window just once, the position goes up
  -- by the turns of the window after the anchor's place, and to the window's length at least.
  pub observed_position-aligned :
      (s : State) (t : Turn) (ts : List Turn) (a : ℕ) (older later more : List ℕ)
      → s.tail_fp ≡ a ∷ more
      → hashed fingerprint (t ∷ ts) ≡ older ++ a ∷ later
      → is_absent a older ≡ true
      → is_absent a later ≡ true
      → (observed_position fingerprint s (t ∷ ts)).1
        ≡ max (length (t ∷ ts)) (recorded_position s + (suc (length later) - suc (length more)))
  unfolding observed_position new_turns choose
  observed_position-aligned s t ts a older later more e f h k =
      rw (e, f, align_candidates-once a older later more h k) refl
