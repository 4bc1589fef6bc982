-- ===== src/Summary/Pass/Start.antt =====
-- compactor/summarizer.py: the state that a pass drains from: what the repair of the watermark, the
-- observed position and the adoption of an old record leave as it is.
use mathlib.Core.Logic.{inl, inr}
use mathlib.Core.Path.{subst}
use zions_light_ai.Prelude.{
  ℕ, ◌≤◌, ◌||◌, max, ◌≡◌, refl, sym, ◌∙◌, Bool, true, false, ◌&&◌, List, [], ◌∷◌, ◌++◌, length, all,
  leb, arith, Bool-cases, le→leb,
}
use zions_light_ai.Summary.{
  Chunk, State, Config, needs_rollup, needs_l1_rollup, needs_l2_rollup, themes, highest_of,
  highest_chunk_turn, repair_watermark_below_chunks,
}
use zions_light_ai.Summary.Rollup.{Turn}
use zions_light_ai.Summary.Rollup.Tiles.{Tiles, IsTiled, Apart, all_chunks}
use zions_light_ai.Summary.Position.{observed_position}
use zions_light_ai.Summary.Pass.{observe}
use zions_light_ai.Summary.Legacy.{adopt_upto, adopt_legacy_record}

abbrev ends_by : ℕ → Chunk → Bool
ends_by hi c = leb c.last_turn hi

Tiles-ends_by :
    (cs : List Chunk) (lo hi : ℕ) → Tiles Apart lo cs hi → (lo ≤ hi) × (all (ends_by hi) cs ≡ true)
Tiles-ends_by [] lo hi t = (omega (arith, t), refl)
Tiles-ends_by (c ∷ cs) lo hi (a, b, t) =
    let (le, rest) = Tiles-ends_by cs c.last_turn hi t in
    (omega (arith, a, b, le), ground (arith, le, rest))

all-both : (p : Chunk → Bool) (xs ys : List Chunk) → all p (xs ++ ys) ≡ (all p xs && all p ys)
all-both p [] ys = refl
all-both p (x ∷ xs) ys = ground (arith, all-both p xs ys)

highest_of-le :
    (highest hi : ℕ) (cs : List Chunk)
    → highest ≤ hi
    → all (ends_by hi) cs ≡ true
    → highest_of highest cs ≤ hi
unfolding highest_of
highest_of-le highest hi [] le h = le
highest_of-le highest hi (c ∷ cs) le h =
    let here : c.last_turn ≤ hi = ground (arith, h) in
    highest_of-le (max highest c.last_turn) hi cs (omega (arith, le, here)) (ground (arith, h))

-- A tiled state has no chunk past its watermark, so that there is nothing to repair.
tiled-highest : (s : State) → IsTiled Apart s → highest_chunk_turn s ≤ s.last_summarized_turn
unfolding highest_chunk_turn
tiled-highest s t =
    let hi = s.last_summarized_turn in
    let (le, held) = Tiles-ends_by (all_chunks s) 0 hi t in
    let swapped : all (ends_by hi) (s.l1 ++ (s.l2 ++ themes s.l3)) ≡ true = ground (
      arith,
      held,
      all-both (ends_by hi) (themes s.l3) (s.l2 ++ s.l1),
      all-both (ends_by hi) s.l2 s.l1,
      all-both (ends_by hi) s.l1 (s.l2 ++ themes s.l3),
      all-both (ends_by hi) s.l2 (themes s.l3),
    ) in
    highest_of-le 0 hi (s.l1 ++ (s.l2 ++ themes s.l3)) (omega arith) swapped

tiled-repair : (s : State) → IsTiled Apart s → (repair_watermark_below_chunks s).0 ≡ s
unfolding repair_watermark_below_chunks
tiled-repair s t =
    let kept : leb (highest_chunk_turn s) s.last_summarized_turn ≡ true =
      le→leb _ _ (tiled-highest s t) in
    rw (kept, repair_watermark_below_chunks) refl

repair-l1 : (s : State) → (repair_watermark_below_chunks s).0.l1 ≡ s.l1
unfolding repair_watermark_below_chunks
repair-l1 s = elim (Bool-cases (leb (highest_chunk_turn s) s.last_summarized_turn)) [
  | inl kept ↦ rw (kept, repair_watermark_below_chunks) refl
  | inr raised ↦ rw (raised, repair_watermark_below_chunks) refl
]

observed-IsTiled :
    (fingerprint : Turn → ℕ) (turns : List Turn) (s : State)
    → IsTiled Apart s
    → IsTiled Apart (observed_position fingerprint s turns).0
unfolding observed_position
observed-IsTiled fingerprint [] s t = t
observed-IsTiled fingerprint (x ∷ xs) s t = t

pub not-needs_rollup :
    (config : Config) (current : ℕ) (s : State)
    → needs_rollup config current s ≡ false
    → (needs_l1_rollup config current s ≡ false) × (needs_l2_rollup config s ≡ false)
unfolding needs_rollup
not-needs_rollup config current s h = ground arith

pub observe-IsTiled :
    (fingerprint : Turn → ℕ) (turns : List Turn) (s : State)
    → IsTiled Apart s
    → IsTiled Apart (observe fingerprint s turns).0
unfolding observe
observe-IsTiled fingerprint turns s t =
    observed-IsTiled fingerprint turns (repair_watermark_below_chunks s).0
      (subst (IsTiled Apart) (sym (tiled-repair s t)) t)

observed-l1 :
    (fingerprint : Turn → ℕ) (turns : List Turn) (s : State)
    → (observed_position fingerprint s turns).0.l1 ≡ s.l1
unfolding observed_position
observed-l1 fingerprint [] s = refl
observed-l1 fingerprint (x ∷ xs) s = refl

pub observe-l1 :
    (fingerprint : Turn → ℕ) (turns : List Turn) (s : State)
    → (observe fingerprint s turns).0.l1 ≡ s.l1
unfolding observe
observe-l1 fingerprint turns s =
    observed-l1 fingerprint turns (repair_watermark_below_chunks s).0 ∙ repair-l1 s

-- An adoption leaves the chunks and the watermark.
pub adopt-IsTiled :
    (covered_fp : Turn → ℕ) (s : State) (turns : List Turn) (offset w : ℕ)
    → IsTiled Apart s
    → IsTiled Apart (adopt_legacy_record covered_fp s turns offset w).0
unfolding adopt_legacy_record
adopt-IsTiled covered_fp s turns offset w t =
    elim (Bool-cases (s.legacy_adopted || (leb (length turns) 0 || leb (adopt_upto s) 0))) [
      | inl left ↦ rw (left, adopt_legacy_record) t
      | inr adopted ↦ rw (adopted, adopt_legacy_record) t
    ]

pub adopt-l1 :
    (covered_fp : Turn → ℕ) (s : State) (turns : List Turn) (offset w : ℕ)
    → (adopt_legacy_record covered_fp s turns offset w).0.l1 ≡ s.l1
unfolding adopt_legacy_record
adopt-l1 covered_fp s turns offset w =
    elim (Bool-cases (s.legacy_adopted || (leb (length turns) 0 || leb (adopt_upto s) 0))) [
      | inl left ↦ rw (left, adopt_legacy_record) refl
      | inr adopted ↦ rw (adopted, adopt_legacy_record) refl
    ]
