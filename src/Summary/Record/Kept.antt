-- ===== src/Summary/Record/Kept.antt =====
-- compactor/summarizer.py: the record after a chunk, in terms of the record before it and the chunk's turns.
use zions_light_ai.Prelude.{
  ℕ, zero, suc, ◌+◌, ◌-◌, ◌≤◌, ◌≡◌, refl, ap, sym, ◌∙◌, true, false, ◌||◌, Option, none, some, List,
  [], ◌∷◌, ◌++◌, length, take, drop, map, ltb, ◌==◌, arith, length-append,
}
use zions_light_ai.Summary.Rollup.{nth}
use zions_light_ai.Summary.Record.{unknowns, overlay, write_fps, record_chunk_fps}

-- the fingerprint at an index of the record, where there is a known one
abbrev pub known_at : ℕ → List (Option ℕ) → Option ℕ
known_at k entries = elim (nth k entries) [ none ↦ none | some e ↦ e ]

-- the first of two fingerprints that is known
abbrev pub or_else : Option ℕ → Option ℕ → Option ℕ
or_else none b = b
or_else (some a) b = some a

-- the fingerprint of the turn at an index, for turns that start `before` indices in
abbrev pub fp_from : ℕ → ℕ → List ℕ → Option ℕ
fp_from zero k fps = nth k fps
fp_from (suc before) zero fps = none
fp_from (suc before) (suc k) fps = fp_from before k fps

known_at-map : (k : ℕ) (fps : List ℕ) → known_at k (map some fps) ≡ nth k fps
unfolding nth
known_at-map k [] = refl
known_at-map zero (f ∷ fps) = refl
known_at-map (suc k) (f ∷ fps) = known_at-map k fps

or_else-none : (o : Option ℕ) → or_else o none ≡ o
or_else-none none = refl
or_else-none (some a) = refl

known_at-overlay :
    (k : ℕ) (entries : List (Option ℕ)) (fps : List ℕ)
    → known_at k (overlay entries fps) ≡ or_else (known_at k entries) (nth k fps)
unfolding overlay nth
known_at-overlay k [] fps = known_at-map k fps
known_at-overlay k (x ∷ entries) [] = sym (or_else-none (known_at k (x ∷ entries)))
known_at-overlay zero (none ∷ entries) (f ∷ fps) = refl
known_at-overlay zero (some old ∷ entries) (f ∷ fps) = refl
known_at-overlay (suc k) (none ∷ entries) (f ∷ fps) = known_at-overlay k entries fps
known_at-overlay (suc k) (some old ∷ entries) (f ∷ fps) = known_at-overlay k entries fps

known_at-unknowns : (k n : ℕ) → known_at k (unknowns n) ≡ none
unfolding unknowns nth
known_at-unknowns k zero = refl
known_at-unknowns zero (suc n) = refl
known_at-unknowns (suc k) (suc n) = known_at-unknowns k n

-- Unknown entries at the end change nothing.
known_at-padded :
    (k n : ℕ) (entries : List (Option ℕ)) → known_at k (entries ++ unknowns n) ≡ known_at k entries
unfolding nth
known_at-padded k n [] = known_at-unknowns k n
known_at-padded zero n (x ∷ entries) = refl
known_at-padded (suc k) n (x ∷ entries) = known_at-padded k n entries

known_at-split :
    (before k : ℕ) (entries : List (Option ℕ)) (fps : List ℕ)
    → before ≤ length entries
    → known_at k (take before entries ++ overlay (drop before entries) fps)
      ≡ or_else (known_at k entries) (fp_from before k fps)
unfolding nth
known_at-split zero k entries fps le = known_at-overlay k entries fps
known_at-split (suc before) k [] fps le = absurd (omega arith)
known_at-split (suc before) zero (x ∷ entries) fps le =
    sym (or_else-none (known_at zero (x ∷ entries)))
known_at-split (suc before) (suc k) (x ∷ entries) fps le =
    known_at-split before k entries fps (omega arith)

length-unknowns : (n : ℕ) → length (unknowns n) ≡ n
unfolding unknowns
length-unknowns zero = refl
length-unknowns (suc n) = omega (arith, length-unknowns n)

-- After the record of a chunk of the turns `first` to `last`, with a fingerprint for each of them, the
-- entry at every index is the fingerprint that the record held there before, if it held one, and
-- otherwise the chunk's own fingerprint of that turn, if the turn is one of the chunk's; nothing
-- else is known.
pub record_chunk_fps-known :
    (first last : ℕ) (fps : List ℕ) (entries : List (Option ℕ)) (k : ℕ)
    → 1 ≤ first
    → first ≤ last
    → length fps ≡ (last - first) + 1
    → known_at k (record_chunk_fps first last fps entries)
      ≡ or_else (known_at k entries) (fp_from (first - 1) k fps)
unfolding record_chunk_fps write_fps
record_chunk_fps-known first last fps entries k one order e =
    let good : (ltb first 1 || ltb last first) ≡ false = ground (arith, one, order) in
    let fits : (length fps == (last - first) + 1) ≡ true = ground (arith, e) in
    let missing = (first - 1) - length entries in
    let room : first - 1 ≤ length (entries ++ unknowns missing) =
      omega (arith, length-append entries (unknowns missing), length-unknowns missing) in
    rw (good, fits, record_chunk_fps)
      (known_at-split (first - 1) k (entries ++ unknowns missing) fps room
        ∙ ap (λ o. or_else o (fp_from (first - 1) k fps)) (known_at-padded k missing entries))
