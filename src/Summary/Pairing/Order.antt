-- ===== src/Summary/Pairing/Order.antt =====
-- compactor/summarizer.py: the pairing keeps both orders and pairs equal fingerprints only.
use mathlib.Core.List.{append-nil}
use mathlib.Core.Logic.{inl, inr}
use mathlib.Core.Path.{subst}
use zions_light_ai.Prelude.{
  ℕ, zero, suc, ◌+◌, ◌-◌, ◌≤◌, ◌<◌, max, ◌≡◌, refl, sym, Bool, true, Option, none, some, List, [],
  ◌∷◌, ◌++◌, length, all, any, arith, Bool-cases, Option-cases,
}
use zions_light_ai.Summary.Rollup.{nth}
use zions_light_ai.Summary.Pairing.{
  Pair, increasing_anchors, is_known, indices, candidates, first_from, before_end, entry_for,
  fill_gap, fill_gaps, pairing,
}
use zions_light_ai.Summary.Pairing.Anchors.{
  is_pair, IsOrdered, IsOrdered-down, hits, indices_lem, is_pair-hits, increasing_anchors-IsOrdered,
}

first_from_lem :
    (p : ℕ → Bool) (next k : ℕ) (ks : List ℕ)
    → first_from next ks ≡ some k
    → all p ks ≡ true
    → (next ≤ k) × (p k ≡ true)
unfolding first_from
first_from_lem p next k [] e h = cc
first_from_lem p next k (x ∷ xs) e h = ground (arith, first_from_lem p next k xs)

before_end_lem : (end k : ℕ) (o : Option ℕ) → before_end end o ≡ some k → (o ≡ some k) × (k < end)
before_end_lem end k none e = cc
before_end_lem end k (some i) e = ground arith

entry_for_lem :
    (record_fps : List (Option ℕ)) (next end k fp : ℕ)
    → entry_for record_fps next end (some fp) ≡ some k
    → (next ≤ k) × (k < end) × (hits record_fps fp k ≡ true)
unfolding entry_for
entry_for_lem record_fps next end k fp e =
    let (found, below) = before_end_lem end k (first_from next (indices fp 0 record_fps)) e in
    let (from, hit) =
      first_from_lem (hits record_fps fp) next k (indices fp 0 record_fps) found
        (indices_lem fp record_fps) in
    (from, below, hit)

module _ (record_fps : List (Option ℕ)) (now : List ℕ) where
  entry_for-pair :
      (j next end k : ℕ) (o : Option ℕ)
      → nth j now ≡ o
      → entry_for record_fps next end o ≡ some k
      → (next ≤ k)
        × (k < end)
        × (is_pair record_fps now (record { at_now = j; at_record = k }) ≡ true)
  unfolding entry_for
  entry_for-pair j next end k none here e = cc
  entry_for-pair j next end k (some fp) here e =
      let (from, below, hit) = entry_for_lem record_fps next end k fp e in
      (from, below, is_pair-hits record_fps now j k fp here hit)

  fill_gap-IsOrdered :
      (j n next end : ℕ) (rest : List Pair)
      → IsOrdered record_fps now (j + n) (max next end) rest
      → IsOrdered record_fps now j next (fill_gap record_fps now j n next end ++ rest)
  unfolding fill_gap
  fill_gap-IsOrdered j zero next end rest h =
      IsOrdered-down record_fps now (j + 0) (max next end) j next rest (omega arith) (omega arith) h
  fill_gap-IsOrdered j (suc n) next end rest h =
      elim (Option-cases (entry_for record_fps next end (nth j now))) [
        | inl no_entry ↦
            let skip : fill_gap record_fps now j (suc n) next end
                ≡ fill_gap record_fps now (j + 1) n next end =
              rw (no_entry, fill_gap) refl in
            subst (λ l. IsOrdered record_fps now j next (l ++ rest)) (sym skip)
              (IsOrdered-down record_fps now (j + 1) next j next _ (omega arith) (omega arith) (
                fill_gap-IsOrdered (j + 1) n next end rest (
                  IsOrdered-down record_fps now (j + suc n) (max next end) (j + 1 + n)
                    (max next end) rest (omega arith) (omega arith) h)))
        | inr (k, found) ↦
            let (from, below, same) = entry_for-pair j next end k (nth j now) refl found in
            let take_it : fill_gap record_fps now j (suc n) next end
                ≡ record { at_now = j; at_record = k }
                  ∷ fill_gap record_fps now (j + 1) n (k + 1) end =
              rw (found, fill_gap) refl in
            subst (λ l. IsOrdered record_fps now j next (l ++ rest)) (sym take_it)
              (
                same,
                omega arith,
                from,
                fill_gap-IsOrdered (j + 1) n (k + 1) end rest (
                    IsOrdered-down record_fps now (j + suc n) (max next end) (j + 1 + n)
                      (max (k + 1) end) rest (omega arith) (omega (arith, from, below)) h),
              )
      ]

  fill_gaps-IsOrdered :
      (j next : ℕ) (anchors : List Pair)
      → IsOrdered record_fps now j next anchors
      → IsOrdered record_fps now j next (fill_gaps record_fps now j next anchors)
  unfolding fill_gaps
  fill_gaps-IsOrdered j next [] h =
      subst (IsOrdered record_fps now j next) (append-nil _)
        (fill_gap-IsOrdered j (length now - j) next (length record_fps) [] refl)
  fill_gaps-IsOrdered j next (a ∷ anchors) (same, le, le', t) =
      fill_gap-IsOrdered j (a.at_now - j) next a.at_record
        (a ∷ fill_gaps record_fps now (a.at_now + 1) (a.at_record + 1) anchors)
        (
          same,
          omega (arith, le),
          omega (arith, le'),
          fill_gaps-IsOrdered (a.at_now + 1) (a.at_record + 1) anchors t,
        )

  -- The pairing pairs equal fingerprints only, and takes both sequences in order: no turn and no entry
  -- is in two pairs.
  pub pairing-IsOrdered : IsOrdered record_fps now 0 0 (pairing record_fps now)
  unfolding pairing
  pairing-IsOrdered = elim (Bool-cases (any is_known record_fps)) [
    | inl known ↦ rw known (
        fill_gaps-IsOrdered 0 0 (increasing_anchors (candidates record_fps now 0 now))
          (increasing_anchors-IsOrdered record_fps now))
    | inr unknown ↦ rw unknown refl
  ]
