-- ===== src/Dedup/Clusters.antt =====
-- compactor/dedup.py: `_split_cluster` keeps the cluster's facts, in chunks that can be merged.
use mathlib.Core.List.{append_assoc, append-nil}
use mathlib.Core.Logic.{inl, inr}
use zions_light_ai.Prelude.{
  ℕ, zero, suc, ◌-◌, ◌≤◌, ◌<◌, ◌≡◌, refl, ap, sym, ◌∙◌, Bool, true, ◌&&◌, List, [], ◌∷◌, ◌++◌,
  length, take, drop, all, ltb, leb, arith, tests, Bool-cases, le→leb, leb→le, not-leb→lt,
  length-take, length-drop, length-append, take-append-drop,
}
use zions_light_ai.Dedup.{max_cluster_size, chunks, borrow, rebalance, split_cluster}

-- the chunks one after the other
abbrev pub joined : List (List ℕ) → List ℕ
joined [] = []
joined (c ∷ out) = c ++ joined out

chunks-joined : (fuel : ℕ) (xs : List ℕ) → length xs ≤ fuel → joined (chunks fuel xs) ≡ xs
unfolding chunks
chunks-joined zero [] h = refl
chunks-joined zero (x ∷ xs) h = absurd (omega arith)
chunks-joined (suc fuel) [] h = refl
chunks-joined (suc fuel) (x ∷ xs) h =
    ap (λ l. take max_cluster_size (x ∷ xs) ++ l)
      (chunks-joined fuel (drop max_cluster_size (x ∷ xs))
        (omega (arith, length-drop max_cluster_size (x ∷ xs))))
    ∙ take-append-drop max_cluster_size (x ∷ xs)

borrow-joined : (a b : List ℕ) → joined (borrow a b) ≡ a ++ b
unfolding borrow
borrow-joined a b = elim (Bool-cases (ltb (length b) 2)) [
  | inl short ↦
      let kept = length a - (2 - length b) in
      rw (short, append-nil)
        (sym (append_assoc (take kept a) (drop kept a) b)
          ∙ ap (λ l. l ++ b) (take-append-drop kept a))
  | inr fine ↦ rw (fine, append-nil) refl
]

rebalance-joined : (out : List (List ℕ)) → joined (rebalance out) ≡ joined out
unfolding rebalance
rebalance-joined [] = refl
rebalance-joined (a ∷ []) = refl
rebalance-joined (a ∷ b ∷ []) = borrow-joined a b ∙ ap (λ l. a ++ l) (sym (append-nil b))
rebalance-joined (a ∷ b ∷ c ∷ out) = ap (λ l. a ++ l) (rebalance-joined (b ∷ c ∷ out))

-- what the loop makes: full chunks, and a last one that is not empty
abbrev Filled : List (List ℕ) → Type 0
Filled [] = ⊥
Filled (a ∷ []) = (1 ≤ length a) × (length a ≤ max_cluster_size)
Filled (a ∷ b ∷ out) = (length a ≡ max_cluster_size) × Filled (b ∷ out)

abbrev pub is_mergeable : List ℕ → Bool
is_mergeable c = leb 2 (length c) && leb (length c) max_cluster_size

Filled-cons :
    (a : List ℕ) (out : List (List ℕ)) → length a ≡ max_cluster_size → Filled out → Filled (a ∷ out)
Filled-cons a [] h f = absurd f
Filled-cons a (b ∷ out) h f = (h, f)

chunks-nil : (fuel : ℕ) → chunks fuel [] ≡ []
unfolding chunks
chunks-nil zero = refl
chunks-nil (suc fuel) = refl

drop-all : (n : ℕ) (xs : List ℕ) → length xs ≤ n → drop n xs ≡ []
drop-all zero [] h = refl
drop-all zero (x ∷ xs) h = absurd (omega arith)
drop-all (suc n) [] h = refl
drop-all (suc n) (x ∷ xs) h = drop-all n xs (omega arith)

chunks-Filled :
    (fuel : ℕ) (xs : List ℕ) → 1 ≤ length xs → length xs ≤ fuel → Filled (chunks fuel xs)
unfolding chunks
chunks-Filled zero xs h k = absurd (omega arith)
chunks-Filled (suc fuel) [] h k = absurd (omega arith)
chunks-Filled (suc fuel) (x ∷ xs) h k = elim (Bool-cases (leb (length (x ∷ xs)) max_cluster_size)) [
  | inl small ↦
      let size = length-take max_cluster_size (x ∷ xs) in
      rw (drop-all max_cluster_size (x ∷ xs) (leb→le _ _ small), chunks-nil fuel)
        (omega (tests, size, leb→le _ _ small), omega (tests, size))
  | inr large ↦
      Filled-cons (take max_cluster_size (x ∷ xs)) _
        (omega (tests, length-take max_cluster_size (x ∷ xs), not-leb→lt _ _ large))
        (chunks-Filled fuel (drop max_cluster_size (x ∷ xs))
          (omega (tests, length-drop max_cluster_size (x ∷ xs), not-leb→lt _ _ large))
          (omega (arith, length-drop max_cluster_size (x ∷ xs))))
]

mergeable : (c : List ℕ) → 2 ≤ length c → length c ≤ max_cluster_size → is_mergeable c ≡ true
mergeable c h k = rw (le→leb 2 (length c) h, le→leb (length c) max_cluster_size k) refl

borrow-mergeable :
    (a b : List ℕ)
    → length a ≡ max_cluster_size
    → 1 ≤ length b
    → length b ≤ max_cluster_size
    → all is_mergeable (borrow a b) ≡ true
unfolding borrow
borrow-mergeable a b h k m = elim (Bool-cases (ltb (length b) 2)) [
  | inl short ↦
      let kept = length a - (2 - length b) in
      rw
        (
          short,
          mergeable (take kept a) (omega (tests, length-take kept a))
              (omega (tests, length-take kept a)),
          mergeable (drop kept a ++ b)
              (omega (tests, length-drop kept a, length-append (drop kept a) b))
              (omega (tests, length-drop kept a, length-append (drop kept a) b)),
        )
        refl
  | inr fine ↦ rw (fine, mergeable a (omega arith) (omega arith), mergeable b (omega tests) m) refl
]

rebalance-mergeable :
    (a b : List ℕ) (out : List (List ℕ))
    → Filled (a ∷ b ∷ out)
    → all is_mergeable (rebalance (a ∷ b ∷ out)) ≡ true
unfolding rebalance
rebalance-mergeable a b [] f = borrow-mergeable a b f.0 f.1.0 f.1.1
rebalance-mergeable a b (c ∷ out) f = ground (arith, f.0, rebalance-mergeable b c out f.1)

large-mergeable :
    (out : List (List ℕ))
    → Filled out
    → max_cluster_size < length (joined out)
    → all is_mergeable (rebalance out) ≡ true
large-mergeable [] f h = absurd f
large-mergeable (a ∷ []) f h = absurd (omega (arith, f.1, length-append a []))
large-mergeable (a ∷ b ∷ out) f h = rebalance-mergeable a b out f

-- A cluster of two facts at least is split into chunks of two to four, which have its facts in order.
pub split_cluster_lem :
    (cluster : List ℕ)
    → (joined (split_cluster cluster) ≡ cluster)
      × (2 ≤ length cluster → all is_mergeable (split_cluster cluster) ≡ true)
unfolding split_cluster
split_cluster_lem cluster = elim (Bool-cases (leb (length cluster) max_cluster_size)) [
  | inl small ↦ rw small (append-nil cluster, λ h. rw (mergeable cluster h (leb→le _ _ small)) refl)
  | inr large ↦
      let whole = chunks-joined (length cluster) cluster (omega arith) in
      rw large (
        rebalance-joined (chunks (length cluster) cluster) ∙ whole,
        λ h.
            large-mergeable (chunks (length cluster) cluster)
              (chunks-Filled (length cluster) cluster (omega arith) (omega arith))
              (omega (tests, ap length whole, not-leb→lt _ _ large)),
      )
]
