-- ===== src/Summary/Position/Align.antt =====
-- compactor/summarizer.py: `_align_candidates` where the anchor's first turn is in the window once.
use mathlib.Core.Logic.{inl, inr}
use zions_light_ai.Prelude.{
  ℕ, zero, suc, ◌+◌, ◌-◌, ◌≤◌, ◌≡◌, ◌⊎◌, refl, ap, Bool, true, false, not, List, [], ◌∷◌, ◌++◌,
  length, take, drop, any, leb, ◌==◌, arith, tests, Bool-cases, length-append, leb→le, le→leb,
}
use zions_light_ai.Prelude.Text.{same_text}
use zions_light_ai.Summary.Position.{
  insert_once, align_at, align_ends, align_prefixes, align_candidates,
}

-- the fingerprint is not in the list
abbrev pub is_absent : ℕ → List ℕ → Bool
is_absent a xs = not (any (λ x. x == a) xs)

slice-absent :
    (a m i : ℕ) (p later : List ℕ)
    → is_absent a later ≡ true
    → same_text (take (suc m) (drop i later)) (a ∷ p) ≡ false
unfolding same_text
slice-absent a m zero p [] h = refl
slice-absent a m (suc i) p [] h = refl
slice-absent a m zero p (x ∷ xs) h = ground arith
slice-absent a m (suc i) p (x ∷ xs) h = slice-absent a m i p xs (ground arith)

slice-start :
    (a m i : ℕ) (p older later : List ℕ)
    → is_absent a older ≡ true
    → is_absent a later ≡ true
    → same_text (take (suc m) (drop i (older ++ a ∷ later))) (a ∷ p) ≡ true
    → i ≡ length older
unfolding same_text
slice-start a m zero p [] later h k e = refl
slice-start a m (suc i) p [] later h k e = let no = slice-absent a m i p later k in cc
slice-start a m zero p (b ∷ older) later h k e = ground arith
slice-start a m (suc i) p (b ∷ older) later h k e =
    ap suc (slice-start a m i p older later (ground arith) k e)

-- a set that has nothing but `v`
abbrev Only : ℕ → List ℕ → Type 0
Only v out = (out ≡ []) ⊎ (out ≡ v ∷ [])

insert_once-Only : (v : ℕ) (out : List ℕ) → Only v out → insert_once v out ≡ v ∷ []
unfolding insert_once
insert_once-Only v out (inl e) = rw e refl
insert_once-Only v out (inr e) = rw e (ground arith)

slice-here :
    (a : ℕ) (older later : List ℕ)
    → same_text (take 1 (drop (length older) (older ++ a ∷ later))) (a ∷ []) ≡ true
unfolding same_text
slice-here a [] later = ground arith
slice-here a (b ∷ older) later = slice-here a older later

module _ (a : ℕ) (older later more : List ℕ) (absent : is_absent a older ≡ true)
    (absent' : is_absent a later ≡ true) where
  abbrev window : List ℕ
  window = older ++ a ∷ later

  -- the turns from the anchor's first on, less the anchor's
  abbrev fresh : ℕ
  fresh = suc (length later) - suc (length more)

  abbrev size : ℕ
  size = suc (length more)

  module _ (P : List ℕ → Type 0) (ins : (out : List ℕ) → P out → P (insert_once fresh out)) where
    align_at-keeps :
        (m j : ℕ) (p out : List ℕ)
        → suc m ≤ j
        → j ≤ length window
        → m ≤ length more
        → P out
        → P (align_at size (suc m) (a ∷ p) window j out)
    unfolding align_at
    align_at-keeps m j p out low high le o =
        elim (Bool-cases (same_text (take (suc m) (drop (j - suc m) window)) (a ∷ p))) [
          | inl e ↦
              let start = slice-start a m (j - suc m) p older later absent absent' e in
              let value : (length window - j) - (size - suc m) ≡ fresh =
                omega (arith, start, low, high, le, length-append older (a ∷ later)) in
              rw (e, value, align_at) (ins out o)
          | inr e ↦ rw (e, align_at) o
        ]

    align_ends-keeps :
        (m k : ℕ) (p out : List ℕ)
        → suc m + k ≤ length window
        → m ≤ length more
        → P out
        → P (align_ends size (suc m) (a ∷ p) window k out)
    unfolding align_ends
    align_ends-keeps m zero p out high le o =
        align_at-keeps m (suc m) p out (omega arith) (omega (arith, high)) le o
    align_ends-keeps m (suc k) p out high le o =
        align_ends-keeps m k p _ (omega (arith, high)) le
          (align_at-keeps m (suc m + suc k) p out (omega arith) high le o)

  -- Once the loop has passed the anchor's first turn, the set has its element.
  align_at-here :
      (j : ℕ) (out : List ℕ)
      → j ≡ suc (length older)
      → Only fresh out
      → align_at size 1 (a ∷ []) window j out ≡ fresh ∷ []
  unfolding align_at
  align_at-here j out e o =
      let value : (length window - suc (length older)) - (size - 1) ≡ fresh =
        omega (arith, length-append older (a ∷ later)) in
      let test : same_text (take 1 (drop (suc (length older) - 1) window)) (a ∷ []) ≡ true =
        let off : suc (length older) - 1 ≡ length older = omega arith in
        rw off (slice-here a older later) in
      rw (e, test, value, align_at) (insert_once-Only fresh out o)

  align_ends-found :
      (k : ℕ) (out : List ℕ)
      → length older ≤ k
      → 1 + k ≤ length window
      → Only fresh out
      → align_ends size 1 (a ∷ []) window k out ≡ fresh ∷ []
  unfolding align_ends
  align_ends-found zero out low high o = align_at-here 1 out (omega (arith, low)) o
  align_ends-found (suc k) out low high o = elim (Bool-cases (length older == suc k)) [
    | inl here ↦
        align_ends-keeps (λ l. l ≡ fresh ∷ []) (λ l e. insert_once-Only fresh l (inr e)) 0 k [] _
          (omega (arith, high)) (omega arith)
          (align_at-here (1 + suc k) out (ground (arith, here)) o)
    | inr not_yet ↦ align_ends-found k _ (ground (arith, not_yet, low)) (omega (arith, high)) (
        align_at-keeps (Only fresh) (λ l q. inr (insert_once-Only fresh l q)) 0 (1 + suc k) [] out
          (omega arith) high (omega arith) o)
  ]

  align_prefixes-found :
      (m : ℕ) (out : List ℕ)
      → m ≤ length more
      → Only fresh out
      → align_prefixes (a ∷ more) window (suc m) out ≡ fresh ∷ []
  unfolding align_prefixes
  align_prefixes-found zero out le o =
      let room : length older + 1 ≤ length window =
        omega (arith, length-append older (a ∷ later)) in
      let fits : leb 1 (length window) ≡ true = le→leb 1 (length window) (omega (arith, room)) in
      rw fits
        (align_ends-found (length window - 1) out (omega (arith, room)) (omega (arith, room)) o)
  align_prefixes-found (suc m) out le o = elim (Bool-cases (leb (suc (suc m)) (length window))) [
    | inl fits ↦ rw fits (
        align_prefixes-found m _ (omega (arith, le)) (
          align_ends-keeps (Only fresh) (λ l q. inr (insert_once-Only fresh l q)) (suc m)
            (length window - suc (suc m)) (take (suc m) more) out (omega (tests, leb→le _ _ fits))
            le o))
    | inr short ↦ rw short (align_prefixes-found m out (omega (arith, le)) o)
  ]

  -- Where the anchor's first turn is in the window just once, the only number of new turns is that of
  -- the turns from it on, less the anchor's.
  pub align_candidates-once : align_candidates (a ∷ more) window ≡ fresh ∷ []
  unfolding align_candidates
  align_candidates-once = align_prefixes-found (length more) [] (omega arith) (inl refl)
