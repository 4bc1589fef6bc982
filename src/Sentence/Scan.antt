-- ===== src/Sentence/Scan.antt =====
-- compactor/main.py: the scan of `trim_to_last_sentence` over a text. Its last end only gets further,
-- since closing marks start no match.
use mathlib.Core.Logic.{inl, inr, ◌⊎◌}
use zions_light_ai.Prelude.{
  ℕ, suc, ◌+◌, ◌-◌, ◌≤◌, ◌≡◌, refl, ap, sym, ◌∙◌, Bool, true, false, ◌||◌, some, List, [], ◌∷◌,
  ◌++◌, length, take, all, leb, arith, tests, Bool-cases, Option-cases, leb→le,
}
use zions_light_ai.Prelude.Text.{Text}
use zions_light_ai.Sentence.{
  Chars, boundary, match_at, span, is_stop, is_wide_stop, is_mark, is_wide_mark, last_end, or_last,
}

-- a text read backwards, in front of another
abbrev pub onto : Text → Text → Text
onto [] before = before
onto (c ∷ ps) before = onto ps (c ∷ before)

abbrev pub is_closing : ℕ → Bool
is_closing c = is_mark c || is_wide_mark c

stop-not_closing : (c : ℕ) → is_stop c || is_wide_stop c ≡ true → is_closing c ≡ false
unfolding is_stop is_wide_stop is_mark is_wide_mark
stop-not_closing c h = ground arith

span-closing :
    (p : ℕ → Bool) (rest : Text)
    → ((c : ℕ) → p c ≡ true → is_closing c ≡ true)
    → all is_closing (take (span p rest) rest) ≡ true
unfolding span
span-closing p [] h = refl
span-closing p (c ∷ rest) h = elim (Bool-cases (p c)) [
  | inl e ↦ rw (e, h c e) (span-closing p rest h)
  | inr e ↦ rw e refl
]

mark-closing : (c : ℕ) → is_mark c ≡ true → is_closing c ≡ true
mark-closing c h = rw h refl

wide-closing : (c : ℕ) → is_wide_mark c ≡ true → is_closing c ≡ true
wide-closing c h = ground arith

-- A match starts at no closing mark, and all that follows in it are closing marks.
match_at_lem :
    (c : ℕ) (rest : Text) (m : ℕ)
    → match_at c rest ≡ some m
    → (is_closing c ≡ false) × (all is_closing (take m rest) ≡ true)
unfolding match_at
match_at_lem c rest m h = ground (
  arith,
  stop-not_closing c,
  span-closing is_mark rest mark-closing,
  span-closing is_wide_mark rest wide-closing,
)

all-tail :
    (c : ℕ) (rest : Text) (n : ℕ)
    → all is_closing (take (suc n) (c ∷ rest)) ≡ true
    → all is_closing (take n rest) ≡ true
all-tail c rest n h = ground arith

not-all :
    (c : ℕ) (rest : Text) (n : ℕ)
    → is_closing c ≡ false
    → ¬ (all is_closing (take (suc n) (c ∷ rest)) ≡ true)
not-all c rest n k h = ground arith

module _ (chars : Chars) (fences : List ℕ) where
  -- what `last` ends in front of `rest`, at position `i`, are closing marks
  abbrev pub Closed : ℕ → ℕ → Text → Type 0
  Closed last i rest = all is_closing (take (last - i) rest) ≡ true

  boundary_lem :
      (i : ℕ) (before : Text) (c : ℕ) (rest : Text) (e : ℕ)
      → boundary chars fences i before c rest ≡ some e
      → (is_closing c ≡ false) × (suc i ≤ e) × Closed e (suc i) rest
  unfolding boundary
  boundary_lem i before c rest e h = elim (Option-cases (match_at c rest)) [
    | inl bad ↦ ground arith
    | inr (m, found) ↦
        let (a, b) = match_at_lem c rest m found in
        let q : e ≡ suc i + m = ground arith in
        (a, omega arith, ap (λ n. all is_closing (take n rest)) (omega arith) ∙ b)
  ]

  Closed-next :
      (last i : ℕ) (c : ℕ) (rest : Text) → Closed last i (c ∷ rest) → Closed last (suc i) rest
  Closed-next last i c rest h = elim (Bool-cases (leb last i)) [
    | inl below ↦ let q : last - suc i ≡ 0 = omega tests in ap (λ n. all is_closing (take n rest)) q
    | inr above ↦
        let q : suc (last - suc i) ≡ last - i = omega tests in
        all-tail c rest (last - suc i) (ap (λ n. all is_closing (take n (c ∷ rest))) q ∙ h)
  ]

  passed :
      (last i : ℕ) (c : ℕ) (rest : Text)
      → Closed last i (c ∷ rest)
      → is_closing c ≡ false
      → last ≤ i
  passed last i c rest h k = elim (Bool-cases (leb last i)) [
    | inl below ↦ leb→le last i below
    | inr above ↦
        let q : suc (last - suc i) ≡ last - i = omega tests in
        absurd
          (not-all c rest (last - suc i) k (ap (λ n. all is_closing (take n (c ∷ rest))) q ∙ h))
  ]

  Closed-or_last :
      (i : ℕ) (before : Text) (c : ℕ) (rest : Text) (last : ℕ)
      → Closed last i (c ∷ rest)
      → Closed (or_last (boundary chars fences i before c rest) last) (suc i) rest
  Closed-or_last i before c rest last h =
      elim (Option-cases (boundary chars fences i before c rest)) [
        | inl bad ↦ rw bad (Closed-next last i c rest h)
        | inr (e, good) ↦ rw good (boundary_lem i before c rest e good).2
      ]

  -- A scan whose last end is followed by closing marks only gets further.
  last_end-le :
      (i : ℕ) (before rest : Text) (last : ℕ)
      → Closed last i rest
      → last ≤ last_end chars fences i before rest last
  unfolding last_end
  last_end-le i before [] last h = omega arith
  last_end-le i before (c ∷ rest) last h =
      elim (Option-cases (boundary chars fences i before c rest)) [
        | inl bad ↦
            rw (bad, last_end)
              (last_end-le (suc i) (c ∷ before) rest last (Closed-next last i c rest h))
        | inr (e, good) ↦
            let (a, b, d) = boundary_lem i before c rest e good in
            rw (good, last_end)
              (omega
                (arith, passed last i c rest h a, b, last_end-le (suc i) (c ∷ before) rest e d))
      ]

  pub last_end-longest :
      (i : ℕ) (before ps : Text) (c : ℕ) (rest : Text) (last e : ℕ)
      → Closed last i (ps ++ c ∷ rest)
      → boundary chars fences (i + length ps) (onto ps before) c rest ≡ some e
      → e ≤ last_end chars fences i before (ps ++ c ∷ rest) last
  unfolding last_end
  last_end-longest i before [] c rest last e h found =
      let q : i ≡ i + 0 = omega arith in
      let good = ap (λ n. boundary chars fences n before c rest) q ∙ found in
      rw (good, last_end)
        (last_end-le (suc i) (c ∷ before) rest e (boundary_lem i before c rest e good).2)
  last_end-longest i before (d ∷ ps) c rest last e h found =
      let q : suc i + length ps ≡ i + suc (length ps) = omega arith in
      last_end-longest (suc i) (d ∷ before) ps c rest _ e
        (Closed-or_last i before d (ps ++ c ∷ rest) last h)
        (ap (λ n. boundary chars fences n (onto ps (d ∷ before)) c rest) q ∙ found)

  pub last_end-cases :
      (i : ℕ) (before rest : Text) (last : ℕ)
      → (last_end chars fences i before rest last ≡ last)
        ⊎ ((ps : Text) × (c : ℕ) × (after : Text) × (rest ≡ ps ++ c ∷ after)
            × (boundary chars fences (i + length ps) (onto ps before) c after
                ≡ some (last_end chars fences i before rest last)))
  unfolding last_end
  last_end-cases i before [] last = inl refl
  last_end-cases i before (c ∷ rest) last =
      let b = boundary chars fences i before c rest in
      elim (last_end-cases (suc i) (c ∷ before) rest (or_last b last)) [
        | inl same ↦ elim (Option-cases b) [
          | inl bad ↦ inl (same ∙ ap (λ o. or_last o last) bad)
          | inr (e, good) ↦
              let q : i + 0 ≡ i = omega arith in
              inr (
                [],
                c,
                rest,
                refl,
                ap (λ n. boundary chars fences n before c rest) q
                    ∙ good
                    ∙ ap some (sym (same ∙ ap (λ o. or_last o last) good)),
              )
        ]
        | inr (ps, d, after, same, found) ↦
            let q : i + suc (length ps) ≡ suc i + length ps = omega arith in
            inr (
              c ∷ ps,
              d,
              after,
              ap (◌∷◌ c) same,
              ap (λ n. boundary chars fences n (onto ps (c ∷ before)) d after) q ∙ found,
            )
      ]
