-- ===== src/Sentence/Longest.antt =====
-- compactor/main.py: `trim_to_last_sentence` cuts at the last boundary, which is also the furthest.
use mathlib.Core.Logic.{inl, inr, ◌⊎◌}
use zions_light_ai.Prelude.{
  ℕ, suc, ◌+◌, ◌≤◌, ◌≡◌, refl, ap, sym, ◌∙◌, Bool, some, List, [], ◌∷◌, ◌++◌, length, take, drop,
  leb, arith, tests, Bool-cases, Option-cases, length-take, length-append, take-append-drop, le→leb,
}
use zions_light_ai.Prelude.Text.{Text}
use zions_light_ai.Sentence.{
  Chars, boundary, match_at, span, is_mark, is_wide_mark, last_end, toggles, split_lines,
  trim_to_last_sentence,
}
use zions_light_ai.Sentence.Scan.{onto, last_end-longest, last_end-cases}

span-le : (p : ℕ → Bool) (rest : Text) → span p rest ≤ length rest
unfolding span
span-le p [] = omega arith
span-le p (c ∷ rest) = ground (arith, span-le p rest)

match_at-le : (c : ℕ) (rest : Text) (m : ℕ) → match_at c rest ≡ some m → m ≤ length rest
unfolding match_at
match_at-le c rest m h = ground (arith, span-le is_mark rest, span-le is_wide_mark rest)

from_zero :
    (chars : Chars) (fences : List ℕ) (n : ℕ) (before : Text) (c : ℕ) (after : Text)
    → boundary chars fences (0 + n) before c after ≡ boundary chars fences n before c after
from_zero chars fences n before c after =
    let q : 0 + n ≡ n = omega arith in ap (λ i. boundary chars fences i before c after) q

boundary-inside :
    (chars : Chars) (fences : List ℕ) (i : ℕ) (before : Text) (c : ℕ) (rest : Text) (e : ℕ)
    → boundary chars fences i before c rest ≡ some e
    → e ≤ suc i + length rest
unfolding boundary
boundary-inside chars fences i before c rest e h = elim (Option-cases (match_at c rest)) [
  | inl bad ↦ ground arith
  | inr (m, found) ↦
      let q : e ≡ suc i + m = ground arith in omega (arith, q, match_at-le c rest m found)
]

-- where the fences of a text start
abbrev pub fences_of : Text → List ℕ
fences_of text = toggles 0 (split_lines text)

-- where the last boundary of a text ends, 0 where there is none
abbrev last_of : Chars → Text → ℕ
last_of chars text = last_end chars (fences_of text) 0 [] text 0

last_of-le : (chars : Chars) (text : Text) → last_of chars text ≤ length text
last_of-le chars text = elim (last_end-cases chars (fences_of text) 0 [] text 0) [
  | inl zero_end ↦ omega (arith, zero_end)
  | inr (ps, c, after, e, found) ↦ omega (
    arith,
    boundary-inside chars (fences_of text) (length ps) (onto ps []) c after (last_of chars text)
        (sym (from_zero chars (fences_of text) (length ps) (onto ps []) c after) ∙ found),
    ap length e,
    length-append ps (c ∷ after),
  )
]

trim-take :
    (chars : Chars) (text : Text)
    → trim_to_last_sentence chars text ≡ take (last_of chars text) text
unfolding trim_to_last_sentence
trim-take chars text = elim (Bool-cases (leb (last_of chars text) 0)) [
  | inl none_found ↦
      let q : 0 ≡ last_of chars text = omega tests in rw none_found (ap (λ n. take n text) q)
  | inr found ↦ rw (found, le→leb (last_of chars text) (length text) (last_of-le chars text)) refl
]

length-trim :
    (chars : Chars) (text : Text) → length (trim_to_last_sentence chars text) ≡ last_of chars text
length-trim chars text = omega (
  arith,
  ap length (trim-take chars text),
  length-take (last_of chars text) text,
  last_of-le chars text,
)

furthest :
    (chars : Chars) (text ps : Text) (c : ℕ) (after : Text) (e : ℕ)
    → text ≡ ps ++ c ∷ after
    → boundary chars (fences_of text) (length ps) (onto ps []) c after ≡ some e
    → e ≤ length (trim_to_last_sentence chars text)
furthest chars text ps c after e split found = omega (
  arith,
  length-trim chars text,
  ap (λ t. last_end chars (fences_of text) 0 [] t 0) split,
  last_end-longest chars (fences_of text) 0 [] ps c after 0 e refl
      (from_zero chars (fences_of text) (length ps) (onto ps []) c after ∙ found),
)

-- The trimmed text is a first part of the text, and is as long as the boundary that it ends at, if
-- it is not empty. No boundary of the text lies further on.
pub trim_to_last_sentence_longest :
    (chars : Chars) (text : Text)
    → let trimmed = trim_to_last_sentence chars text in
      ((more : Text) × (trimmed ++ more ≡ text))
      × ((trimmed ≡ [])
          ⊎ ((ps : Text) × (c : ℕ) × (after : Text) × (text ≡ ps ++ c ∷ after)
              × (boundary chars (fences_of text) (length ps) (onto ps []) c after
                  ≡ some (length trimmed))))
      × ((ps : Text) (c : ℕ) (after : Text) (e : ℕ)
          → text ≡ ps ++ c ∷ after
          → boundary chars (fences_of text) (length ps) (onto ps []) c after ≡ some e
          → e ≤ length trimmed)
trim_to_last_sentence_longest chars text =
    let end = length-trim chars text in
    (
      (
        drop (last_of chars text) text,
        ap (λ t. t ++ drop (last_of chars text) text) (trim-take chars text)
            ∙ take-append-drop (last_of chars text) text,
      ),
      elim (last_end-cases chars (fences_of text) 0 [] text 0) [
        | inl zero_end ↦ inl (trim-take chars text ∙ ap (λ n. take n text) zero_end)
        | inr (ps, c, after, e, found) ↦ inr (
          ps,
          c,
          after,
          e,
          sym (from_zero chars (fences_of text) (length ps) (onto ps []) c after)
              ∙ found
              ∙ ap some (sym end),
        )
      ],
      λ ps c after e split found. furthest chars text ps c after e split found,
    )
