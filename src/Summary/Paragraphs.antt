-- ===== src/Summary/Paragraphs.antt =====
-- compactor/summarizer.py: the paragraphs of a summary, which the refresh of the theme hands to the
-- language model one by one.
use zions_light_ai.Prelude.{
  ℕ, ◌+◌, Bool, true, false, not, List, [], ◌∷◌, filter, reverse, ◌==◌, if◌then◌else◌,
}
use zions_light_ai.Prelude.Text.{Text, is_blank}

-- `text.split("\n\n")`, with the part that is open in reverse, and whether a line break waits
unfoldable pub split_paragraphs : Text → Bool → Text → List Text
split_paragraphs part false [] = reverse part ∷ []
split_paragraphs part true [] = reverse (10 ∷ part) ∷ []
split_paragraphs part false (c ∷ t) =
    let broken = split_paragraphs part true t in
    let rest = split_paragraphs (c ∷ part) false t in if c == 10 then broken else rest
split_paragraphs part true (c ∷ t) =
    let next = split_paragraphs [] false t in
    let rest = split_paragraphs (c ∷ 10 ∷ part) false t in
    if c == 10 then reverse part ∷ next else rest

abbrev pub or_whole : Text → List Text → List Text
or_whole text [] = text ∷ []
or_whole text (p ∷ parts) = p ∷ parts

-- the paragraphs that are not blank, or the whole where there is none
unfoldable pub parts_of : Text → List Text
unfolding split_paragraphs is_blank
parts_of text = or_whole text (filter (λ p. not (is_blank p)) (split_paragraphs [] false text))

unfoldable pub numbered : {A : Type 0} → (ℕ → Text → A) → ℕ → List Text → List A
numbered piece i [] = []
numbered piece i (p ∷ parts) = piece i p ∷ numbered piece (i + 1) parts
