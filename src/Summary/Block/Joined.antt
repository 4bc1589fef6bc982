-- ===== src/Summary/Block/Joined.antt =====
-- compactor/summarizer.py: the text of `format_summary_block` against its budget. The budget is spent
-- line by line; the text joins the lines with line breaks.
use mathlib.Core.Logic.{inl, inr}
use mathlib.Core.Path.{subst}
use zions_light_ai.Prelude.{
  ℕ, ◌+◌, ◌*◌, ◌/◌, ◌≤◌, ◌≡◌, ◌⊎◌, refl, sym, ◌∙◌, ap, Bool, true, false, not, Option, none, some,
  List, [], ◌∷◌, ◌++◌, length, filter, sum_by, ltb, arith, Option-cases, length-append,
  filter-append, sum_by-append, if◌then◌else◌,
}
use zions_light_ai.Prelude.Text.{Text, join}
use zions_light_ai.Summary.{State}
use zions_light_ai.Summary.Block.{
  block_header, estimate_block_tokens, budget_of, summary_lines, format_summary_block, utf8_size,
}
use zions_light_ai.Summary.Block.Fits.{all_lines, summary_lines_fit, summary_lines_header}

-- The parts of a quotient are at most a quotient short each.
quarter_le : (a b : ℕ) → (a + (1 + b)) / 4 ≤ a / 4 + b / 4 + 1
quarter_le a b = omega arith

five_quarters_le : (a b : ℕ) → (a + b) * 5 / 4 ≤ a * 5 / 4 + b * 5 / 4 + 1
five_quarters_le a b = omega arith

percent_le : (a b : ℕ) → (a + b) * 105 / 100 ≤ a * 105 / 100 + b * 105 / 100 + 1
percent_le a b = omega arith

filter-newline :
    (p : ℕ → Bool) (x y : Text) (b : Bool)
    → p 10 ≡ b
    → filter p (x ++ 10 ∷ y) ≡ filter p x ++ (if b then 10 ∷ filter p y else filter p y)
filter-newline p x y b e = filter-append p x (10 ∷ y) ∙ rw e refl

-- the three parts of the estimate without a tokenizer
abbrev wide : Text → Text
wide t = filter (λ c. not (ltb c 128)) t

abbrev ascii_size : Text → ℕ
ascii_size t = length (filter (λ c. ltb c 128) t)

abbrev letters_size : (ℕ → Bool) → Text → ℕ
letters_size p t = length (filter p (wide t))

abbrev others_size : (ℕ → Bool) → Text → ℕ
others_size p t = sum_by utf8_size (filter (λ c. not (p c)) (wide t))

ascii_size-newline : (x y : Text) → ascii_size (x ++ 10 ∷ y) ≡ ascii_size x + (1 + ascii_size y)
ascii_size-newline x y =
    ap length (filter-newline (λ c. ltb c 128) x y true refl)
    ∙ omega (arith, length-append (filter (λ c. ltb c 128) x) (10 ∷ filter (λ c. ltb c 128) y))

wide-newline : (x y : Text) → wide (x ++ 10 ∷ y) ≡ wide x ++ wide y
wide-newline x y = filter-newline (λ c. not (ltb c 128)) x y false refl

letters_size-newline :
    (p : ℕ → Bool) (x y : Text) → letters_size p (x ++ 10 ∷ y) ≡ letters_size p x + letters_size p y
letters_size-newline p x y =
    ap (λ t. length (filter p t)) (wide-newline x y)
    ∙ ap length (filter-append p (wide x) (wide y))
    ∙ length-append (filter p (wide x)) (filter p (wide y))

others_size-newline :
    (p : ℕ → Bool) (x y : Text) → others_size p (x ++ 10 ∷ y) ≡ others_size p x + others_size p y
others_size-newline p x y =
    ap (λ t. sum_by utf8_size (filter (λ c. not (p c)) t)) (wide-newline x y)
    ∙ ap (sum_by utf8_size) (filter-append (λ c. not (p c)) (wide x) (wide y))
    ∙ sum_by-append utf8_size (filter (λ c. not (p c)) (wide x)) (filter (λ c. not (p c)) (wide y))

cons-same : {h : Text} {xs ys : List Text} → (h ∷ xs) ≡ (h ∷ ys) → xs ≡ ys
cons-same e = cc

module _ (is_letter_or_mark : ℕ → Bool) (exact : Text → Option ℕ) (decimal : ℕ → Text) where
  abbrev estimate : Text → ℕ
  estimate = estimate_block_tokens is_letter_or_mark exact decimal

  -- Without a tokenizer, two lines joined cost two more at most than they do apart.
  estimate-newline :
      (x y : Text)
      → ((t : Text) → exact t ≡ none)
      → estimate (x ++ 10 ∷ y) ≤ estimate x + estimate y + 2
  unfolding estimate_block_tokens
  estimate-newline x y quiet =
      let a = ascii_size-newline x y in
      let l = letters_size-newline is_letter_or_mark x y in
      let o = others_size-newline is_letter_or_mark x y in
      rw (quiet (x ++ 10 ∷ y), quiet x, quiet y, a, l, o)
        (omega (
          arith,
          quarter_le (ascii_size x) (ascii_size y),
          five_quarters_le (letters_size is_letter_or_mark x) (letters_size is_letter_or_mark y),
          percent_le (others_size is_letter_or_mark x) (others_size is_letter_or_mark y),
        ))

  estimate-join :
      (l : Text) (ls : List Text)
      → ((t : Text) → exact t ≡ none)
      → estimate (join (10 ∷ []) (l ∷ ls)) ≤ sum_by estimate (l ∷ ls) + 2 * length ls
  unfolding join
  estimate-join l [] quiet = omega arith
  estimate-join l (m ∷ ls) quiet =
      omega (arith, estimate-newline l (join (10 ∷ []) (m ∷ ls)) quiet, estimate-join m ls quiet)

  -- what a block that is given for a budget is: its lines joined, which cost the budget at most
  abbrev pub Fits : ℕ → Bool → State → Text → Type 0
  Fits budget all_or_nothing s t =
      (ls : List Text) × (t ≡ join (10 ∷ []) (block_header ∷ ls))
      × (sum_by estimate (block_header ∷ ls) ≤ budget)
      × ((all_or_nothing ≡ false) ⊎ (ls ≡ all_lines is_letter_or_mark exact decimal s))
      × (((t' : Text) → exact t' ≡ none) → estimate t ≤ budget + 2 * length ls)

  lines-Fits :
      (budget : ℕ) (all_or_nothing : Bool) (s : State) (ls : List Text)
      → summary_lines is_letter_or_mark exact decimal budget all_or_nothing s ≡ some ls
      → Fits budget all_or_nothing s (join (10 ∷ []) ls)
  lines-Fits budget all_or_nothing s ls e =
      let (le, whole) =
        summary_lines_fit is_letter_or_mark exact decimal budget all_or_nothing s ls e in
      let (tiers, same) =
        summary_lines_header is_letter_or_mark exact decimal budget all_or_nothing s ls e in
      let quiet_le =
        λ (quiet : (t : Text) → exact t ≡ none). estimate-join block_header tiers quiet in
      (
        tiers,
        ap (join (10 ∷ [])) same,
        subst (λ u. sum_by estimate u ≤ budget) same le,
        elim whole [ inl part ↦ inl part | inr all ↦ inr (cons-same (sym same ∙ all)) ],
        λ quiet. omega (
          arith,
          quiet_le quiet,
          le,
          ap (sum_by estimate) same,
          ap (λ u. estimate (join (10 ∷ []) u)) same,
        ),
      )

  -- A block that is given is the header and the lines of what is kept, joined by line breaks, where
  -- the estimates of these lines add up to the budget at most: the smaller of the cap and what the
  -- caller allows. One that is asked for as a whole has every tier's lines, the theme's before the
  -- chapters' before the scenes'. The estimate of the joined text may be above the budget: where the
  -- tokenizer does not answer, by two at most for each line after the header.
  pub format_summary_block-Fits :
      (cap : ℕ) (max_tokens : Option ℕ) (all_or_nothing : Bool) (s : State) (t : Text)
      → format_summary_block is_letter_or_mark exact decimal cap s max_tokens all_or_nothing
        ≡ some t
      → Fits (budget_of is_letter_or_mark exact decimal cap max_tokens) all_or_nothing s t
  unfolding format_summary_block
  format_summary_block-Fits cap max_tokens all_or_nothing s t e =
      let budget = budget_of is_letter_or_mark exact decimal cap max_tokens in
      elim (Option-cases (summary_lines is_letter_or_mark exact decimal budget all_or_nothing s)) [
        | inl nothing ↦
            let absent : format_summary_block is_letter_or_mark exact decimal cap s max_tokens
                  all_or_nothing
                ≡ none =
              rw (nothing, format_summary_block) refl in
            cc
        | inr (ls, given) ↦
            let same : join (10 ∷ []) ls ≡ t =
              let present : format_summary_block is_letter_or_mark exact decimal cap s max_tokens
                    all_or_nothing
                  ≡ some (join (10 ∷ []) ls) =
                rw (given, format_summary_block) refl in
              cc in
            subst (λ u. Fits budget all_or_nothing s u) same
              (lines-Fits budget all_or_nothing s ls given)
      ]
