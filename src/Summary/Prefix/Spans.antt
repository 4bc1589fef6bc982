-- ===== src/Summary/Prefix/Spans.antt =====
-- compactor/summarizer.py: the spans that `_covered_prefix` sorts.
use mathlib.Core.Logic.{inl, inr}
use zions_light_ai.Prelude.{
  ℕ, ◌≤◌, ◌≡◌, refl, ap, ◌∙◌, Bool, true, false, ◌&&◌, ◌||◌, List, [], ◌∷◌, leb, filter, any, all,
  arith, Bool-cases, le→leb,
}
use zions_light_ai.Prelude.Sort.{insert, sorted}
use zions_light_ai.Summary.{Chunk}
use zions_light_ai.Summary.Prefix.{is_span, span_before}

-- the chunk's span has the turn
abbrev pub has_turn : ℕ → Chunk → Bool
has_turn u c = is_span c && (leb c.first_turn u && leb u c.last_turn)

-- No later chunk begins earlier.
abbrev pub Ascending : List Chunk → Type 0
Ascending [] = true ≡ true
Ascending (c ∷ cs) = (all (λ d. leb c.first_turn d.first_turn) cs ≡ true) × Ascending cs

any-insert :
    (p : Chunk → Bool) (before : Chunk → Chunk → Bool) (c : Chunk) (cs : List Chunk)
    → any p (insert before c cs) ≡ (p c || any p cs)
unfolding insert
any-insert p before c [] = refl
any-insert p before c (d ∷ ds) = ground (arith, any-insert p before c ds)

pub any-sorted :
    (p : Chunk → Bool) (before : Chunk → Chunk → Bool) (cs : List Chunk)
    → any p (sorted before cs) ≡ any p cs
unfolding sorted
any-sorted p before [] = refl
any-sorted p before (c ∷ cs) =
    any-insert p before c (sorted before cs) ∙ ap (λ b. p c || b) (any-sorted p before cs)

pub any-filter_span :
    (u : ℕ) (cs : List Chunk) → any (has_turn u) (filter is_span cs) ≡ any (has_turn u) cs
any-filter_span u [] = refl
any-filter_span u (c ∷ cs) = ground (arith, any-filter_span u cs)

all-insert :
    (p : Chunk → Bool) (before : Chunk → Chunk → Bool) (c : Chunk) (cs : List Chunk)
    → p c ≡ true
    → all p cs ≡ true
    → all p (insert before c cs) ≡ true
unfolding insert
all-insert p before c [] h k = ground arith
all-insert p before c (d ∷ ds) h k = ground (arith, all-insert p before c ds)

span_before-le : (c d : Chunk) → span_before c d ≡ true → c.first_turn ≤ d.first_turn
unfolding span_before
span_before-le c d h = ground arith

not-span_before-le : (c d : Chunk) → span_before c d ≡ false → d.first_turn ≤ c.first_turn
unfolding span_before
not-span_before-le c d h = ground arith

all-le :
    (c d : Chunk) (ds : List Chunk)
    → c.first_turn ≤ d.first_turn
    → all (λ x. leb d.first_turn x.first_turn) ds ≡ true
    → all (λ x. leb c.first_turn x.first_turn) ds ≡ true
all-le c d [] h k = refl
all-le c d (x ∷ xs) h k = ground (arith, all-le c d xs)

insert-Ascending :
    (c : Chunk) (cs : List Chunk) → Ascending cs → Ascending (insert span_before c cs)
unfolding insert
insert-Ascending c [] t = (refl, refl)
insert-Ascending c (d ∷ ds) (h, t) = elim (Bool-cases (span_before c d)) [
  | inl e ↦
      rw e (ground (arith, span_before-le c d e, all-le c d ds (span_before-le c d e) h), (h, t))
  | inr e ↦ rw e (
    all-insert (λ x. leb d.first_turn x.first_turn) span_before c ds
        (le→leb _ _ (not-span_before-le c d e)) h,
    insert-Ascending c ds t,
  )
]

pub sorted-Ascending : (cs : List Chunk) → Ascending (sorted span_before cs)
unfolding sorted
sorted-Ascending [] = refl
sorted-Ascending (c ∷ cs) = insert-Ascending c (sorted span_before cs) (sorted-Ascending cs)

insert-AllSpans :
    (before : Chunk → Chunk → Bool) (c : Chunk) (cs : List Chunk)
    → all is_span (c ∷ cs) ≡ true
    → all is_span (insert before c cs) ≡ true
insert-AllSpans before c cs h = all-insert is_span before c cs (ground arith) (ground arith)

pub filter-AllSpans : (cs : List Chunk) → all is_span (filter is_span cs) ≡ true
filter-AllSpans [] = refl
filter-AllSpans (c ∷ cs) = ground (arith, filter-AllSpans cs)

pub sorted-AllSpans :
    (before : Chunk → Chunk → Bool) (cs : List Chunk)
    → all is_span cs ≡ true
    → all is_span (sorted before cs) ≡ true
unfolding sorted
sorted-AllSpans before [] h = refl
sorted-AllSpans before (c ∷ cs) h =
    insert-AllSpans before c (sorted before cs) (ground (arith, sorted-AllSpans before cs))
