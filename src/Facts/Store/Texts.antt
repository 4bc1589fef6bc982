-- ===== src/Facts/Store/Texts.antt =====
-- compactor/facts.py: the texts that the active store and the archive hold, under what reads and
-- rewrites them.
use mathlib.Core.Logic.{inl, inr}
use zions_light_ai.Prelude.{
  ℕ, ◌≡◌, refl, ◌∙◌, Bool, true, false, not, ◌||◌, Option, none, some, List, [], ◌∷◌, ◌++◌, map,
  filter, any, Bool-cases, arith,
}
use zions_light_ai.Prelude.Text.{Text, is_blank, same_text, same_text→eq, same_text_comm}
use zions_light_ai.Facts.{Fact}
use zions_light_ai.Facts.Store.{
  Archived, Files, has_text, has_archived_text, archived_among, stamp, is_stale, is_fresh,
  refreshed,
}

abbrev pub is_fact : Text → Fact → Bool
is_fact t f = same_text t f.text

abbrev pub is_archived : Text → Archived → Bool
is_archived t a = same_text t a.fact.text

-- one of the two files has a fact with the text
unfoldable pub in_active : Text → Option (List Fact) → Bool
in_active t none = false
in_active t (some fs) = any (is_fact t) fs

unfoldable pub in_archive : Text → Option (List Archived) → Bool
in_archive t none = false
in_archive t (some xs) = any (is_archived t) xs

unfoldable pub held : Text → Files → Bool
unfolding in_active in_archive
held t s = in_active t s.active || in_archive t s.archive

pub any-append :
    {A : Type 0} (p : A → Bool) (xs ys : List A) → any p (xs ++ ys) ≡ any p xs || any p ys
any-append p [] ys = refl
any-append p (x ∷ xs) ys = ground (arith, any-append p xs ys)

-- A search meets what it looks for on one side of a filter or on the other.
pub any-partition :
    {A : Type 0} (p q : A → Bool) (xs : List A)
    → any p xs ≡ any p (filter q xs) || any p (filter (λ x. not (q x)) xs)
any-partition p q [] = refl
any-partition p q (x ∷ xs) = ground (arith, any-partition p q xs)

-- What is not blank passes the filter of `load_facts` and of `load_archive`.
pub any-load_facts :
    (t : Text) (fs : List Fact)
    → is_blank t ≡ false
    → any (is_fact t) (filter has_text fs) ≡ any (is_fact t) fs
any-load_facts t [] h = refl
any-load_facts t (f ∷ fs) h = elim (Bool-cases (same_text t f.text)) [
  | inl same ↦ ground (arith, any-load_facts t fs h, same_text→eq t f.text same)
  | inr other ↦ ground (arith, any-load_facts t fs h)
]

pub any-load_archive :
    (t : Text) (xs : List Archived)
    → is_blank t ≡ false
    → any (is_archived t) (filter has_archived_text xs) ≡ any (is_archived t) xs
any-load_archive t [] h = refl
any-load_archive t (a ∷ xs) h = elim (Bool-cases (same_text t a.fact.text)) [
  | inl same ↦ ground (arith, any-load_archive t xs h, same_text→eq t a.fact.text same)
  | inr other ↦ ground (arith, any-load_archive t xs h)
]

any-stamp :
    (t : Text) (now : ℕ) (fs : List Fact)
    → any (is_archived t) (map (stamp now) fs) ≡ any (is_fact t) fs
any-stamp t now [] = refl
any-stamp t now (f ∷ fs) = ground (arith, any-stamp t now fs)

among-text :
    (t : Text) (entries : List Fact) (a : Archived)
    → same_text t a.fact.text ≡ true
    → archived_among entries a ≡ any (is_fact t) entries
unfolding archived_among
among-text t [] a h = refl
among-text t (f ∷ fs) a h =
    ground (arith, among-text t fs a h, same_text→eq t a.fact.text h, same_text_comm t f.text)

-- Without the text among the entries, the filter drops no archived fact with it.
any-not_among :
    (t : Text) (entries : List Fact) (xs : List Archived)
    → any (is_fact t) entries ≡ false
    → any (is_archived t) (filter (λ a. not (archived_among entries a)) xs) ≡ any (is_archived t) xs
any-not_among t entries [] h = refl
any-not_among t entries (a ∷ xs) h = elim (Bool-cases (same_text t a.fact.text)) [
  | inl same ↦ ground (arith, any-not_among t entries xs h, among-text t entries a same)
  | inr other ↦ ground (arith, any-not_among t entries xs h)
]

-- The archive keeps every text that it had, and gains those of the entries.
pub any-archived :
    (t : Text) (now : ℕ) (entries : List Fact) (xs : List Archived)
    → any
        (is_archived t)
        (filter (λ a. not (archived_among entries a)) xs ++ map (stamp now) entries)
      ≡ any (is_archived t) xs || any (is_fact t) entries
any-archived t now entries xs =
    any-append (is_archived t) (filter (λ a. not (archived_among entries a)) xs)
      (map (stamp now) entries)
    ∙ ground (arith, any-stamp t now entries, any-not_among t entries xs)

-- A sweep splits the facts: what is not stale is fresh.
pub any-swept :
    (t : Text) (cutoff : ℕ) (fs : List Fact)
    → any (is_fact t) fs
      ≡ any (is_fact t) (filter (is_stale cutoff) fs)
        || any (is_fact t) (filter (is_fresh cutoff) fs)
any-swept t cutoff [] = refl
any-swept t cutoff (f ∷ fs) = ground (arith, any-swept t cutoff fs)

pub any-refreshed :
    (t : Text) (now : ℕ) (xs : List Archived)
    → any (is_fact t) (map (refreshed now) xs) ≡ any (is_archived t) xs
any-refreshed t now [] = refl
any-refreshed t now (a ∷ xs) = ground (arith, any-refreshed t now xs)
