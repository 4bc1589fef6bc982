-- ===== src/Summary/Plan/Safe.antt =====
-- compactor/summarizer.py: a turn that the plan replaces is in the record that the unbroken chain of
-- chunks backs.
use mathlib.Core.Logic.{inl, inr}
use mathlib.Core.Path.{subst}
use zions_light_ai.Prelude.{
  ℕ, zero, suc, ◌+◌, ◌≤◌, ◌<◌, ◌≡◌, refl, sym, ◌∙◌, Bool, true, false, ◌&&◌, Option, none, some,
  List, [], ◌∷◌, ◌++◌, length, take, any, all, leb, ◌==◌, arith, Bool-cases, length-take, le→leb,
}
use zions_light_ai.Summary.{Extra, State}
use zions_light_ai.Summary.Prefix.{covered_prefix}
use zions_light_ai.Summary.Rollup.{nth}
use zions_light_ai.Summary.Pairing.{Pair, pairing, is_entry}
use zions_light_ai.Summary.Pairing.Anchors.{is_pair, IsOrdered, hits}
use zions_light_ai.Summary.Pairing.Order.{pairing-IsOrdered}
use zions_light_ai.Summary.Plan.{
  Element, extras_at, elements_from, backed, record_sequence, entries_of, is_matched, past_matched,
  unmatched, coverage_plan,
}

-- the element is of the fingerprint, at a position up to `top`
abbrev vouches : ℕ → ℕ → Element → Bool
vouches top fp e = is_entry fp e.entry && leb e.position top

-- The turn's fingerprint is in the part of the record that the chain of chunks backs.
abbrev pub is_vouched : State → Option ℕ → Bool
is_vouched s none = false
is_vouched s (some fp) =
    any (λ e. is_entry fp e.entry && leb e.position (covered_prefix s)) (record_sequence s)

abbrev at_most : ℕ → Element → Bool
at_most top e = leb e.position top

all-append :
    (p : Element → Bool) (xs ys : List Element)
    → all p xs ≡ true
    → all p ys ≡ true
    → all p (xs ++ ys) ≡ true
all-append p [] ys h k = k
all-append p (x ∷ xs) ys h k = ground (arith, all-append p xs ys)

extras_at-at_most :
    (top eff k : ℕ) (rows : List Extra) → k ≤ top → all (at_most top) (extras_at eff k rows) ≡ true
unfolding extras_at
extras_at-at_most top eff k [] h = refl
extras_at-at_most top eff k (r ∷ rows) h = ground (arith, h, extras_at-at_most top eff k rows h)

elements_from-at_most :
    (top eff k : ℕ) (rows : List Extra) (entries : List (Option ℕ))
    → k + length entries ≤ top + 1
    → all (at_most top) (elements_from eff k rows entries) ≡ true
unfolding elements_from
elements_from-at_most top eff k rows [] h = refl
elements_from-at_most top eff k rows (e ∷ entries) h =
    let here : leb k top ≡ true = le→leb k top (omega (arith, h)) in
    let later =
      all-append (at_most top) (extras_at eff k rows) (elements_from eff (k + 1) rows entries)
        (extras_at-at_most top eff k rows (omega (arith, h)))
        (elements_from-at_most top eff (k + 1) rows entries (omega (arith, h))) in
    ground (arith, here, later)

record_sequence-at_most : (s : State) → all (at_most (covered_prefix s)) (record_sequence s) ≡ true
unfolding record_sequence backed
record_sequence-at_most s = elim (Bool-cases (leb (backed s) 0)) [
  | inl empty ↦ rw (empty, record_sequence) refl
  | inr full ↦
      rw (full, record_sequence)
        (all-append (at_most (covered_prefix s)) (extras_at (backed s) 0 s.covered_extra)
          (elements_from (backed s) 1 s.covered_extra (take (backed s) s.covered_fps))
          (extras_at-at_most (covered_prefix s) (backed s) 0 s.covered_extra (omega arith))
          (elements_from-at_most (covered_prefix s) (backed s) 1 s.covered_extra
            (take (backed s) s.covered_fps) (omega (arith, length-take (backed s) s.covered_fps))))
]

any-vouches :
    (top fp k : ℕ) (seq : List Element)
    → all (at_most top) seq ≡ true
    → hits (entries_of seq) fp k ≡ true
    → any (vouches top fp) seq ≡ true
unfolding nth
any-vouches top fp k [] h e = e
any-vouches top fp zero (x ∷ seq) h e = ground (arith, h, e)
any-vouches top fp (suc k) (x ∷ seq) h e =
    let rest = any-vouches top fp k seq (ground (arith, h)) e in ground (arith, rest)

is_pair-is_vouched :
    (s : State) (now : List ℕ) (p : Pair) (o : Option ℕ)
    → nth p.at_now now ≡ o
    → is_pair (entries_of (record_sequence s)) now p ≡ true
    → is_vouched s o ≡ true
is_pair-is_vouched s now p none out h =
    let no : is_pair (entries_of (record_sequence s)) now p ≡ false = rw (out, is_pair) refl in
    sym no ∙ h
is_pair-is_vouched s now p (some fp) here h =
    let same : is_pair (entries_of (record_sequence s)) now p
        ≡ hits (entries_of (record_sequence s)) fp p.at_record =
      rw (here, is_pair, hits) refl in
    any-vouches (covered_prefix s) fp p.at_record (record_sequence s) (record_sequence-at_most s)
      (sym same ∙ h)

matched-is_vouched :
    (s : State) (now : List ℕ) (i k j : ℕ) (pairs : List Pair)
    → IsOrdered (entries_of (record_sequence s)) now i k pairs
    → is_matched j pairs ≡ true
    → is_vouched s (nth j now) ≡ true
matched-is_vouched s now i k j [] h e = cc
matched-is_vouched s now i k j (p ∷ pairs) (same, le, le', t) e =
    elim (Bool-cases (p.at_now == j)) [
      | inl here ↦
          let at : p.at_now ≡ j = ground (arith, here) in
          subst (λ x. is_vouched s (nth x now) ≡ true) at
            (is_pair-is_vouched s now p (nth p.at_now now) refl same)
      | inr later ↦
          matched-is_vouched s now (p.at_now + 1) (p.at_record + 1) j pairs t
            (ground (arith, later, e))
    ]

unmatched_lem :
    (i n j : ℕ) (pairs : List Pair)
    → i ≤ j
    → j < i + n
    → any (λ c. c == j) (unmatched i n pairs) ≡ false
    → is_matched j pairs ≡ true
unfolding unmatched
unmatched_lem i zero j pairs le lt e = absurd (omega arith)
unmatched_lem i (suc n) j pairs le lt e = elim (Bool-cases (i == j)) [
  | inl here ↦ let at : i ≡ j = ground (arith, here) in ground (arith, at, e)
  | inr later ↦
      unmatched_lem (i + 1) n j pairs (ground (arith, later, le)) (omega arith) (ground (arith, e))
]

-- A turn below the plan's `covered` that the plan does not list as changed has its fingerprint in the
-- record, at a position that the unbroken chain of chunks from turn 1 reaches.
pub coverage_plan-is_vouched :
    (s : State) (now : List ℕ) (j : ℕ)
    → j < (coverage_plan s now).covered
    → any (λ c. c == j) (coverage_plan s now).changed ≡ false
    → is_vouched s (nth j now) ≡ true
unfolding coverage_plan
coverage_plan-is_vouched s now j lt e =
    let pairs = pairing (entries_of (record_sequence s)) now in
    matched-is_vouched s now 0 0 j pairs (pairing-IsOrdered (entries_of (record_sequence s)) now)
      (unmatched_lem 0 (past_matched pairs) j pairs (omega arith) (omega (arith, lt)) e)
