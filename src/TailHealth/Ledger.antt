-- ===== src/TailHealth/Ledger.antt =====
-- compactor/tailhealth.py: the counters agree with each other after any decisions and corrections.
use mathlib.Core.Logic.{◌≢◌, ◌⊎◌, inl, inr}
use zions_light_ai.Prelude.Dict
use zions_light_ai.Prelude.{
  ℕ, ◌+◌, ◌-◌, ◌≤◌, ◌≡◌, refl, Bool-cases, leb, tests, ◌<◌, true, false, Option, List, arith,
}
use zions_light_ai.Prelude.Int.{ℤ}
use zions_light_ai.Prelude.Dict.{put, count, total, total-put, lookup-put}
use zions_light_ai.TailHealth.{
  Outcome, State, stored, stored_trimmed, Outcome-discrete, is_storing, is_empty_skip, init, note,
  note_correction, move,
}

abbrev stored_in : State → ℕ
stored_in s =
    count Outcome-discrete stored s.outcomes + count Outcome-discrete stored_trimmed s.outcomes

pub record IsSound (s : State) : Type 0 where
  pub stored_total : s.stored_count ≡ stored_in s
  pub all_total : s.stored_count + s.skipped ≡ total Outcome-discrete s.outcomes
  pub trimmed_le : s.trimmed_raw_chars ≤ s.raw_chars
  pub skips_le : s.consecutive_skips ≤ s.skipped
  pub empty_le : s.consecutive_empty ≤ s.consecutive_skips

init-IsSound : IsSound init
unfolding init Dict.lookup Outcome-discrete
init-IsSound = record {
  stored_total = refl;
  all_total = refl;
  trimmed_le = omega arith;
  skips_le = omega arith;
  empty_le = omega arith;
}

-- The storing outcomes are two, and no empty reply is one of them.
storing_facts :
    (o : Outcome)
    → ((is_storing o ≡ true) × (is_empty_skip o ≡ false) × ((o ≡ stored) ⊎ (o ≡ stored_trimmed)))
      ⊎ ((is_storing o ≡ false) × (o ≢ stored) × (o ≢ stored_trimmed))
unfolding is_storing is_empty_skip
storing_facts stored = inl (refl, refl, inl refl)
storing_facts stored_trimmed = inl (refl, refl, inr refl)
storing_facts _ = inr (refl, λ e. cc, λ e. cc)

module _ (now : ℕ) (o : Outcome) (raw kept : Option ℤ) (s : State) (h : IsSound s) where
  note-stored_total : (note now o raw kept s).0.stored_count ≡ stored_in (note now o raw kept s).0
  unfolding note
  note-stored_total = ground (
    arith,
    storing_facts o,
    h.stored_total,
    lookup-put Outcome-discrete o stored (count Outcome-discrete o s.outcomes + 1) s.outcomes,
    lookup-put Outcome-discrete o stored_trimmed (count Outcome-discrete o s.outcomes + 1)
        s.outcomes,
  )

  note-IsSound : IsSound (note now o raw kept s).0
  unfolding note
  note-IsSound = record {
    stored_total = note-stored_total;
    all_total =
        ground (
          arith,
          total-put Outcome-discrete o (count Outcome-discrete o s.outcomes + 1) s.outcomes,
        );
    trimmed_le = ground arith;
    skips_le = ground arith;
    empty_le = ground (arith, storing_facts o);
  }

abbrev less_one : Outcome → List (Outcome × ℕ) → List (Outcome × ℕ)
less_one was d = put Outcome-discrete was (count Outcome-discrete was d - 1) d

abbrev after : Outcome → Outcome → List (Outcome × ℕ) → ℕ
after was now d = count Outcome-discrete now (less_one was d) + 1

total-move :
    (was now : Outcome) (d : List (Outcome × ℕ))
    → 0 < count Outcome-discrete was d
    → total Outcome-discrete (move was now d) ≡ total Outcome-discrete d
unfolding move
total-move was now d h = omega (
  arith,
  total-put Outcome-discrete was (count Outcome-discrete was d - 1) d,
  total-put Outcome-discrete now (after was now d) (less_one was d),
)

-- A store that is taken back leaves one store less.
count-move :
    (was now : Outcome) (d : List (Outcome × ℕ))
    → 0 < count Outcome-discrete was d
    → is_storing was ≡ true
    → is_storing now ≡ false
    → count Outcome-discrete stored (move was now d)
        + count Outcome-discrete stored_trimmed (move was now d)
        + 1
      ≡ count Outcome-discrete stored d + count Outcome-discrete stored_trimmed d
unfolding move
count-move was now d h out not_in = ground (
  arith,
  storing_facts was,
  storing_facts now,
  lookup-put Outcome-discrete was stored (count Outcome-discrete was d - 1) d,
  lookup-put Outcome-discrete was stored_trimmed (count Outcome-discrete was d - 1) d,
  lookup-put Outcome-discrete now stored (after was now d) (less_one was d),
  lookup-put Outcome-discrete now stored_trimmed (after was now d) (less_one was d),
)

correction-IsSound :
    (at : ℕ) (was now : Outcome) (s : State)
    → is_storing was ≡ true
    → is_storing now ≡ false
    → IsSound s
    → IsSound (note_correction at was now s)
unfolding note_correction
correction-IsSound at was now s out not_in h =
    elim (Bool-cases (leb (count Outcome-discrete was s.outcomes) 0)) [
      | inl nothing ↦ rw (nothing, note_correction) h
      | inr counted ↦
          let some_counted : 0 < count Outcome-discrete was s.outcomes = omega tests in
          rw (counted, out, not_in, note_correction)
            (record {
              stored_total = omega (arith, count-move was now s.outcomes some_counted out not_in);
              all_total = omega (
                arith,
                count-move was now s.outcomes some_counted out not_in,
                total-move was now s.outcomes some_counted,
              );
              trimmed_le = h.trimmed_le;
              skips_le = omega arith;
              empty_le = omega arith;
            })
    ]

-- A run of the program: decisions are noted, and a store that the pool then sheds is corrected.
pub data Reach : State → Type 0 where
  start : Reach init
  noted :
      {s : State} (now : ℕ) (o : Outcome) (raw kept : Option ℤ)
      → Reach s
      → Reach (note now o raw kept s).0
  corrects :
      {s : State} (at : ℕ) (was now : Outcome)
      → Reach s
      → is_storing was ≡ true
      → is_storing now ≡ false
      → Reach (note_correction at was now s)

-- After any decisions and any corrections of a store into a skip, the stores counted are those
-- filed under the two storing labels, stores and skips add up to all that is filed, no more
-- characters were trimmed from than arrived, and the streak of empty replies is within the streak
-- of skips, which is within the skips.
pub Reach-Ledger-IsSound : {s : State} → Reach s → IsSound s
Reach-Ledger-IsSound start = init-IsSound
Reach-Ledger-IsSound (noted {s} now o raw kept r) =
    note-IsSound now o raw kept s (Reach-Ledger-IsSound r)
Reach-Ledger-IsSound (corrects {s} at was now r out not_in) =
    correction-IsSound at was now s out not_in (Reach-Ledger-IsSound r)
