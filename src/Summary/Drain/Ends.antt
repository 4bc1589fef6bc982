-- ===== src/Summary/Drain/Ends.antt =====
-- compactor/summarizer.py: the drain ends, and what it keeps.
use mathlib.Core.Logic.{inl, inr}
use zions_light_ai.Prelude.{
  ℕ, zero, suc, ◌+◌, ◌≤◌, ◌<◌, ◌≡◌, Bool, true, false, Option, none, some, List, [], arith,
  Bool-cases,
}
use zions_light_ai.Prelude.Text.{Text}
use zions_light_ai.Summary.{Config, needs_l1_rollup}
use zions_light_ai.Summary.Rollup.{Turn, Piece, do_l1_rollup}
use zions_light_ai.Summary.Drain.{
  Loop, Round, go_on, stop, Request, l3_due, l2_due, l3_unit, l2_unit, l1_unit, step, drain,
}
use zions_light_ai.Summary.Drain.Units.{do_l1_rollup-Reads, do_l2_rollup-Folds, do_l3_rollup-Themes}
use zions_light_ai.Summary.Drain.Work.{
  work_left, Goes, after_l3-work_left, after_l2-work_left, after_l1-Goes, l3_due-done,
  l2_due-failed, needs_l1_rollup-ahead,
}

-- There is a result, and it has the property.
abbrev pub Ends : (Loop → Type 0) → Option Loop → Type 0
Ends P none = (true ≡ false)
Ends P (some l) = P l

pub Ends-map :
    (P Q : Loop → Type 0) → ((l : Loop) → P l → Q l) → (o : Option Loop) → Ends P o → Ends Q o
Ends-map P Q f none h = h
Ends-map P Q f (some l) h = f l h

module _ (llm : ℕ → List Piece → Text) (allows writes : ℕ → Bool) (fingerprint : Turn → ℕ)
    (config : Config) (request : Request) where
  -- The branches of a round.
  step-cases :
      (P : Round → Type 0) (n : ℕ) (l : Loop)
      → (l3_due config l ≡ true
          → P (go_on (l3_unit llm allows writes fingerprint config request n l)))
      → (l2_due config l ≡ true
          → P (go_on (l2_unit llm allows writes fingerprint config request n l)))
      → (needs_l1_rollup config request.current_turns l.state ≡ true
          → P (l1_unit llm allows writes fingerprint config request n l))
      → (allows n ≡ false → P (stop l))
      → (l3_due config l ≡ false
          → l2_due config l ≡ false
          → needs_l1_rollup config request.current_turns l.state ≡ false
          → P (stop l))
      → P (step llm allows writes fingerprint config request n l)
  unfolding step
  step-cases P n l three two one refused idle = elim (Bool-cases (allows n)) [
    | inl yes_n ↦ elim (Bool-cases (l3_due config l)) [
      | inl a ↦ rw (yes_n, a, step) (three a)
      | inr a ↦ elim (Bool-cases (l2_due config l)) [
        | inl b ↦ rw (yes_n, a, b, step) (two b)
        | inr b ↦ elim (Bool-cases (needs_l1_rollup config request.current_turns l.state)) [
          | inl c ↦ rw (yes_n, a, b, c, step) (one c)
          | inr c ↦ rw (a, b, c, step) (idle a b c)
        ]
      ]
    ]
    | inr no_n ↦ elim (Bool-cases (l3_due config l)) [
      | inl a ↦ rw (no_n, a, step) (refused no_n)
      | inr a ↦ elim (Bool-cases (l2_due config l)) [
        | inl b ↦ rw (no_n, a, b, step) (refused no_n)
        | inr b ↦ elim (Bool-cases (needs_l1_rollup config request.current_turns l.state)) [
          | inl c ↦ rw (no_n, a, b, c, step) (refused no_n)
          | inr c ↦ rw (a, b, c, step) (idle a b c)
        ]
      ]
    ]
  ]

  -- The rule of the loop.
  pub drain-Ends :
      (P Q : Loop → Type 0)
      → ((n : ℕ) (l : Loop)
          → P l
          → Goes P Q request.current_turns l
              (step llm allows writes fingerprint config request n l))
      → (fuel n : ℕ) (l : Loop) → work_left request.current_turns l < fuel
      → P l
      → Ends Q (drain llm allows writes fingerprint config request fuel n l)
  unfolding drain
  drain-Ends P Q keep zero n l h p = absurd (omega arith)
  drain-Ends P Q keep (suc fuel) n l h p =
      round (λ next p' less. drain-Ends P Q keep fuel (n + 1) next (omega (arith, h, less)) p')
        (step llm allows writes fingerprint config request n l) (keep n l p)
    where
      round :
          ((next : Loop)
            → P next
            → work_left request.current_turns next < work_left request.current_turns l
            → Ends Q (drain llm allows writes fingerprint config request fuel (n + 1) next))
          → (r : Round) → Goes P Q request.current_turns l r
          → Ends Q (elim r [
            | go_on next ↦ drain llm allows writes fingerprint config request fuel (n + 1) next
            | stop last ↦ some last
          ])
      round again (go_on next) (p', less) = again next p' less
      round again (stop last) q = q

  -- What the three units keep, and what every stop gives, holds at the end.
  pub step-Goes :
      (P Q : Loop → Type 0)
      → 1 ≤ config.l1_chunk_size
      → ((n : ℕ) (l : Loop)
          → P l
          → l3_due config l ≡ true
          → P (l3_unit llm allows writes fingerprint config request n l))
      → ((n : ℕ) (l : Loop)
          → P l
          → l2_due config l ≡ true
          → P (l2_unit llm allows writes fingerprint config request n l))
      → ((n : ℕ) (l : Loop)
          → P l
          → let r =
              do_l1_rollup
                (llm n)
                fingerprint
                config
                request.turns
                request.window_offset
                request.raw_turns
                l.patch
                l.state in
            r.1 ≡ true → P (record l { state = r.0; patch = []; changed = true }))
      → ((n : ℕ) (l : Loop)
          → P l
          → needs_l1_rollup config request.current_turns l.state ≡ true
          → do_l1_rollup
              (llm n)
              fingerprint
              config
              request.turns
              request.window_offset
              request.raw_turns
              l.patch
              l.state
            ≡ (l.state, false)
          → Q l)
      → ((n : ℕ) (l : Loop) → P l → allows n ≡ false → Q l)
      → ((l : Loop)
          → P l
          → l3_due config l ≡ false
          → l2_due config l ≡ false
          → needs_l1_rollup config request.current_turns l.state ≡ false
          → Q l)
      → (n : ℕ) (l : Loop) → P l
      → Goes P Q request.current_turns l (step llm allows writes fingerprint config request n l)
  unfolding l3_unit l2_unit l1_unit
  step-Goes P Q one keep3 keep2 keep1 fail refused idle n l p =
      step-cases (Goes P Q request.current_turns l) n l
        (λ due. (
          keep3 n l p due,
          after_l3-work_left request.current_turns l _ (l3_due-done config l due)
              (do_l3_rollup-Themes (llm n) config (writes n) l.sidecar l.state),
        ))
        (λ due. (
          keep2 n l p due,
          after_l2-work_left request.current_turns l _ (l2_due-failed config l due)
              (do_l2_rollup-Folds (llm n) config l.state),
        ))
        (λ due.
          after_l1-Goes P Q request.current_turns l _
            (needs_l1_rollup-ahead config request.current_turns l.state one due)
            (do_l1_rollup-Reads (llm n) fingerprint config request.turns request.window_offset
              request.raw_turns l.patch l.state one)
            (keep1 n l p) (fail n l p due))
        (refused n l p) (idle l p)
