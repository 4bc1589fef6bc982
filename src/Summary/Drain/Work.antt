-- ===== src/Summary/Drain/Work.antt =====
-- compactor/summarizer.py: the work that is left to the drain, and what a round takes from it.
use mathlib.Core.Logic.{inl, inr}
use zions_light_ai.Prelude.{
  ℕ, ◌+◌, ◌-◌, ◌*◌, ◌≤◌, ◌<◌, ◌≡◌, ◌⊎◌, refl, ap, Bool, true, false, not, Option, List, [], length,
  arith, tests, leb→le,
}
use zions_light_ai.Summary.{Chunk, State, Config, needs_l1_rollup}
use zions_light_ai.Summary.Drain.{
  Loop, Round, go_on, stop, l3_due, l2_due, after_l3, after_l2, after_l1,
}
use zions_light_ai.Summary.Drain.Units.{Reads, Folds, Themes, Failed}

abbrev pub bit : Bool → ℕ
bit true = 1
bit false = 0

-- what goes down in every round
abbrev pub work_left : ℕ → Loop → ℕ
work_left current l =
    2 * (current - l.state.last_summarized_turn)
    + length l.state.l1
    + (bit (not l.l3_done) + bit (not l.l2_failed))

-- A round goes on with `P` and less work, or stops with `Q`.
abbrev pub Goes : (Loop → Type 0) → (Loop → Type 0) → ℕ → Loop → Round → Type 0
Goes P Q current l (go_on next) = P next × (work_left current next < work_left current l)
Goes P Q current l (stop last) = Q last

pub after_l3-work_left :
    (current : ℕ) (l : Loop) (r : (State × Option (List Chunk)) × Bool)
    → l.l3_done ≡ false
    → Themes l.state r.0.0
    → work_left current (after_l3 r l) < work_left current l
unfolding after_l3
after_l3-work_left current l ((s, sidecar), true) h (w, e) = rw (h, w, e) (omega arith)
after_l3-work_left current l ((s, sidecar), false) h (w, e) = rw (h, w, e) (omega arith)

pub after_l2-work_left :
    (current : ℕ) (l : Loop) (r : State × Bool)
    → l.l2_failed ≡ false
    → Folds l.state r ⊎ Failed l.state r
    → work_left current (after_l2 r l) < work_left current l
unfolding after_l2
after_l2-work_left current l (s, true) h (inl (_, w, less)) = rw w (omega (arith, less))
after_l2-work_left current l (s, false) h (inr (_, e)) = rw (h, e) (omega arith)
after_l2-work_left current l (s, true) h (inr (e, _)) = cc
after_l2-work_left current l (s, false) h (inl (e, _, _)) = cc

pub after_l1-Goes :
    (P Q : Loop → Type 0) (current : ℕ) (l : Loop) (r : State × Bool)
    → l.state.last_summarized_turn < current
    → Reads l.state r ⊎ Failed l.state r
    → (r.1 ≡ true → P (record l { state = r.0; patch = []; changed = true }))
    → (r ≡ (l.state, false) → Q l)
    → Goes P Q current l (after_l1 r l)
unfolding after_l1
after_l1-Goes P Q current l (s, true) h (inl (_, up, few)) p q = (p refl, omega (arith, h, up, few))
after_l1-Goes P Q current l (s, false) h (inr (_, e)) p q = rw e (q (ap (λ x. (x, false)) e))
after_l1-Goes P Q current l (s, true) h (inr (e, _)) p q = cc
after_l1-Goes P Q current l (s, false) h (inl (e, _, _)) p q = cc

pub l3_due-done : (config : Config) (l : Loop) → l3_due config l ≡ true → l.l3_done ≡ false
unfolding l3_due
l3_due-done config l h = ground arith

pub l2_due-failed : (config : Config) (l : Loop) → l2_due config l ≡ true → l.l2_failed ≡ false
unfolding l2_due
l2_due-failed config l h = ground arith

pub needs_l1_rollup-ahead :
    (config : Config) (current : ℕ) (s : State)
    → 1 ≤ config.l1_chunk_size
    → needs_l1_rollup config current s ≡ true
    → s.last_summarized_turn < current
unfolding needs_l1_rollup
needs_l1_rollup-ahead config current s one h = omega (tests, one, leb→le _ current h)

pub after_l3-state :
    (l : Loop) (r : (State × Option (List Chunk)) × Bool) → (after_l3 r l).state ≡ r.0.0
unfolding after_l3
after_l3-state l ((s, sidecar), true) = refl
after_l3-state l ((s, sidecar), false) = refl

pub after_l2-state : (l : Loop) (r : State × Bool) → (after_l2 r l).state ≡ r.0
unfolding after_l2
after_l2-state l (s, true) = refl
after_l2-state l (s, false) = refl
