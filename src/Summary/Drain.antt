-- ===== src/Summary/Drain.antt =====
-- compactor/summarizer.py: the loop of `_maybe_rollup_body`. What differs from round to round is an
-- argument by the round's number: the model, whether the budget allows a unit
-- (`_budget_allows_unit`), and whether the sidecar can be written. The loop runs on fuel.
pub mod Units
pub mod Work
pub mod Ends
pub mod Kept
pub mod Complete
use zions_light_ai.Prelude.{
  ℕ, zero, suc, ◌+◌, Bool, true, false, not, ◌&&◌, Option, none, some, List, [], if◌then◌else◌,
}
use zions_light_ai.Prelude.Text.{Text}
use zions_light_ai.Summary.{Chunk, State, Config, needs_l1_rollup, needs_l2_rollup, needs_l3_rollup}
use zions_light_ai.Summary.Rollup.{Turn, Piece, Candidate, do_l1_rollup, do_l2_rollup, do_l3_rollup}

-- the loop's variables, with the sidecar file
pub record Loop : Type 0 where
  pub state : State
  pub sidecar : Option (List Chunk)
  pub patch : List Candidate
  pub l3_done : Bool
  pub l3_failed : Bool
  pub l2_failed : Bool
  pub changed : Bool

-- how a round ends: the loop goes on, or `break`
pub data Round : Type 0 where
  go_on stop : Loop → Round

unfoldable pub l3_due : Config → Loop → Bool
unfolding needs_l3_rollup
l3_due config l = not l.l3_done && (not l.l3_failed && needs_l3_rollup config l.state)

unfoldable pub l2_due : Config → Loop → Bool
unfolding needs_l2_rollup
l2_due config l = not l.l2_failed && needs_l2_rollup config l.state

unfoldable pub after_l3 : (State × Option (List Chunk)) × Bool → Loop → Loop
after_l3 ((s, sidecar), true) l = record l {
  state = s;
  sidecar = sidecar;
  l3_done = true;
  changed = true;
}
after_l3 ((s, sidecar), false) l = record l {
  state = s;
  sidecar = sidecar;
  l3_done = true;
  l3_failed = true;
}

unfoldable pub after_l2 : State × Bool → Loop → Loop
after_l2 (s, true) l = record l { state = s; changed = true }
after_l2 (s, false) l = record l { state = s; l2_failed = true }

unfoldable pub after_l1 : State × Bool → Loop → Round
after_l1 (s, true) l = go_on (record l { state = s; patch = []; changed = true })
after_l1 (s, false) l = stop (record l { state = s })

-- A conversation's request, as the loop reads it.
pub record Request : Type 0 where
  pub turns : List Turn
  pub raw_turns : Option (List Turn)
  pub window_offset : ℕ
  pub current_turns : ℕ

module _ (llm : ℕ → List Piece → Text) (allows writes : ℕ → Bool) (fingerprint : Turn → ℕ)
    (config : Config) (request : Request) where
  unfoldable pub l3_unit : ℕ → Loop → Loop
  unfolding after_l3 do_l3_rollup
  l3_unit n l = after_l3 (do_l3_rollup (llm n) config (writes n) l.sidecar l.state) l

  unfoldable pub l2_unit : ℕ → Loop → Loop
  unfolding after_l2 do_l2_rollup
  l2_unit n l = after_l2 (do_l2_rollup (llm n) config l.state) l

  unfoldable pub l1_unit : ℕ → Loop → Round
  unfolding after_l1 do_l1_rollup
  l1_unit n l =
      after_l1
        (do_l1_rollup (llm n) fingerprint config request.turns request.window_offset
          request.raw_turns l.patch l.state)
        l

  unfoldable pub step : ℕ → Loop → Round
  unfolding l3_due l2_due l3_unit l2_unit l1_unit needs_l1_rollup
  step n l =
      if l3_due config l
      then if allows n then go_on (l3_unit n l) else stop l
      else if l2_due config l
      then if allows n then go_on (l2_unit n l) else stop l
      else if needs_l1_rollup config request.current_turns l.state
      then if allows n then l1_unit n l else stop l
      else stop l

  -- Without fuel there is no result.
  unfoldable pub drain : ℕ → ℕ → Loop → Option Loop
  unfolding step
  drain zero n l = none
  drain (suc fuel) n l = elim (step n l) [
    | go_on next ↦ drain fuel (n + 1) next
    | stop last ↦ some last
  ]
