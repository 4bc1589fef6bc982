-- ===== src/Summary/Drain/Kept.antt =====
-- compactor/summarizer.py: the drain ends with the spans of the chunks tiled, and more fuel than the
-- work that is left changes nothing.
use mathlib.Core.Logic.{inl, inr}
use mathlib.Core.Path.{subst}
use zions_light_ai.Prelude.{
  ℕ, zero, suc, ◌+◌, ◌≤◌, ◌<◌, ◌≡◌, ◌⊎◌, refl, ap, sym, Bool, true, some, List, arith,
}
use zions_light_ai.Prelude.Text.{Text}
use zions_light_ai.Summary.{State, Config}
use zions_light_ai.Summary.Rollup.{Turn, Piece, do_l2_rollup, do_l3_rollup}
use zions_light_ai.Summary.Rollup.Tiles.{IsTiled, Exact, Apart}
use zions_light_ai.Summary.Rollup.Tiling.{
  do_l1_rollup-IsTiled, do_l2_rollup-IsTiled, do_l3_rollup-IsTiled,
}
use zions_light_ai.Summary.Drain.{Loop, Round, go_on, stop, Request, l3_unit, l2_unit, step, drain}
use zions_light_ai.Summary.Drain.Units.{
  Reads, Folds, Failed, do_l1_rollup-Reads, do_l2_rollup-Folds, do_l3_rollup-Themes,
}
use zions_light_ai.Summary.Drain.Ends.{Ends, Ends-map, drain-Ends, step-Goes}
use zions_light_ai.Summary.Drain.Work.{work_left, Goes, after_l3-state, after_l2-state}

Reads-le :
    (s : State) (r : State × Bool)
    → Reads s r ⊎ Failed s r
    → s.last_summarized_turn ≤ r.0.last_summarized_turn
Reads-le s r (inl (_, up, _)) = omega (arith, up)
Reads-le s r (inr (_, e)) = omega (arith, ap (λ (x : State). x.last_summarized_turn) e)

Folds-le :
    (s : State) (r : State × Bool)
    → Folds s r ⊎ Failed s r
    → s.last_summarized_turn ≤ r.0.last_summarized_turn
Folds-le s r (inl (_, e, _)) = omega (arith, e)
Folds-le s r (inr (_, e)) = omega (arith, ap (λ (x : State). x.last_summarized_turn) e)

-- the invariant of the loop, from the watermark that it starts at
abbrev TiledFrom : (ℕ → ℕ → Type 0) → ℕ → State → Type 0
TiledFrom G start s = IsTiled G s × (start ≤ s.last_summarized_turn)

module _ (llm : ℕ → List Piece → Text) (allows writes : ℕ → Bool) (fingerprint : Turn → ℕ)
    (config : Config) (request : Request) where
  drain-Tiled :
      (G : ℕ → ℕ → Type 0) (start : ℕ)
      → ((a b : ℕ) → G a b → a < b)
      → ((a : ℕ) → G a (suc a))
      → ((w : ℕ)
          → start ≤ w
          → w < request.window_offset
          → (a : ℕ) → G a (suc w)
          → G a (suc request.window_offset))
      → 1 ≤ config.l1_chunk_size
      → (fuel n : ℕ) (l : Loop) → work_left request.current_turns l < fuel
      → TiledFrom G start l.state
      → Ends
          (λ r. TiledFrom G start r.state)
          (drain llm allows writes fingerprint config request fuel n l)
  unfolding l3_unit l2_unit
  drain-Tiled G start up next jump one =
      drain-Ends llm allows writes fingerprint config request (λ l. TiledFrom G start l.state)
        (λ l. TiledFrom G start l.state)
        (step-Goes llm allows writes fingerprint config request (λ l. TiledFrom G start l.state)
          (λ l. TiledFrom G start l.state) one
          (λ n l (t, le) due.
            subst (TiledFrom G start)
              (sym (after_l3-state l (do_l3_rollup (llm n) config (writes n) l.sidecar l.state)))
              (
                do_l3_rollup-IsTiled G up next (llm n) config (writes n) l.sidecar l.state t,
                omega (arith, le, do_l3_rollup-Themes (llm n) config (writes n) l.sidecar l.state),
              ))
          (λ n l (t, le) due.
            subst (TiledFrom G start) (sym (after_l2-state l (do_l2_rollup (llm n) config l.state)))
              (
                do_l2_rollup-IsTiled G up next (llm n) config l.state t,
                omega (arith, le, Folds-le l.state _ (do_l2_rollup-Folds (llm n) config l.state)),
              ))
          (λ n l (t, le) e. (
            do_l1_rollup-IsTiled G up next (llm n) fingerprint config request.turns
                request.window_offset request.raw_turns l.patch l.state one
                (jump l.state.last_summarized_turn le) t,
            omega (
              arith,
              le,
              Reads-le l.state _ (
                  do_l1_rollup-Reads (llm n) fingerprint config request.turns request.window_offset
                    request.raw_turns l.patch l.state one),
            ),
          ))
          (λ n l p due e. p) (λ n l p e. p) (λ l p a b c. p))

  -- With scenes of one turn at least: from a state whose spans of theme, chapters and scenes cover
  -- every turn up to the watermark once, where the watermark is not before the request's window, the
  -- drain ends, with more fuel than the work left, with spans that cover every turn up to the new
  -- watermark once, whatever the model answers, the budget allows and the archive accepts.
  pub drain-Exact :
      (fuel n : ℕ) (l : Loop)
      → 1 ≤ config.l1_chunk_size
      → request.window_offset ≤ l.state.last_summarized_turn
      → work_left request.current_turns l < fuel
      → IsTiled Exact l.state
      → Ends
          (λ r. IsTiled Exact r.state)
          (drain llm allows writes fingerprint config request fuel n l)
  drain-Exact fuel n l one whole enough t =
      Ends-map _ _ (λ r (t, le). t) (drain llm allows writes fingerprint config request fuel n l)
        (drain-Tiled Exact l.state.last_summarized_turn (λ a b e. omega (arith, e)) (λ a. refl)
          (λ w le h. absurd (omega (arith, whole, le, h))) one fuel n l enough (t, omega arith))

  -- With scenes of one turn at least, and from a state that has them so, the drain ends with the spans
  -- of theme, chapters and scenes in order and apart up to the watermark, also where the request's window begins after it, whatever the model answers, the budget allows and
  -- the archive accepts.
  pub drain-Apart :
      (fuel n : ℕ) (l : Loop)
      → 1 ≤ config.l1_chunk_size
      → work_left request.current_turns l < fuel
      → IsTiled Apart l.state
      → Ends
          (λ r. IsTiled Apart r.state)
          (drain llm allows writes fingerprint config request fuel n l)
  drain-Apart fuel n l one enough t =
      Ends-map _ _ (λ r (t, le). t) (drain llm allows writes fingerprint config request fuel n l)
        (drain-Tiled Apart 0 (λ a b e. e) (λ a. omega arith) (λ w le h a g. omega (arith, h, g)) one
          fuel n l enough (t, omega arith))

  -- With scenes of one turn at least the loop ends: with more fuel than the work left there is a
  -- result, and no other amount of fuel that is enough gives another.
  pub drain-enough :
      (fuel fuel' n : ℕ) (l : Loop)
      → 1 ≤ config.l1_chunk_size
      → work_left request.current_turns l < fuel
      → work_left request.current_turns l < fuel'
      → Ends
          (λ r. drain llm allows writes fingerprint config request fuel' n l ≡ some r)
          (drain llm allows writes fingerprint config request fuel n l)
  unfolding drain
  drain-enough zero fuel' n l one h h' = absurd (omega arith)
  drain-enough (suc fuel) zero n l one h h' = absurd (omega arith)
  drain-enough (suc fuel) (suc fuel') n l one h h' =
      round
        (λ next less.
          drain-enough fuel fuel' (n + 1) next one (omega (arith, h, less))
            (omega (arith, h', less)))
        (step llm allows writes fingerprint config request n l)
        (step-Goes llm allows writes fingerprint config request (λ x. true ≡ true)
          (λ x. true ≡ true) one (λ m x p d. refl) (λ m x p d. refl) (λ m x p e. refl)
          (λ m x p d e. refl) (λ m x p e. refl) (λ x p a b c. refl) n l refl)
    where
      round :
          ((next : Loop)
            → work_left request.current_turns next < work_left request.current_turns l
            → Ends
                (λ r.
                  drain llm allows writes fingerprint config request fuel' (n + 1) next ≡ some r)
                (drain llm allows writes fingerprint config request fuel (n + 1) next))
          → (r : Round) → Goes (λ x. true ≡ true) (λ x. true ≡ true) request.current_turns l r
          → Ends
              (λ x.
                elim r [
                  | go_on next ↦
                      drain llm allows writes fingerprint config request fuel' (n + 1) next
                  | stop last ↦ some last
                ]
                ≡ some x)
              (elim r [
                | go_on next ↦ drain llm allows writes fingerprint config request fuel (n + 1) next
                | stop last ↦ some last
              ])
      round again (go_on next) (p, less) = again next less
      round again (stop last) q = refl
