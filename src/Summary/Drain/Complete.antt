-- ===== src/Summary/Drain/Complete.antt =====
-- compactor/summarizer.py: a drain that the budget allows, and whose model answers, catches up.
use mathlib.Core.Logic.{inl, inr}
use zions_light_ai.Prelude.{
  ℕ, ◌+◌, ◌-◌, ◌≤◌, ◌<◌, ◌≡◌, refl, ap, sym, ◌∙◌, Bool, true, false, Option, List, [], ◌∷◌, length,
  take, drop, leb, ltb, arith, tests, Bool-cases, length-take, length-drop, leb→le, ltb→lt,
  not-leb→lt, lt→not-leb,
}
use zions_light_ai.Prelude.Text.{Text}
use zions_light_ai.Summary.{Chunk, State, Config, needs_l1_rollup, needs_l2_rollup}
use zions_light_ai.Summary.Rollup.{
  Turn, Piece, Candidate, do_l1_rollup, do_l2_rollup, l1_between, append_l1, fold_l1, turn_slice,
  is_some_text, has_span,
}
use zions_light_ai.Summary.Drain.{
  Loop, Request, l2_due, after_l3, after_l2, l3_unit, l2_unit, drain,
}
use zions_light_ai.Summary.Drain.Ends.{Ends, drain-Ends, step-Goes}
use zions_light_ai.Summary.Drain.Work.{work_left}

append_l1-done :
    (fingerprint : Turn → ℕ) (first last offset : ℕ) (turns : List Turn) (raw : Option (List Turn))
    (patch : List Candidate) (text : Text) (s : State)
    → is_some_text text ≡ true
    → (append_l1 fingerprint first last offset turns raw patch text s).1 ≡ true
unfolding append_l1 is_some_text
append_l1-done fingerprint first last offset turns raw patch [] s h = h
append_l1-done fingerprint first last offset turns raw patch (c ∷ text) s h = refl

l1_between-done :
    (llm : List Piece → Text) (fingerprint : Turn → ℕ) (first last offset : ℕ) (turns : List Turn)
    (raw : Option (List Turn)) (patch : List Candidate) (s : State)
    → ((pieces : List Piece) → is_some_text (llm pieces) ≡ true)
    → offset < first
    → first ≤ last
    → last ≤ offset + length turns
    → (l1_between llm fingerprint first last offset turns raw patch s).1 ≡ true
unfolding l1_between turn_slice
l1_between-done llm fingerprint first last offset turns raw patch s answers h le room =
    let own : leb (length (turn_slice (first - offset) (last - offset) turns)) 0 ≡ false =
      lt→not-leb 0 _ (rw (turn_slice, length-take, length-drop) (omega (arith, h, le, room))) in
    elim (Bool-cases (has_span first last s.l1)) [
      | inl present ↦ rw (own, present, l1_between) refl
      | inr absent ↦
          rw (own, absent, l1_between)
            (append_l1-done fingerprint first last offset turns raw _ _ s (answers _))
    ]

pub do_l1_rollup-done :
    (llm : List Piece → Text) (fingerprint : Turn → ℕ) (config : Config) (turns : List Turn)
    (offset : ℕ) (raw : Option (List Turn)) (patch : List Candidate) (s : State)
    → ((pieces : List Piece) → is_some_text (llm pieces) ≡ true)
    → 1 ≤ config.l1_chunk_size
    → needs_l1_rollup config (offset + length turns) s ≡ true
    → (do_l1_rollup llm fingerprint config turns offset raw patch s).1 ≡ true
unfolding do_l1_rollup needs_l1_rollup
do_l1_rollup-done llm fingerprint config turns offset raw patch s answers one due =
    let last = s.last_summarized_turn + config.l1_chunk_size in
    elim (Bool-cases (leb last offset)) [
      | inl behind ↦ rw (behind, do_l1_rollup) refl
      | inr ahead ↦ elim (Bool-cases (leb (s.last_summarized_turn + 1) offset)) [
        | inl partial ↦
            rw (ahead, partial, do_l1_rollup)
              (l1_between-done llm fingerprint (offset + 1) last offset turns raw patch s answers
                (omega arith) (omega (tests, not-leb→lt last offset ahead))
                (omega (tests, leb→le last (offset + length turns) due)))
        | inr whole ↦
            rw (ahead, whole, do_l1_rollup)
              (l1_between-done llm fingerprint (s.last_summarized_turn + 1) last offset turns raw
                patch s answers
                (omega (tests, not-leb→lt (s.last_summarized_turn + 1) offset whole))
                (omega (tests, one)) (omega (tests, leb→le last (offset + length turns) due)))
      ]
    ]

fold_l1-done :
    (chunks rest : List Chunk) (text : Text) (s : State)
    → is_some_text text ≡ true
    → 1 ≤ length chunks
    → (fold_l1 chunks rest text s).1 ≡ true
unfolding fold_l1 is_some_text
fold_l1-done [] rest text s h le = absurd (omega arith)
fold_l1-done (c ∷ chunks) rest [] s h le = h
fold_l1-done (c ∷ chunks) rest (x ∷ text) s h le = refl

pub do_l2_rollup-done :
    (llm : List Piece → Text) (config : Config) (s : State)
    → ((pieces : List Piece) → is_some_text (llm pieces) ≡ true)
    → 1 ≤ config.l2_chunk_size
    → needs_l2_rollup config s ≡ true
    → (do_l2_rollup llm config s).1 ≡ true
unfolding do_l2_rollup needs_l2_rollup
do_l2_rollup-done llm config s answers one due =
    let enough = leb→le config.l2_chunk_size (length s.l1) due in
    elim (Bool-cases (ltb (length s.l1) config.l2_chunk_size)) [
      | inl few ↦ absurd (omega (tests, enough, ltb→lt _ _ few))
      | inr many ↦
          rw (many, do_l2_rollup)
            (fold_l1-done (take config.l2_chunk_size s.l1) (drop config.l2_chunk_size s.l1) _ s
              (answers _) (omega (arith, one, enough, length-take config.l2_chunk_size s.l1)))
    ]

after_l2-l2_failed :
    (l : Loop) (r : State × Bool)
    → r.1 ≡ true
    → l.l2_failed ≡ false
    → (after_l2 r l).l2_failed ≡ false
unfolding after_l2
after_l2-l2_failed l (s, true) e h = h
after_l2-l2_failed l (s, false) e h = cc

after_l3-l2_failed :
    (l : Loop) (r : (State × Option (List Chunk)) × Bool)
    → l.l2_failed ≡ false
    → (after_l3 r l).l2_failed ≡ false
unfolding after_l3
after_l3-l2_failed l ((s, sidecar), true) h = h
after_l3-l2_failed l ((s, sidecar), false) h = h

l2_due-needs :
    (config : Config) (l : Loop)
    → l.l2_failed ≡ false
    → l2_due config l ≡ needs_l2_rollup config l.state
unfolding l2_due
l2_due-needs config l h = rw h refl

absurd-true {ℓ} : {A : Type ℓ} → true ≡ false → A
absurd-true e = cc

module _ (llm : ℕ → List Piece → Text) (allows writes : ℕ → Bool) (fingerprint : Turn → ℕ)
    (config : Config) (request : Request) where
  -- When the budget allows every unit, the model answers every call, and the request's turns reach to the
  -- conversation's position, the drain ends with no scene and no chapter due, whether or not the
  -- archive accepts the chapters.
  pub drain-caught_up :
      (fuel n : ℕ) (l : Loop)
      → 1 ≤ config.l1_chunk_size
      → 1 ≤ config.l2_chunk_size
      → ((k : ℕ) (pieces : List Piece) → is_some_text (llm k pieces) ≡ true)
      → ((k : ℕ) → allows k ≡ true)
      → request.window_offset + length request.turns ≡ request.current_turns
      → l.l2_failed ≡ false
      → work_left request.current_turns l < fuel
      → Ends
          (λ r.
            (needs_l1_rollup config request.current_turns r.state ≡ false)
            × (needs_l2_rollup config r.state ≡ false))
          (drain llm allows writes fingerprint config request fuel n l)
  unfolding l3_unit l2_unit
  drain-caught_up fuel n l one1 one2 answers free whole working enough =
      drain-Ends llm allows writes fingerprint config request (λ x. x.l2_failed ≡ false) _
        (step-Goes llm allows writes fingerprint config request (λ x. x.l2_failed ≡ false) _ one1
          (λ m x p due. after_l3-l2_failed x _ p)
          (λ m x p due.
            after_l2-l2_failed x _
              (do_l2_rollup-done (llm m) config x.state (answers m) one2
                (sym (l2_due-needs config x p) ∙ due))
              p)
          (λ m x p e. p)
          (λ m x p due e. absurd-true (
            sym (
              do_l1_rollup-done (llm m) fingerprint config request.turns request.window_offset
                request.raw_turns x.patch x.state (answers m) one1 (rw whole due))
            ∙ ap (λ (r : State × Bool). r.1) e))
          (λ m x p e. absurd-true (sym (free m) ∙ e))
          (λ x p a b c. (c, sym (l2_due-needs config x p) ∙ b)))
        fuel n l enough working
