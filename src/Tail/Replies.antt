-- ===== src/Tail/Replies.antt =====
-- compactor/main.py: what `decide_memory_tail` stores, and when.
use mathlib.Core.Logic.{inl, inr}
use mathlib.Core.List.{append-nil}
use zions_light_ai.Prelude.{
  ℕ, ◌≤◌, ◌<◌, ◌≡◌, refl, Bool, true, false, not, ◌&&◌, [], ◌++◌, length, ltb, leb, if◌then◌else◌,
  tests, arith, Bool-cases, le→leb, lt→not-leb,
}
use zions_light_ai.Prelude.Text.{Text, is_blank}
use zions_light_ai.Sentence.{Chars, trim_to_last_sentence}
use zions_light_ai.Sentence.Longest.{trim_to_last_sentence_longest}
use zions_light_ai.TailHealth.{
  Outcome, stored, stored_trimmed, skipped_holed, skipped_empty, skipped_degenerate,
  skipped_no_boundary, skipped_too_short, skipped_degenerate_partial, is_storing,
}
use zions_light_ai.Tail.{
  TailDecision, decide_memory_tail, decide_cut, skip, min_memorable_trimmed_chars,
}

-- what a decision stores: the whole reply, or its trimmed part, which is a first part that is long
-- enough; and no loop
abbrev pub Stores : (Text → Bool) → Text → Text → Bool → TailDecision → Type 0
Stores is_degenerate text kept whole d =
    (d.text ≡ (if whole then text else kept))
    × ((more : Text) × (d.text ++ more ≡ text))
    × (is_degenerate d.text ≡ false)
    × (if whole then true ≡ true else min_memorable_trimmed_chars ≤ length d.text)

-- the outcome of a trimmed part
abbrev pub CutLabel : Bool → Text → Outcome → Type 0
CutLabel loop kept o =
    (length kept ≡ 0 → o ≡ skipped_no_boundary)
    × (1 ≤ length kept → length kept < min_memorable_trimmed_chars → o ≡ skipped_too_short)
    × (min_memorable_trimmed_chars ≤ length kept
        → o ≡ (if loop then skipped_degenerate_partial else stored_trimmed))

-- the outcome of a reply, by what is wrong with it: a hole first, then that it is blank
abbrev pub Label : (Text → Bool) → Text → Text → Bool → Bool → Outcome → Type 0
Label is_degenerate text kept whole holed o =
    (holed ≡ true → o ≡ skipped_holed)
    × (holed ≡ false → is_blank text ≡ true → o ≡ skipped_empty)
    × (holed ≡ false
        → is_blank text ≡ false
        → whole ≡ true
        → o ≡ (if is_degenerate text then skipped_degenerate else stored))
    × (holed ≡ false → is_blank text ≡ false → whole ≡ false → CutLabel (is_degenerate kept) kept o)

module _ (chars : Chars) (is_degenerate : Text → Bool) where
  abbrev cut_decision : Text → ℕ → TailDecision
  cut_decision = decide_cut chars is_degenerate

  decide_cut-CutLabel :
      (kept : Text) (raw : ℕ) → CutLabel (is_degenerate kept) kept (cut_decision kept raw).outcome
  unfolding decide_cut skip
  decide_cut-CutLabel kept raw = (λ h. ground arith, λ h k. ground arith, λ h. ground arith)

  decide_cut_lem :
      (text kept : Text) (raw : ℕ)
      → ((more : Text) × (kept ++ more ≡ text))
      → let d = cut_decision kept raw in
        (d.store ≡ is_storing d.outcome)
        × (d.store ≡ leb min_memorable_trimmed_chars (length kept) && not (is_degenerate kept))
        × (d.store ≡ false → d.text ≡ [])
        × (d.store ≡ true → Stores is_degenerate text kept false d)
  unfolding decide_cut skip is_storing
  decide_cut_lem text kept raw part = elim (Bool-cases (leb (length kept) 0)) [
    | inl empty ↦
        let q : leb min_memorable_trimmed_chars (length kept) ≡ false =
          lt→not-leb (length kept) min_memorable_trimmed_chars (omega tests) in
        rw (empty, q, decide_cut) (refl, refl, λ e. refl, λ e. cc)
    | inr full ↦ elim (Bool-cases (ltb (length kept) min_memorable_trimmed_chars)) [
      | inl short ↦
          let q : leb min_memorable_trimmed_chars (length kept) ≡ false =
            lt→not-leb (length kept) min_memorable_trimmed_chars (omega tests) in
          rw (full, short, q, decide_cut) (refl, refl, λ e. refl, λ e. cc)
      | inr long ↦
          let q : leb min_memorable_trimmed_chars (length kept) ≡ true =
            le→leb min_memorable_trimmed_chars (length kept) (omega tests) in
          elim (Bool-cases (is_degenerate kept)) [
            | inl loop ↦ rw (full, long, q, loop, decide_cut) (refl, refl, λ e. refl, λ e. cc)
            | inr fine ↦
                rw (full, long, q, fine, decide_cut)
                  (refl, refl, λ e. cc, λ e. (refl, part, fine, omega tests))
          ]
    ]
  ]

  decide_memory_tail-Label :
      (text : Text) (finished truncated holed : Bool)
      → Label is_degenerate text
          (trim_to_last_sentence chars text)
          (finished && not truncated)
          holed
          (decide_memory_tail chars is_degenerate text finished truncated holed).outcome
  unfolding decide_memory_tail skip
  decide_memory_tail-Label text finished truncated holed = (
    λ h. rw (h, decide_memory_tail) refl,
    λ h b. rw (h, b, decide_memory_tail) refl,
    λ h b w. elim (Bool-cases (is_degenerate text)) [
      | inl loop ↦ rw (h, b, w, loop, decide_memory_tail) refl
      | inr fine ↦ rw (h, b, w, fine, decide_memory_tail) refl
    ],
    λ h b w.
        rw (h, b, w, decide_memory_tail)
          (decide_cut-CutLabel (trim_to_last_sentence chars text) (length text)),
  )

  decide_memory_tail-Stores :
      (text : Text) (finished truncated holed : Bool)
      → let d = decide_memory_tail chars is_degenerate text finished truncated holed in
        let kept = trim_to_last_sentence chars text in
        let whole = finished && not truncated in
        (d.store ≡ is_storing d.outcome)
        × (d.store
            ≡ not holed
              && (not (is_blank text)
                  && (if whole
                      then not (is_degenerate text)
                      else leb min_memorable_trimmed_chars (length kept)
                        && not (is_degenerate kept))))
        × (d.store ≡ false → d.text ≡ [])
        × (d.store ≡ true → Stores is_degenerate text kept whole d)
  unfolding decide_memory_tail skip is_storing
  decide_memory_tail-Stores text finished truncated holed = elim (Bool-cases holed) [
    | inl hole ↦ rw (hole, decide_memory_tail) (refl, refl, λ e. refl, λ e. cc)
    | inr no_hole ↦ elim (Bool-cases (is_blank text)) [
      | inl blank ↦ rw (no_hole, blank, decide_memory_tail) (refl, refl, λ e. refl, λ e. cc)
      | inr words ↦ elim (Bool-cases (finished && not truncated)) [
        | inl whole ↦ elim (Bool-cases (is_degenerate text)) [
          | inl loop ↦
              rw (no_hole, words, whole, loop, decide_memory_tail) (refl, refl, λ e. refl, λ e. cc)
          | inr fine ↦
              rw (no_hole, words, whole, fine, decide_memory_tail)
                (refl, refl, λ e. cc, λ e. (refl, ([], append-nil text), fine, refl))
        ]
        | inr cut ↦
            rw (no_hole, words, cut, decide_memory_tail)
              (decide_cut_lem text (trim_to_last_sentence chars text) (length text)
                (trim_to_last_sentence_longest chars text).0)
      ]
    ]
  ]

  -- The store flag agrees with the outcome's label, and nothing but a store has a text. A reply is
  -- stored exactly if it has no hole, is not blank, and is not a loop: judged whole where it is
  -- finished and not truncated, and otherwise by its trimmed part, which must be long enough. What is
  -- stored is the whole reply, or exactly its trimmed part, a first part of it; and is no loop. The
  -- label names what is wrong: a hole before all else, then a blank reply, then a loop; for a cut
  -- reply that its trimmed part is empty, too short or a loop; and else the kind of the store.
  pub decide_memory_tail_lem :
      (text : Text) (finished truncated holed : Bool)
      → let d = decide_memory_tail chars is_degenerate text finished truncated holed in
        let kept = trim_to_last_sentence chars text in
        let whole = finished && not truncated in
        ((d.store ≡ is_storing d.outcome)
          × (d.store
              ≡ not holed
                && (not (is_blank text)
                    && (if whole
                        then not (is_degenerate text)
                        else leb min_memorable_trimmed_chars (length kept)
                          && not (is_degenerate kept))))
          × (d.store ≡ false → d.text ≡ [])
          × (d.store ≡ true → Stores is_degenerate text kept whole d))
        × Label is_degenerate text kept whole holed d.outcome
  decide_memory_tail_lem text finished truncated holed = (
    decide_memory_tail-Stores text finished truncated holed,
    decide_memory_tail-Label text finished truncated holed,
  )
