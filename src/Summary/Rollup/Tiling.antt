-- ===== src/Summary/Rollup/Tiling.antt =====
-- compactor/summarizer.py: the spans of the chunks, from the theme over the chapters to the scenes,
-- follow each other up to the watermark, under every rollup.
use mathlib.Core.List.{append_assoc}
use mathlib.Core.Logic.{inl, inr}
use mathlib.Core.Path.{subst}
use zions_light_ai.Prelude.{
  ℕ, suc, ◌+◌, ◌-◌, ◌≤◌, ◌<◌, ◌≡◌, refl, ap, sym, ◌∙◌, Bool, Option, none, some, List, [], ◌∷◌,
  ◌++◌, length, take, drop, leb, ltb, arith, tests, Bool-cases, take-append-drop, leb→le,
  not-leb→lt,
}
use zions_light_ai.Prelude.Text.{Text}
use zions_light_ai.Summary.{Chunk, State, Config, themes, last_chunk}
use zions_light_ai.Summary.Rollup.Tiles.{
  Tiles, IsTiled, all_chunks, Tiles-replace, Tiles-merge, Tiles-scene, Tiles-advance,
  Tiles-has_span_after,
}
use zions_light_ai.Summary.Rollup.{
  Turn, Piece, Candidate, append_l1, l1_between, do_l1_rollup, fold_l1, do_l2_rollup, refresh_l3,
  refresh_of, do_l3_rollup, archive_chapters, first_of, turn_slice,
}

module _ (G : ℕ → ℕ → Type 0) where
  append_l1-IsTiled :
      (fingerprint : Turn → ℕ) (first last offset : ℕ) (turns : List Turn)
      (raw : Option (List Turn)) (patch : List Candidate) (text : Text) (s : State)
      → ((a : ℕ) → G a (suc s.last_summarized_turn) → G a first)
      → first ≤ last
      → G last (suc last)
      → IsTiled G s
      → IsTiled G (append_l1 fingerprint first last offset turns raw patch text s).0
  unfolding append_l1
  append_l1-IsTiled fingerprint first last offset turns raw patch [] s f h g t = t
  append_l1-IsTiled fingerprint first last offset turns raw patch (c ∷ text) s f h g t =
      let chunk : Chunk = record { text = c ∷ text; first_turn = first; last_turn = last } in
      let e : all_chunks s ++ chunk ∷ [] ≡ themes s.l3 ++ (s.l2 ++ (s.l1 ++ chunk ∷ [])) =
        append_assoc (themes s.l3) (s.l2 ++ s.l1) (chunk ∷ [])
        ∙ ap (λ l. themes s.l3 ++ l) (append_assoc s.l2 s.l1 (chunk ∷ [])) in
      subst (λ l. Tiles G 0 l last) e
        (Tiles-scene G (all_chunks s) chunk 0 s.last_summarized_turn f h g t)

  l1_between-IsTiled :
      (llm : List Piece → Text) (fingerprint : Turn → ℕ) (first last offset : ℕ) (turns : List Turn)
      (raw : Option (List Turn)) (patch : List Candidate) (s : State)
      → ((a b : ℕ) → G a b → a < b)
      → ((a : ℕ) → G a (suc s.last_summarized_turn) → G a first)
      → s.last_summarized_turn < last
      → first ≤ last
      → G last (suc last)
      → IsTiled G s
      → IsTiled G (l1_between llm fingerprint first last offset turns raw patch s).0
  unfolding l1_between
  l1_between-IsTiled llm fingerprint first last offset turns raw patch s up f d h g t =
      let before : Tiles G 0 ((themes s.l3 ++ s.l2) ++ s.l1) s.last_summarized_turn =
        subst (λ l. Tiles G 0 l s.last_summarized_turn) (sym (append_assoc (themes s.l3) s.l2 s.l1))
          t in
      let new =
        Tiles-has_span_after G up (themes s.l3 ++ s.l2) s.l1 0 s.last_summarized_turn first last d
          before in
      elim (Bool-cases (leb (length (turn_slice (first - offset) (last - offset) turns)) 0)) [
        | inl nothing ↦ rw (nothing, l1_between) t
        | inr some_turns ↦
            rw (some_turns, new, l1_between)
              (append_l1-IsTiled fingerprint first last offset turns raw _ _ s f h g t)
      ]

  fold_l1-IsTiled :
      (chunks rest : List Chunk) (text : Text) (s : State)
      → ((a b : ℕ) → G a b → a < b)
      → chunks ++ rest ≡ s.l1
      → IsTiled G s
      → IsTiled G (fold_l1 chunks rest text s).0
  unfolding fold_l1
  fold_l1-IsTiled [] rest text s up e t = t
  fold_l1-IsTiled (c ∷ chunks) rest [] s up e t = t
  fold_l1-IsTiled (c ∷ chunks) rest (x ∷ text) s up e t =
      let merged : Chunk = record {
        text = x ∷ text;
        first_turn = c.first_turn;
        last_turn = (last_chunk c chunks).last_turn;
      } in
      let before : Tiles G 0 ((themes s.l3 ++ s.l2) ++ (c ∷ chunks ++ rest))
          s.last_summarized_turn =
        subst (λ l. Tiles G 0 l s.last_summarized_turn)
          (ap (λ l. themes s.l3 ++ (s.l2 ++ l)) (sym e)
            ∙ sym (append_assoc (themes s.l3) s.l2 (c ∷ chunks ++ rest)))
          t in
      let joined : (themes s.l3 ++ s.l2) ++ merged ∷ rest
          ≡ themes s.l3 ++ ((s.l2 ++ merged ∷ []) ++ rest) =
        append_assoc (themes s.l3) s.l2 (merged ∷ rest)
        ∙ ap (λ l. themes s.l3 ++ l) (sym (append_assoc s.l2 (merged ∷ []) rest)) in
      subst (λ l. Tiles G 0 l s.last_summarized_turn) joined
        (Tiles-replace G (themes s.l3 ++ s.l2) (c ∷ chunks ++ rest) (merged ∷ rest) 0
          s.last_summarized_turn s.last_summarized_turn
          (λ a u. Tiles-merge G up c chunks rest a s.last_summarized_turn u) before)

  refreshed-Tiles :
      ((a b : ℕ) → G a b → a < b)
      → (l3 : Option Chunk) (c : Chunk) (l2 l1 : List Chunk) (text : Text) (hi : ℕ)
      → Tiles G 0 (themes l3 ++ ((c ∷ l2) ++ l1)) hi
      → Tiles G 0
          (record {
            text = text;
            first_turn = first_of l3 c;
            last_turn = (last_chunk c l2).last_turn;
          }
            ∷ l1)
          hi
  unfolding themes first_of last_chunk
  refreshed-Tiles up none c l2 l1 text hi t = Tiles-merge G up c l2 l1 0 hi t
  refreshed-Tiles up (some prior) c l2 l1 text hi t = Tiles-merge G up prior (c ∷ l2) l1 0 hi t

  refresh_l3-IsTiled :
      (written : Bool) (sidecar : Option (List Chunk)) (c : Chunk) (l2 : List Chunk) (text : Text)
      (s : State)
      → ((a b : ℕ) → G a b → a < b)
      → c ∷ l2 ≡ s.l2
      → IsTiled G s
      → IsTiled G (refresh_l3 written sidecar c l2 text s).0.0
  unfolding refresh_l3 themes
  refresh_l3-IsTiled written sidecar c l2 [] s up e t = t
  refresh_l3-IsTiled written sidecar c l2 (x ∷ text) s up e t =
      elim (Bool-cases (archive_chapters written (c ∷ l2) sidecar).1) [
        | inl archived ↦
            rw (archived, refresh_l3)
              (refreshed-Tiles up s.l3 c l2 s.l1 (x ∷ text) s.last_summarized_turn (
                subst (λ l. Tiles G 0 (themes s.l3 ++ (l ++ s.l1)) s.last_summarized_turn) (sym e)
                  t))
        | inr failed ↦ rw (failed, refresh_l3) t
      ]

  module _ (up : (a b : ℕ) → G a b → a < b) (next : (a : ℕ) → G a (suc a)) where
    pub do_l1_rollup-IsTiled :
        (llm : List Piece → Text) (fingerprint : Turn → ℕ) (config : Config) (turns : List Turn)
        (offset : ℕ) (raw : Option (List Turn)) (patch : List Candidate) (s : State)
        → 1 ≤ config.l1_chunk_size
        → (s.last_summarized_turn < offset
            → (a : ℕ) → G a (suc s.last_summarized_turn)
            → G a (suc offset))
        → IsTiled G s
        → IsTiled G (do_l1_rollup llm fingerprint config turns offset raw patch s).0
    unfolding do_l1_rollup
    do_l1_rollup-IsTiled llm fingerprint config turns offset raw patch s one jump t =
        let last = s.last_summarized_turn + config.l1_chunk_size in
        let plus_one : suc offset ≡ offset + 1 = omega arith in
        let next_turn : suc s.last_summarized_turn ≡ s.last_summarized_turn + 1 = omega arith in
        elim (Bool-cases (leb last offset)) [
          | inl behind ↦
              rw (behind, do_l1_rollup)
                (Tiles-advance G (all_chunks s) 0 s.last_summarized_turn offset
                  (jump (omega (tests, leb→le last offset behind))) t)
          | inr ahead ↦ elim (Bool-cases (leb (s.last_summarized_turn + 1) offset)) [
            | inl partial ↦
                rw (ahead, partial, do_l1_rollup)
                  (l1_between-IsTiled llm fingerprint (offset + 1) last offset turns raw patch s up
                    (λ a g.
                      subst (λ x. G a x) plus_one
                        (jump (omega (tests, leb→le (s.last_summarized_turn + 1) offset partial)) a
                          g))
                    (omega tests) (omega (tests, not-leb→lt last offset ahead)) (next last) t)
            | inr whole ↦
                rw (ahead, whole, do_l1_rollup)
                  (l1_between-IsTiled llm fingerprint (s.last_summarized_turn + 1) last offset turns
                    raw patch s up (λ a g. subst (λ x. G a x) next_turn g) (omega tests)
                    (omega tests) (next last) t)
          ]
        ]

    pub do_l2_rollup-IsTiled :
        (llm : List Piece → Text) (config : Config) (s : State)
        → IsTiled G s
        → IsTiled G (do_l2_rollup llm config s).0
    unfolding do_l2_rollup
    do_l2_rollup-IsTiled llm config s t =
        elim (Bool-cases (ltb (length s.l1) config.l2_chunk_size)) [
          | inl few ↦ rw (few, do_l2_rollup) t
          | inr enough ↦
              rw (enough, do_l2_rollup)
                (fold_l1-IsTiled (take config.l2_chunk_size s.l1) (drop config.l2_chunk_size s.l1) _
                  s up (take-append-drop config.l2_chunk_size s.l1) t)
        ]

    refresh_of-IsTiled :
        (llm : List Piece → Text) (written : Bool) (sidecar : Option (List Chunk)) (l2 : List Chunk)
        (s : State)
        → l2 ≡ s.l2
        → IsTiled G s
        → IsTiled G (refresh_of llm written sidecar l2 s).0.0
    unfolding refresh_of
    refresh_of-IsTiled llm written sidecar [] s e t = t
    refresh_of-IsTiled llm written sidecar (c ∷ l2) s e t =
        refresh_l3-IsTiled written sidecar c l2 _ s up e t

    pub do_l3_rollup-IsTiled :
        (llm : List Piece → Text) (config : Config) (written : Bool) (sidecar : Option (List Chunk))
        (s : State)
        → IsTiled G s
        → IsTiled G (do_l3_rollup llm config written sidecar s).0.0
    unfolding do_l3_rollup
    do_l3_rollup-IsTiled llm config written sidecar s t =
        elim (Bool-cases (ltb (length s.l2) config.l3_chunk_size)) [
          | inl few ↦ rw (few, do_l3_rollup) t
          | inr enough ↦
              rw (enough, do_l3_rollup) (refresh_of-IsTiled llm written sidecar s.l2 s refl t)
        ]
