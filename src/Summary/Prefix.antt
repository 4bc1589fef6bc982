-- ===== src/Summary/Prefix.antt =====
-- compactor/summarizer.py: `_covered_prefix`, how far the chain of chunks reaches from turn 1.
pub mod Spans
pub mod Reach
use zions_light_ai.Prelude.{
  ℕ, ◌+◌, ◌-◌, max, Bool, true, false, not, ◌&&◌, ◌||◌, Option, none, some, List, [], ◌∷◌, ◌++◌,
  leb, ltb, ◌==◌, filter, if◌then◌else◌,
}
use zions_light_ai.Prelude.Sort.{sorted}
use zions_light_ai.Summary.{Chunk, State, themes}

-- the spans that count
unfoldable pub is_span : Chunk → Bool
is_span c = leb 1 c.first_turn && leb c.first_turn c.last_turn

-- the order of pairs, as Python sorts them
unfoldable pub span_before : Chunk → Chunk → Bool
span_before c d =
    ltb c.first_turn d.first_turn || (c.first_turn == d.first_turn && leb c.last_turn d.last_turn)

unfoldable pub reach_from : ℕ → List Chunk → ℕ
reach_from reach [] = reach
reach_from reach (c ∷ cs) =
    let rest = reach_from (if ltb reach c.last_turn then c.last_turn else reach) cs in
    if ltb (reach + 1) c.first_turn then reach else rest

unfoldable pub covered_prefix : State → ℕ
unfolding is_span span_before reach_from sorted themes
covered_prefix s =
    reach_from 0 (sorted span_before (filter is_span (s.l1 ++ (s.l2 ++ themes s.l3))))
