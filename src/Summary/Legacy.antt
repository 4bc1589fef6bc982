-- ===== src/Summary/Legacy.antt =====
-- compactor/summarizer.py: `_adopt_legacy_record`, which believes a request once for the chunks that
-- recorded no turns, and `_legacy_unread_positions`, the positions that no chunk can have read.
use zions_light_ai.Prelude.{
  ℕ, zero, suc, ◌+◌, ◌-◌, min, max, Bool, true, false, not, ◌&&◌, ◌||◌, Option, none, some, List,
  [], ◌∷◌, ◌++◌, length, drop, map, any, leb, ltb, ◌==◌, if◌then◌else◌,
}
use zions_light_ai.Summary.{Chunk, State, themes, last_chunk, highest_chunk_turn}
use zions_light_ai.Summary.Rollup.{Turn, nth}
use zions_light_ai.Summary.Prefix.{covered_prefix}
use zions_light_ai.Summary.Position.{assumed_new_turns}

-- whether the last of the spans ends at the watermark
unfoldable pub closed_at : ℕ → List Chunk → Bool
unfolding last_chunk
closed_at w [] = false
closed_at w (c ∷ cs) = (last_chunk c cs).last_turn == w

-- positions from the watermark of the file on, where it is below the highest label
unfoldable pub below_labels : ℕ → ℕ → List Chunk → ℕ → Bool
unfolding closed_at
below_labels w highest ordered p =
    (ltb 0 w && ltb w highest)
    && (leb (if closed_at w ordered then w + 1 else w - 1) p && leb p highest)

-- the two positions before a span that starts inside one before it
unfoldable pub before_overlap : ℕ → List Chunk → ℕ → Bool
before_overlap reach [] p = false
before_overlap reach (c ∷ cs) p =
    ((not (reach == 0) && leb c.first_turn reach)
      && (p + 2 == c.first_turn || p + 1 == c.first_turn))
    || before_overlap (max reach c.last_turn) cs p

-- the closing exchange of a span
abbrev pub closes : ℕ → ℕ → Bool
closes p last = leb (last + 1) (p + assumed_new_turns) && leb p last

-- Whether `_legacy_unread_positions` has a position. The watermark is that of the file.
unfoldable pub is_legacy_unread : State → ℕ → ℕ → Bool
unfolding below_labels before_overlap themes highest_chunk_turn
is_legacy_unread s legacy_watermark p =
    let ordered = themes s.l3 ++ (s.l2 ++ s.l1) in
    let highest = highest_chunk_turn s in
    leb 1 p
    && (below_labels legacy_watermark highest ordered p
        || (before_overlap 0 ordered p
            || any (closes p) (map (λ (c : Chunk). c.last_turn) s.l1 ++ highest ∷ [])))

unfoldable pub leading_unknowns : List (Option ℕ) → ℕ
leading_unknowns [] = 0
leading_unknowns (none ∷ entries) = suc (leading_unknowns entries)
leading_unknowns (some fp ∷ entries) = 0

-- how far the record is adopted, 0 where it is not
unfoldable pub adopt_upto : State → ℕ
unfolding leading_unknowns covered_prefix
adopt_upto s =
    let lead = leading_unknowns s.covered_fps in
    if ltb 0 (length s.covered_fps) && lead == 0
    then 0
    else if ltb lead (length s.covered_fps)
    then min (covered_prefix s) lead
    else covered_prefix s

module _ (covered_fp : Turn → ℕ) where
  abbrev fp_if : Bool → Option Turn → Option ℕ
  fp_if true (some t) = some (covered_fp t)
  fp_if _ _ = none

  -- the entry that a position gets
  unfoldable pub adopted_at : State → ℕ → ℕ → List Turn → ℕ → Option ℕ
  unfolding is_legacy_unread nth
  adopted_at s legacy_watermark offset turns p =
      let i = (p - offset) - 1 in
      fp_if
        (leb (offset + 1) p
          && (not (is_legacy_unread s legacy_watermark p)
              && not (is_legacy_unread s legacy_watermark (i + 1))))
        (nth i turns)

  -- the entries of `n` positions from `p` on
  unfoldable pub adopted_from : State → ℕ → ℕ → List Turn → ℕ → ℕ → List (Option ℕ)
  unfolding adopted_at
  adopted_from s w offset turns p zero = []
  adopted_from s w offset turns p (suc n) =
      adopted_at s w offset turns p ∷ adopted_from s w offset turns (p + 1) n

  unfoldable pub adopt_legacy_record : State → List Turn → ℕ → ℕ → State × Bool
  unfolding adopt_upto adopted_from
  adopt_legacy_record s request_turns window_offset legacy_watermark =
      let upto = adopt_upto s in
      if s.legacy_adopted || (leb (length request_turns) 0 || leb upto 0) then (s, false) else (
        record s {
          covered_fps =
              adopted_from s legacy_watermark window_offset request_turns 1 upto
              ++ drop upto s.covered_fps;
          legacy_adopted = true;
        },
        true,
      )
