-- ===== src/Summary/Plan.antt =====
-- compactor/summarizer.py: `_record_sequence`, and the plan of which turns the stored summaries stand
-- for (`_coverage_plan`). The turns enter by their covered fingerprints.
pub mod Safe
use zions_light_ai.Prelude.{
  ℕ, zero, suc, ◌+◌, ◌-◌, min, max, Bool, true, false, not, ◌&&◌, ◌||◌, Option, none, some, List,
  [], ◌∷◌, ◌++◌, length, take, map, filter, any, leb, ltb, ◌==◌, if◌then◌else◌,
}
use zions_light_ai.Summary.{Extra, State}
use zions_light_ai.Summary.Prefix.{covered_prefix}
use zions_light_ai.Summary.Pairing.{Pair, pairing}

-- an element of the sequence, with its covered position
pub record Element : Type 0 where
  pub entry : Option ℕ
  pub position : ℕ

-- the rows that sort after position `k`, of chunks in the chain
unfoldable pub extras_at : ℕ → ℕ → List Extra → List Element
extras_at eff k rows =
    map (λ (e : Extra). record { entry = some e.fp; position = k })
      (filter (λ e. leb e.owner eff && e.after == k) rows)

-- the entries from position `k` on
unfoldable pub elements_from : ℕ → ℕ → List Extra → List (Option ℕ) → List Element
unfolding extras_at
elements_from eff k rows [] = []
elements_from eff k rows (e ∷ entries) =
    record { entry = e; position = k }
    ∷ (extras_at eff k rows ++ elements_from eff (k + 1) rows entries)

-- how many entries the chain backs
unfoldable pub backed : State → ℕ
unfolding covered_prefix
backed s = min (covered_prefix s) (length s.covered_fps)

unfoldable pub record_sequence : State → List Element
unfolding extras_at elements_from backed
record_sequence s =
    let eff = backed s in
    if leb eff 0
    then []
    else extras_at eff 0 s.covered_extra
      ++ elements_from eff 1 s.covered_extra (take eff s.covered_fps)

abbrev pub entries_of : List Element → List (Option ℕ)
entries_of seq = map (λ (e : Element). e.entry) seq

abbrev pub is_matched : ℕ → List Pair → Bool
is_matched j pairs = any (λ p. p.at_now == j) pairs

unfoldable pub past_matched : List Pair → ℕ
past_matched [] = 0
past_matched (p ∷ pairs) = max (p.at_now + 1) (past_matched pairs)

-- the numbers from `j` on that are not matched
unfoldable pub unmatched : ℕ → ℕ → List Pair → List ℕ
unmatched j zero pairs = []
unmatched j (suc n) pairs =
    let rest = unmatched (j + 1) n pairs in if is_matched j pairs then rest else j ∷ rest

-- `covered`, and `changed` as a list
pub record Plan : Type 0 where
  pub covered : ℕ
  pub changed : List ℕ

-- With no sequence, no turns or no pair, the plan is empty.
unfoldable pub coverage_plan : State → List ℕ → Plan
unfolding record_sequence pairing past_matched unmatched
coverage_plan s now =
    let pairs = pairing (entries_of (record_sequence s)) now in
    record { covered = past_matched pairs; changed = unmatched 0 (past_matched pairs) pairs }
