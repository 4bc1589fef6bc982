-- ===== src/Facts/Split.antt =====
-- compactor/facts.py: `_lru_split`, which both injection and eviction read. `max_tokens` is a
-- natural number.
pub mod Partition
pub mod Budget
pub mod Walk
pub mod Pins
use zions_light_ai.Prelude.{
  ℕ, zero, suc, ◌+◌, ◌-◌, Bool, true, false, not, List, [], ◌∷◌, length, take, reverse, filter, any,
  ltb, leb, ◌==◌, if◌then◌else◌,
}
use zions_light_ai.Prelude.Sort.{sorted}
use zions_light_ai.Facts.{Fact, fact_bullet_tokens, header_tokens, rendered_cost}

-- the order of `(last_used, added_turn)`
unfoldable pub use_before : Fact → Fact → Bool
use_before f g =
    if f.last_used == g.last_used
    then leb f.added_turn g.added_turn
    else ltb f.last_used g.last_used

-- the order of the key `(bool(pin), last_used, added_turn)`
unfoldable pub lru_before : Fact → Fact → Bool
unfolding use_before
lru_before f g = elim f.pin [
  | false ↦ elim g.pin [ true ↦ true | false ↦ use_before f g ]
  | true ↦ elim g.pin [ true ↦ use_before f g | false ↦ false ]
]

unfoldable pub turn_before : Fact → Fact → Bool
turn_before f g = leb f.added_turn g.added_turn

-- The walk over the facts in the given order: each that still fits is kept.
unfoldable pub fill : ℕ → ℕ → List Fact → List Fact
fill budget running [] = []
fill budget running (f ∷ fs) =
    let fits = leb (running + fact_bullet_tokens f) budget in
    let rest = fill budget (if fits then running + fact_bullet_tokens f else running) fs in
    if fits then f ∷ rest else rest

-- `while kept and cost(kept) > max_tokens: kept.pop()`, on the first `n` of the list
unfoldable pub settle : ℕ → ℕ → List Fact → List Fact
settle max_tokens zero fs = []
settle max_tokens (suc n) fs =
    let rest = settle max_tokens n fs in
    if ltb max_tokens (rendered_cost (take (suc n) fs)) then rest else take (suc n) fs

unfoldable pub is_among : List Fact → Fact → Bool
is_among kept f = any (λ g. g.object == f.object) kept

-- the facts from the most recently used on, pinned ones first
unfoldable pub by_recency : List Fact → List Fact
by_recency facts = reverse (sorted lru_before facts)

unfoldable pub kept_reversed : List Fact → ℕ → List Fact
unfolding by_recency fill settle
kept_reversed facts max_tokens =
    let filled = fill (max_tokens - header_tokens) 0 (by_recency facts) in
    settle max_tokens (length filled) filled

unfoldable pub lru_split : List Fact → ℕ → List Fact × List Fact
unfolding kept_reversed is_among
lru_split [] max_tokens = ([], [])
lru_split (f ∷ fs) max_tokens =
    if ltb max_tokens header_tokens
    then ([], sorted turn_before (f ∷ fs))
    else if leb (rendered_cost (f ∷ fs)) max_tokens
    then (f ∷ fs, [])
    else let kept = kept_reversed (f ∷ fs) max_tokens in
      (sorted turn_before kept, sorted turn_before (filter (λ g. not (is_among kept g)) (f ∷ fs)))
