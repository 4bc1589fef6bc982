-- ===== src/Facts/Store/Marks.antt =====
-- compactor/facts.py: `set_pinned`, the step behind /pin and /unpin.
use zions_light_ai.Prelude.{
  inl, inr, ◌≡◌, refl, Bool, true, List, [], ◌∷◌, map, all, not, ◌||◌, if◌then◌else◌, arith,
  Bool-cases,
}
use zions_light_ai.Prelude.Text.{Text, contains}
use zions_light_ai.Facts.{Fact}
use zions_light_ai.Facts.Store.{set_pinned}

abbrev pub has_needle : (Text → Text) → Text → Fact → Bool
has_needle lower needle f = contains (lower needle) (lower f.text)

-- The texts stay as they are; every fact with the needle has the pin that was asked for; and a second
-- call changes no fact and counts none.
pub set_pinned_lem :
    (lower : Text → Text) (needle : Text) (pinned : Bool) (fs : List Fact)
    → let r = set_pinned lower needle pinned fs in
      (map (λ f. f.text) r.0 ≡ map (λ f. f.text) fs)
      × (all (λ f. not (has_needle lower needle f) || (if pinned then f.pin else not f.pin)) r.0
          ≡ true)
      × (set_pinned lower needle pinned r.0 ≡ (r.0, 0))
unfolding set_pinned
set_pinned_lem lower needle pinned [] = (refl, refl, refl)
set_pinned_lem lower needle pinned (f ∷ fs) =
    let rest = set_pinned_lem lower needle pinned fs in
    elim (Bool-cases (has_needle lower needle f)) [
      | inl hit ↦ elim (Bool-cases pinned) [
        | inl on ↦ (ground (arith, rest.0), ground (arith, rest.1), ground (arith, rest.2))
        | inr off ↦ (ground (arith, rest.0), ground (arith, rest.1), ground (arith, rest.2))
      ]
      | inr miss ↦ (ground (arith, rest.0), ground (arith, rest.1), ground (arith, rest.2))
    ]
