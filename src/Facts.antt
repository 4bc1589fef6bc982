-- ===== src/Facts.antt =====
-- compactor/facts.py: the facts of a conversation, their order, their cost and their rendered block.
-- `object` stands for the identity of the dict, `id(f)`. Turns and times are natural numbers.
pub mod Split
pub mod Select
pub mod Store
use zions_light_ai.Prelude.{
  ℕ, suc, ◌+◌, ◌*◌, ◌-◌, ◌/◌, ◌≤◌, ◌≡◌, refl, ap, Bool, true, false, Option, none, some, List, [],
  ◌∷◌, ◌++◌, length, sum_by, length-append, map, ltb, leb, ◌==◌, if◌then◌else◌, any, arith,
}
use zions_light_ai.Prelude.Text.{Text, codes, join}

pub record Fact : Type 0 where
  pub object : ℕ
  pub text : Text
  pub added_turn : ℕ
  pub last_used : ℕ
  pub pin : Bool

-- `len(text) // 4`
unfoldable pub estimate_tokens : Text → ℕ
estimate_tokens text = length text / 4

unfoldable pub bullet : Fact → Text
bullet f = b'-' ∷ b' ' ∷ f.text

unfoldable pub fact_bullet_tokens : Fact → ℕ
unfolding estimate_tokens bullet
fact_bullet_tokens f = estimate_tokens (bullet f ++ 10 ∷ [])

unfoldable pub facts_block_header : Text
facts_block_header =
    codes
      "[Persistent facts about this conversation — established earlier. Stay accurate to these; the wording is yours.]"

unfoldable pub header_tokens : ℕ
header_tokens = estimate_tokens (facts_block_header ++ 10 ∷ [])

unfoldable pub format_facts_block : List Fact → Option Text
unfolding bullet
format_facts_block [] = none
format_facts_block (f ∷ fs) = some (join (10 ∷ []) (facts_block_header ∷ bullet f ∷ map bullet fs))

-- `_estimate_tokens(block) if block else 0`
unfoldable pub cost_of : Option Text → ℕ
cost_of none = 0
cost_of (some block) = estimate_tokens block

unfoldable pub rendered_cost : List Fact → ℕ
unfolding cost_of
rendered_cost fs = cost_of (format_facts_block fs)

-- what a bullet adds to the block: its line break and its text
abbrev pub line_length : Fact → ℕ
line_length f = length f.text + 3

length-join :
    (h : Text) (fs : List Fact)
    → length (join (10 ∷ []) (h ∷ map bullet fs)) ≡ length h + sum_by line_length fs
unfolding join bullet
length-join h [] = omega arith
length-join h (f ∷ fs) = omega (
  arith,
  length-append h ((10 ∷ []) ++ join (10 ∷ []) (bullet f ∷ map bullet fs)),
  length-join (bullet f) fs,
)

-- The block's cost depends on the facts' lengths alone.
pub rendered_cost_lem :
    (f : Fact) (fs : List Fact)
    → rendered_cost (f ∷ fs) ≡ (length facts_block_header + sum_by line_length (f ∷ fs)) / 4
unfolding rendered_cost format_facts_block estimate_tokens
rendered_cost_lem f fs = rw (length-join facts_block_header (f ∷ fs))

pub rendered_cost-nil : rendered_cost [] ≡ 0
unfolding rendered_cost format_facts_block
rendered_cost-nil = refl

pub fact_bullet_tokens_lem : (f : Fact) → fact_bullet_tokens f ≡ line_length f / 4
unfolding fact_bullet_tokens
fact_bullet_tokens_lem f = rw (length-append (bullet f) (10 ∷ [])) (omega arith)

pub header_tokens_lem : header_tokens ≡ (length facts_block_header + 1) / 4
unfolding header_tokens estimate_tokens
header_tokens_lem = ap (λ (n : ℕ). n / 4) (length-append facts_block_header (10 ∷ []))

pub rendered_cost-le :
    (fs : List Fact) → rendered_cost fs ≤ (length facts_block_header + sum_by line_length fs) / 4
rendered_cost-le [] = rw rendered_cost-nil (omega arith)
rendered_cost-le (f ∷ fs) = omega (arith, rendered_cost_lem f fs)
