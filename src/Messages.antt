-- ===== src/Messages.antt =====
-- compactor/main.py: `split_messages`, which says what of a conversation is summarized and what is
-- kept as it is. A message is anything that has a role.
pub mod Split
pub mod Shape
use zions_light_ai.Prelude.{
  ℕ, ◌-◌, Bool, true, false, not, List, [], ◌∷◌, ◌++◌, length, take, drop, filter, leb, ◌==◌,
  if◌then◌else◌,
}
use zions_light_ai.Tail.{Role, system, user}

unfoldable pub is_system_role : Role → Bool
is_system_role system = true
is_system_role _ = false

unfoldable pub is_user_role : Role → Bool
is_user_role user = true
is_user_role _ = false

-- where `[:-n]` ends and `[-n:]` starts: `-0` is 0
unfoldable pub slice_point : ℕ → ℕ → ℕ
slice_point n size = if n == 0 then 0 else size - n

module _ {M : Type 0} (role : M → Role) where
  unfoldable pub is_system : M → Bool
  unfolding is_system_role
  is_system m = is_system_role (role m)

  unfoldable pub is_user : M → Bool
  unfolding is_user_role
  is_user m = is_user_role (role m)

  -- The leading messages of `keep_recent` that are no user's move to the summarized part.
  unfoldable pub align : List M → List M → List M × List M
  unfolding is_user
  align to_summarize [] = (to_summarize, [])
  align to_summarize (m ∷ keep_recent) =
      let rest = align (to_summarize ++ m ∷ []) keep_recent in
      if is_user m then (to_summarize, m ∷ keep_recent) else rest

  -- Where no user's message is left, the plain slices are taken.
  unfoldable pub or_plain : List M → List M → List M × List M → List M × List M
  or_plain plain recent (to_summarize, []) = (plain, recent)
  or_plain plain recent (to_summarize, m ∷ keep_recent) = (to_summarize, m ∷ keep_recent)

  unfoldable pub split_turns : ℕ → List M → List M × List M
  unfolding slice_point align or_plain
  split_turns keep_recent_turns non_system =
      let cut = slice_point keep_recent_turns (length non_system) in
      if leb (length non_system) keep_recent_turns
      then ([], non_system)
      else or_plain (take cut non_system) (drop cut non_system)
          (align (take cut non_system) (drop cut non_system))

  unfoldable pub split_messages : ℕ → List M → List M × (List M × List M)
  unfolding is_system split_turns
  split_messages keep_recent_turns messages = (
    filter is_system messages,
    split_turns keep_recent_turns (filter (λ m. not (is_system m)) messages),
  )
