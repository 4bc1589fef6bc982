-- ===== src/Tests/Messages.antt =====
-- A conversation whose recent window would start with the assistant.
use mathlib.Core.Path.{◌≡◌, refl}
use mathlib.Core.Logic.{◌⊎◌}
use mathlib.Core.List.{Perm}
use zions_light_ai.Prelude.{ℕ, ◌≤◌, not, List, [], ◌∷◌, ◌++◌, length, filter}
use zions_light_ai.Tail.{Role, system, user, assistant}
use zions_light_ai.Messages.{
  is_system, is_user, align, or_plain, split_turns, split_messages, slice_point, is_system_role,
  is_user_role,
}
use zions_light_ai.Messages.Split.{UserFirst, split_messages_lem}

abbrev role_of : Role × ℕ → Role
role_of m = m.0

abbrev chat : List (Role × ℕ)
chat = (system, 0) ∷ (user, 1) ∷ (assistant, 2) ∷ (user, 3) ∷ (assistant, 4) ∷ (user, 5) ∷ []

-- The assistant's reply in front of the window is summarized too.
chat_split : split_messages role_of 4 chat ≡ (
  (system, 0) ∷ [],
  ((user, 1) ∷ (assistant, 2) ∷ [], (user, 3) ∷ (assistant, 4) ∷ (user, 5) ∷ []),
)
unfolding split_messages split_turns align or_plain is_system is_user is_system_role is_user_role
    slice_point
chat_split = refl

split_messages_lem_example :
    Perm
      ((split_messages role_of 4 chat).0
        ++ ((split_messages role_of 4 chat).1.0 ++ (split_messages role_of 4 chat).1.1))
      chat
    × ((split_messages role_of 4 chat).1.0 ++ (split_messages role_of 4 chat).1.1
        ≡ filter (λ m. not (is_system role_of m)) chat)
    × (1 ≤ 4 → length (split_messages role_of 4 chat).1.1 ≤ 4)
    × (((split_messages role_of 4 chat).1.0 ≡ [])
        ⊎ UserFirst role_of (split_messages role_of 4 chat).1.1)
split_messages_lem_example = split_messages_lem role_of 4 chat
