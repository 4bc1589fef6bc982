-- ===== src/Messages/Split.antt =====
-- compactor/main.py: `split_messages` loses no message, keeps few, and cuts at a user's message.
use mathlib.Core.List.{Perm, append_assoc}
use mathlib.Core.Logic.{inl, inr, ◌⊎◌}
use mathlib.Core.Path.{subst}
use zions_light_ai.Prelude.{
  ℕ, ◌-◌, ◌≤◌, ◌≡◌, refl, sym, ◌∙◌, true, not, List, [], ◌∷◌, ◌++◌, length, take, drop, filter, all,
  leb, arith, Bool-cases, take-append-drop, length-drop, leb→le,
}
use zions_light_ai.Prelude.Sort.{partition-perm}
use zions_light_ai.Tail.{Role}
use zions_light_ai.Messages.{
  is_system, is_user, align, or_plain, split_turns, split_messages, slice_point,
}

slice_point_lem : (n size : ℕ) → 1 ≤ n → slice_point n size ≡ size - n
unfolding slice_point
slice_point_lem n size h = ground arith

module _ {M : Type 0} (role : M → Role) where
  -- the list starts with a user's message, or has none
  abbrev pub UserFirst : List M → Type 0
  UserFirst [] = Unit {0}
  UserFirst (m ∷ ms) = (is_user role m ≡ true) ⊎ (all (λ n. not (is_user role n)) (m ∷ ms) ≡ true)

  align-Cuts :
      (to_summarize keep_recent : List M)
      → ((align role to_summarize keep_recent).0 ++ (align role to_summarize keep_recent).1
          ≡ to_summarize ++ keep_recent)
        × (length (align role to_summarize keep_recent).1 ≤ length keep_recent)
        × UserFirst (align role to_summarize keep_recent).1
        × ((align role to_summarize keep_recent).1 ≡ []
            → all (λ n. not (is_user role n)) keep_recent ≡ true)
  unfolding align
  align-Cuts to_summarize [] = (refl, omega arith, tt, λ e. refl)
  align-Cuts to_summarize (m ∷ keep_recent) = elim (Bool-cases (is_user role m)) [
    | inl yes_user ↦ rw (yes_user, align) (refl, omega arith, inl yes_user, λ e. cc)
    | inr no_user ↦
        let rest = align-Cuts (to_summarize ++ m ∷ []) keep_recent in
        rw (no_user, align)
          (
            rest.0 ∙ append_assoc to_summarize (m ∷ []) keep_recent,
            omega (arith, rest.1),
            rest.2,
            λ e. rest.3 e,
          )
  ]

  no_user-UserFirst : (ms : List M) → all (λ n. not (is_user role n)) ms ≡ true → UserFirst ms
  no_user-UserFirst [] h = tt
  no_user-UserFirst (m ∷ ms) h = inr h

  or_plain_lem :
      (plain recent to_summarize keep_recent : List M)
      → to_summarize ++ keep_recent ≡ plain ++ recent
      → length keep_recent ≤ length recent
      → UserFirst keep_recent
      → (keep_recent ≡ [] → all (λ n. not (is_user role n)) recent ≡ true)
      → let r = or_plain role plain recent (to_summarize, keep_recent) in
        (r.0 ++ r.1 ≡ plain ++ recent) × (length r.1 ≤ length recent) × UserFirst r.1
  unfolding or_plain
  or_plain_lem plain recent to_summarize [] e h u none_left =
      (refl, omega arith, no_user-UserFirst recent (none_left refl))
  or_plain_lem plain recent to_summarize (m ∷ keep_recent) e h u none_left = (e, h, u)

  split_turns_lem :
      (n : ℕ) (turns : List M)
      → let r = split_turns role n turns in
        (r.0 ++ r.1 ≡ turns) × (1 ≤ n → length r.1 ≤ n) × ((r.0 ≡ []) ⊎ UserFirst r.1)
  unfolding split_turns
  split_turns_lem n turns = elim (Bool-cases (leb (length turns) n)) [
    | inl few ↦ rw few (refl, λ h. leb→le (length turns) n few, inl refl)
    | inr many ↦
        let cut = slice_point n (length turns) in
        let aligned = align-Cuts (take cut turns) (drop cut turns) in
        let done =
          or_plain_lem (take cut turns) (drop cut turns)
            (align role (take cut turns) (drop cut turns)).0
            (align role (take cut turns) (drop cut turns)).1 aligned.0 aligned.1 aligned.2
            aligned.3 in
        rw many (
          done.0 ∙ take-append-drop cut turns,
          λ h. omega (arith, done.1, length-drop cut turns, slice_point_lem n (length turns) h),
          inr done.2,
        )
  ]

  -- The system messages, what is summarized and what is kept are all the messages, each once; the
  -- turns stay in order. With a limit of one at least, no more than the limit are kept. If anything
  -- is summarized, what is kept starts with a user's message or has none.
  pub split_messages_lem :
      (keep_recent_turns : ℕ) (messages : List M)
      → let (systems, (to_summarize, keep_recent)) =
          split_messages role keep_recent_turns messages in
        Perm (systems ++ (to_summarize ++ keep_recent)) messages
        × (to_summarize ++ keep_recent ≡ filter (λ m. not (is_system role m)) messages)
        × (1 ≤ keep_recent_turns → length keep_recent ≤ keep_recent_turns)
        × ((to_summarize ≡ []) ⊎ UserFirst keep_recent)
  unfolding split_messages
  split_messages_lem n messages =
      let turns = filter (λ m. not (is_system role m)) messages in
      let parts = split_turns_lem n turns in
      (
        subst (λ l. Perm (filter (is_system role) messages ++ l) messages) (sym parts.0)
            (partition-perm (is_system role) messages),
        parts.0,
        parts.1,
        parts.2,
      )
