-- ===== src/Messages/Shape/Runs.antt =====
-- compactor/main.py: a loop that merges a message into the one before it leaves no two neighbours that
-- it would merge.
use mathlib.Core.Logic.{inl, inr}
use zions_light_ai.Prelude.{
  ℕ, ◌+◌, ◌≡◌, refl, ◌∙◌, Bool, true, false, List, [], ◌∷◌, sum_by, arith, Bool-cases,
}
use zions_light_ai.Messages.Shape.{ChatMessage, message_image_count, merge_onto}

abbrev pub NoRun : (ChatMessage → ChatMessage → Bool) → List ChatMessage → Type 0
NoRun merges [] = true ≡ true
NoRun merges (x ∷ []) = true ≡ true
NoRun merges (x ∷ y ∷ ys) = (merges x y ≡ false) × NoRun merges (y ∷ ys)

abbrev pub images : ChatMessage → ℕ
images m = message_image_count m.content

module _ (merges : ChatMessage → ChatMessage → Bool)
    (merged : ChatMessage → ChatMessage → ChatMessage) where
  -- The loop keeps the images, where a merge does.
  pub merge_onto-images :
      ((p m : ChatMessage) → merges p m ≡ true → images (merged p m) ≡ images p + images m)
      → (last : ChatMessage) (ms : List ChatMessage)
      → sum_by images (merge_onto merges merged last ms) ≡ images last + sum_by images ms
  unfolding merge_onto
  merge_onto-images f last [] = omega arith
  merge_onto-images f last (m ∷ ms) = elim (Bool-cases (merges last m)) [
    | inl e ↦ rw e (omega (arith, merge_onto-images f (merged last m) ms, f last m e))
    | inr e ↦ rw e (omega (arith, merge_onto-images f m ms))
  ]

  module _ (other : ChatMessage → ChatMessage → Bool)
      (alike : (p m : ChatMessage)
        → merges p m ≡ true
        → (x : ChatMessage) → other x (merged p m) ≡ other x p)
      (after : (p m : ChatMessage)
        → merges p m ≡ true
        → (x : ChatMessage) → other (merged p m) x ≡ other m x) where
    -- What the loop's list has no run of, where a merged message stands between its neighbours as the
    -- two did.
    pub merge_onto-NoRun :
        (last : ChatMessage) (ms : List ChatMessage)
        → NoRun other (last ∷ ms)
        → NoRun other (merge_onto merges merged last ms)
          × ((x : ChatMessage)
              → other x last ≡ false
              → NoRun other (x ∷ merge_onto merges merged last ms))
    unfolding merge_onto
    merge_onto-NoRun last [] h = (refl, λ x e. (e, refl))
    merge_onto-NoRun last (m ∷ ms) (d, h) = elim (Bool-cases (merges last m)) [
      | inl e ↦
          let (keeps, front) = merge_onto-NoRun (merged last m) ms (onto last m ms e h) in
          rw e (keeps, λ x f. front x (alike last m e x ∙ f))
      | inr e ↦
          let (keeps, front) = merge_onto-NoRun m ms h in
          rw e (front last d, λ x f. (f, front last d))
    ]
      where
        onto :
            (p q : ChatMessage) (rest : List ChatMessage)
            → merges p q ≡ true
            → NoRun other (q ∷ rest)
            → NoRun other (merged p q ∷ rest)
        onto p q [] e h = refl
        onto p q (r ∷ rest) e (d, h) = (after p q e r ∙ d, h)

  -- The loop leaves no run of its own.
  module _
      (alike : (p m : ChatMessage)
        → merges p m ≡ true
        → (x : ChatMessage) → merges x (merged p m) ≡ merges x p) where
    pub merge_onto-own :
        (last : ChatMessage) (ms : List ChatMessage)
        → NoRun merges (merge_onto merges merged last ms)
          × ((x : ChatMessage)
              → merges x last ≡ false
              → NoRun merges (x ∷ merge_onto merges merged last ms))
    unfolding merge_onto
    merge_onto-own last [] = (refl, λ x e. (e, refl))
    merge_onto-own last (m ∷ ms) = elim (Bool-cases (merges last m)) [
      | inl e ↦
          let (keeps, front) = merge_onto-own (merged last m) ms in
          rw e (keeps, λ x f. front x (alike last m e x ∙ f))
      | inr e ↦
          let (keeps, front) = merge_onto-own m ms in rw e (front last e, λ x f. (f, front last e))
    ]
