-- ===== src/Summary/Rollup/Tiles.antt =====
-- compactor/summarizer.py: chunks whose spans follow each other, and what keeps them so.
use mathlib.Core.List.{append-nil}
use zions_light_ai.Prelude.{ℕ, suc, ◌≤◌, ◌<◌, ◌≡◌, refl, false, List, [], ◌∷◌, ◌++◌, arith, ==_iff}
use zions_light_ai.Summary.{Chunk, State, themes, last_chunk}
use zions_light_ai.Summary.Rollup.{has_span}

-- `G a b` relates the last turn of what is before to the first turn of what follows.
abbrev pub Tiles : (ℕ → ℕ → Type 0) → ℕ → List Chunk → ℕ → Type 0
Tiles G lo [] hi = G lo (suc hi)
Tiles G lo (c ∷ cs) hi =
    G lo c.first_turn × (c.first_turn ≤ c.last_turn) × Tiles G c.last_turn cs hi

-- no turn is left out
abbrev pub Exact : ℕ → ℕ → Type 0
Exact a b = b ≡ suc a

-- turns may be left out, and none is in two chunks
abbrev pub Apart : ℕ → ℕ → Type 0
Apart a b = a < b

abbrev pub all_chunks : State → List Chunk
all_chunks s = themes s.l3 ++ (s.l2 ++ s.l1)

abbrev pub IsTiled : (ℕ → ℕ → Type 0) → State → Type 0
IsTiled G s = Tiles G 0 (all_chunks s) s.last_summarized_turn

module _ (G : ℕ → ℕ → Type 0) where
  pub Tiles-replace :
      (xs ys zs : List Chunk) (lo hi hi' : ℕ)
      → ((a : ℕ) → Tiles G a ys hi → Tiles G a zs hi')
      → Tiles G lo (xs ++ ys) hi
      → Tiles G lo (xs ++ zs) hi'
  Tiles-replace [] ys zs lo hi hi' f t = f lo t
  Tiles-replace (x ∷ xs) ys zs lo hi hi' f (a, b, t) =
      (a, b, Tiles-replace xs ys zs x.last_turn hi hi' f t)

  pub Tiles-merge :
      ((a b : ℕ) → G a b → a < b)
      → (c : Chunk) (chunks rest : List Chunk) (lo hi : ℕ) → Tiles G lo (c ∷ chunks ++ rest) hi
      → G lo c.first_turn
        × (c.first_turn ≤ (last_chunk c chunks).last_turn)
        × Tiles G (last_chunk c chunks).last_turn rest hi
  unfolding last_chunk
  Tiles-merge up c [] rest lo hi t = t
  Tiles-merge up c (d ∷ chunks) rest lo hi (a, b, t) =
      let (g, le, u) = Tiles-merge up d chunks rest c.last_turn hi t in
      (a, omega (arith, b, up c.last_turn d.first_turn g, le), u)

  -- A chunk at the end of the scenes.
  pub Tiles-scene :
      (xs : List Chunk) (chunk : Chunk) (lo hi : ℕ)
      → ((a : ℕ) → G a (suc hi) → G a chunk.first_turn)
      → chunk.first_turn ≤ chunk.last_turn
      → G chunk.last_turn (suc chunk.last_turn)
      → Tiles G lo xs hi
      → Tiles G lo (xs ++ chunk ∷ []) chunk.last_turn
  Tiles-scene xs chunk lo hi f h g t =
      Tiles-replace xs [] (chunk ∷ []) lo hi chunk.last_turn (λ a b. (f a b, h, g))
        (rw append-nil t)

  -- an advance of the watermark that no relation notices
  pub Tiles-advance :
      (xs : List Chunk) (lo hi hi' : ℕ)
      → ((a : ℕ) → G a (suc hi) → G a (suc hi'))
      → Tiles G lo xs hi
      → Tiles G lo xs hi'
  Tiles-advance [] lo hi hi' f t = f lo t
  Tiles-advance (x ∷ xs) lo hi hi' f (a, b, t) = (a, b, Tiles-advance xs x.last_turn hi hi' f t)

  module _ (up : (a b : ℕ) → G a b → a < b) where
    Tiles-le : (cs : List Chunk) (lo hi : ℕ) → Tiles G lo cs hi → lo ≤ hi
    Tiles-le [] lo hi t = omega (arith, up lo (suc hi) t)
    Tiles-le (c ∷ cs) lo hi (a, b, t) =
        omega (arith, up lo c.first_turn a, b, Tiles-le cs c.last_turn hi t)

    -- Nothing that is tiled ends behind the end.
    Tiles-has_span :
        (cs : List Chunk) (lo hi first last : ℕ)
        → hi < last
        → Tiles G lo cs hi
        → has_span first last cs ≡ false
    unfolding has_span
    Tiles-has_span [] lo hi first last h t = refl
    Tiles-has_span (c ∷ cs) lo hi first last h (a, b, t) = ground (
      arith,
      Tiles-le cs c.last_turn hi t,
      Tiles-has_span cs c.last_turn hi first last h t,
      ==_iff c.last_turn last,
    )

    pub Tiles-has_span_after :
        (xs cs : List Chunk) (lo hi first last : ℕ)
        → hi < last
        → Tiles G lo (xs ++ cs) hi
        → has_span first last cs ≡ false
    Tiles-has_span_after [] cs lo hi first last h t = Tiles-has_span cs lo hi first last h t
    Tiles-has_span_after (x ∷ xs) cs lo hi first last h (a, b, t) =
        Tiles-has_span_after xs cs x.last_turn hi first last h t
