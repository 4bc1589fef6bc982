-- ===== src/Prelude/Dict.antt =====
-- A Python dict as a list of entries in insertion order, over keys with decidable equality.
use Prim.Native.Nat.{ℕ, ◌+◌}
use mathlib.Core.Path.{◌≡◌, refl}
use mathlib.Core.Logic.{ite}
use mathlib.Core.Option.{Option, none, some}
use mathlib.Core.List.{List, [], ◌∷◌}
use native.Mathlib.Omega.{arith}

abbrev pub or_zero : Option ℕ → ℕ
or_zero none = 0
or_zero (some n) = n

module _ {ℓ} {K V : Type ℓ} (dec : Discrete K) where
  -- `d.get(k)`
  unfoldable pub lookup : K → List (K × V) → Option V
  lookup k [] = none
  lookup k ((j, v) ∷ d) = ite (dec j k) (some v) (lookup k d)

  -- `d[k] = v`: a new key goes to the end
  unfoldable pub put : K → V → List (K × V) → List (K × V)
  put k v [] = (k, v) ∷ []
  put k v ((j, w) ∷ d) = ite (dec j k) ((j, v) ∷ d) ((j, w) ∷ put k v d)

  pub lookup-put :
      (k j : K) (v : V) (d : List (K × V))
      → lookup j (put k v d) ≡ ite (dec k j) (some v) (lookup j d)
  unfolding lookup put
  lookup-put k j v [] = refl
  lookup-put k j v ((i, w) ∷ d) = ground (arith, lookup-put k j v d)

module _ {K : Type 0} (dec : Discrete K) where
  -- `d.get(k, 0)`
  abbrev pub count : K → List (K × ℕ) → ℕ
  count k d = or_zero (lookup dec k d)

  -- the sum of the values
  abbrev pub total : List (K × ℕ) → ℕ
  total [] = 0
  total ((k, n) ∷ d) = n + total d

  pub total-put :
      (k : K) (n : ℕ) (d : List (K × ℕ)) → total (put dec k n d) + count k d ≡ total d + n
  unfolding lookup put
  total-put k n [] = omega arith
  total-put k n ((j, m) ∷ d) = ground (arith, total-put k n d)
