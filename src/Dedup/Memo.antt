-- ===== src/Dedup/Memo.antt =====
-- compactor/dedup.py: the memo of refused clusters answers what was put last, and stays within its
-- two caps.
use Prim.Native.Nat.{ℕ}
unfoldable use native.Mathlib.Decide.{ℕ_discrete}
use zions_light_ai.Prelude.{
  zero, suc, ◌-◌, ◌≤◌, ◌<◌, ◌≡◌, refl, Bool, true, not, Option, none, some, List, [], ◌∷◌, ◌++◌,
  length, drop, all, leb, ◌==◌, arith, tests, length-drop, length-append, ==_iff, le→leb, leb→le,
}
use zions_light_ai.Prelude.Dict.{lookup}
use zions_light_ai.Dedup.{
  Reasons, RefusalMemo, memo_max_clusters_per_conv, memo_max_convs, pop, put_end, evict, or_empty,
  memo_put, memo_get, get_conv, get_reason, reset_refusal_memo,
}

module _ {V : Type 0} where
  abbrev is_other : ℕ → ℕ × V → Bool
  is_other k e = not (e.0 == k)

  others-pop : (k : ℕ) (d : List (ℕ × V)) → all (is_other k) (pop k d) ≡ true
  unfolding pop
  others-pop k [] = refl
  others-pop k (e ∷ d) = ground (arith, others-pop k d)

  all-drop :
      (p : ℕ × V → Bool) (n : ℕ) (d : List (ℕ × V)) → all p d ≡ true → all p (drop n d) ≡ true
  all-drop p zero d h = h
  all-drop p (suc n) [] h = refl
  all-drop p (suc n) (e ∷ d) h = all-drop p n d (ground arith)

  lookup-last :
      (k : ℕ) (v : V) (d : List (ℕ × V))
      → all (is_other k) d ≡ true
      → lookup ℕ_discrete k (d ++ (k, v) ∷ []) ≡ some v
  unfolding lookup
  lookup-last k v [] h = ground arith
  lookup-last k v ((j, w) ∷ d) h = ground (arith, lookup-last k v d, ==_iff j k)

  drop-append : (n : ℕ) (d e : List (ℕ × V)) → n ≤ length d → drop n (d ++ e) ≡ drop n d ++ e
  drop-append zero d e h = refl
  drop-append (suc n) [] e h = absurd (omega arith)
  drop-append (suc n) (x ∷ d) e h = drop-append n d e (omega arith)

  -- What was put last survives an eviction.
  lookup-put_end :
      (cap k : ℕ) (v : V) (d : List (ℕ × V))
      → 1 ≤ cap
      → lookup ℕ_discrete k (evict cap (put_end k v d)) ≡ some v
  unfolding evict put_end
  lookup-put_end cap k v d h =
      let n = length (pop k d ++ (k, v) ∷ []) - cap in
      rw
        (drop-append n (pop k d) ((k, v) ∷ [])
          (omega (arith, length-append (pop k d) ((k, v) ∷ []))))
        (lookup-last k v (drop n (pop k d)) (all-drop (is_other k) n (pop k d) (others-pop k d)))

  length-evict : (cap : ℕ) (d : List (ℕ × V)) → length (evict cap d) ≤ cap
  unfolding evict
  length-evict cap d = omega (arith, length-drop (length d - cap) d)

  all-pop : (p : ℕ × V → Bool) (k : ℕ) (d : List (ℕ × V)) → all p d ≡ true → all p (pop k d) ≡ true
  unfolding pop
  all-pop p k [] h = refl
  all-pop p k (e ∷ d) h = ground (arith, all-pop p k d)

  all-last :
      (p : ℕ × V → Bool) (d : List (ℕ × V)) (e : ℕ × V)
      → all p d ≡ true
      → p e ≡ true
      → all p (d ++ e ∷ []) ≡ true
  all-last p [] e h k = ground arith
  all-last p (c ∷ d) e h k = ground (arith, all-last p d e)

  length-pop : (k : ℕ) (d : List (ℕ × V)) → length (pop k d) ≤ length d
  unfolding pop
  length-pop k [] = omega arith
  length-pop k (e ∷ d) = ground (arith, length-pop k d)

  length-pop_found :
      (k : ℕ) (v : V) (d : List (ℕ × V))
      → lookup ℕ_discrete k d ≡ some v
      → length (pop k d) < length d
  unfolding pop lookup
  length-pop_found k v [] h = cc
  length-pop_found k v ((j, w) ∷ d) h =
      ground (arith, length-pop_found k v d, length-pop k d, ==_iff j k)

  all-lookup :
      (p : V → Bool) (k : ℕ) (v : V) (d : List (ℕ × V))
      → all (λ e. p e.1) d ≡ true
      → lookup ℕ_discrete k d ≡ some v
      → p v ≡ true
  unfolding lookup
  all-lookup p k v [] h found = cc
  all-lookup p k v ((j, w) ∷ d) h found = ground (arith, all-lookup p k v d)

-- After a refusal is put, the memo answers with its reason, whatever was evicted.
pub memo_get-memo_put :
    (conv key reason : ℕ) (memo : RefusalMemo)
    → (memo_get (some conv) key (memo_put (some conv) key reason memo)).0 ≡ some reason
unfolding memo_get memo_put get_conv get_reason
memo_get-memo_put conv key reason memo =
    let put = put_end key reason (or_empty (lookup ℕ_discrete conv memo)) in
    rw
      (
        lookup-put_end memo_max_convs conv (evict memo_max_clusters_per_conv put) memo
            (omega arith),
        get_conv,
        lookup-put_end memo_max_clusters_per_conv key reason
            (or_empty (lookup ℕ_discrete conv memo)) (omega arith),
        get_reason,
      )
      refl

-- the memos that calls of `_memo_put`, `_memo_get` and `reset_refusal_memo` reach
pub data Reach : RefusalMemo → Type 0 where
  empty : Reach []
  puts :
      {memo : RefusalMemo} (conv : Option ℕ) (key reason : ℕ)
      → Reach memo
      → Reach (memo_put conv key reason memo)
  gets :
      {memo : RefusalMemo} (conv : Option ℕ) (key : ℕ)
      → Reach memo
      → Reach (memo_get conv key memo).1
  resets :
      {memo : RefusalMemo} (conv : Option ℕ) → Reach memo → Reach (reset_refusal_memo conv memo)

abbrev fits : ℕ × Reasons → Bool
fits e = leb (length e.1) memo_max_clusters_per_conv

-- within both caps
abbrev pub IsBounded : RefusalMemo → Type 0
IsBounded memo = (length memo ≤ memo_max_convs) × (all fits memo ≡ true)

put_end-IsBounded :
    (conv : ℕ) (per_conv : Reasons) (memo : RefusalMemo)
    → length per_conv ≤ memo_max_clusters_per_conv
    → all fits memo ≡ true
    → IsBounded (evict memo_max_convs (put_end conv per_conv memo))
unfolding put_end evict
put_end-IsBounded conv per_conv memo h k = (
  length-evict memo_max_convs (put_end conv per_conv memo),
  all-drop fits (length (put_end conv per_conv memo) - memo_max_convs) _ (
      all-last fits (pop conv memo) (conv, per_conv) (all-pop fits conv memo k)
        (le→leb (length per_conv) memo_max_clusters_per_conv h)),
)

memo_put-IsBounded :
    (conv : Option ℕ) (key reason : ℕ) (memo : RefusalMemo)
    → IsBounded memo
    → IsBounded (memo_put conv key reason memo)
unfolding memo_put
memo_put-IsBounded none key reason memo h = h
memo_put-IsBounded (some conv) key reason memo h =
    put_end-IsBounded conv _ memo
      (length-evict memo_max_clusters_per_conv
        (put_end key reason (or_empty (lookup ℕ_discrete conv memo))))
      h.1

get_reason-IsBounded :
    (conv key : ℕ) (per_conv : Reasons) (found : Option ℕ) (memo : RefusalMemo)
    → lookup ℕ_discrete key per_conv ≡ found
    → lookup ℕ_discrete conv memo ≡ some per_conv
    → IsBounded memo
    → IsBounded (get_reason conv key per_conv found memo).1
unfolding get_reason put_end
get_reason-IsBounded conv key per_conv none memo e d h = h
get_reason-IsBounded conv key per_conv (some reason) memo e d h =
    let few : leb (length per_conv) memo_max_clusters_per_conv ≡ true =
      all-lookup (λ v. leb (length v) memo_max_clusters_per_conv) conv per_conv memo h.1 d in
    (
      omega (
        arith,
        length-append (pop conv memo) ((conv, put_end key reason per_conv) ∷ []),
        length-pop_found conv per_conv memo d,
        h.0,
      ),
      all-last fits (pop conv memo) (conv, put_end key reason per_conv) (all-pop fits conv memo h.1)
          (le→leb _ _ (
            omega (
              tests,
              length-append (pop key per_conv) ((key, reason) ∷ []),
              length-pop_found key reason per_conv e,
              leb→le _ _ few,
            ))),
    )

get_conv-IsBounded :
    (conv key : ℕ) (found : Option Reasons) (memo : RefusalMemo)
    → lookup ℕ_discrete conv memo ≡ found
    → IsBounded memo
    → IsBounded (get_conv conv key found memo).1
unfolding get_conv
get_conv-IsBounded conv key none memo d h = h
get_conv-IsBounded conv key (some per_conv) memo d h =
    get_reason-IsBounded conv key per_conv (lookup ℕ_discrete key per_conv) memo refl d h

memo_get-IsBounded :
    (conv : Option ℕ) (key : ℕ) (memo : RefusalMemo)
    → IsBounded memo
    → IsBounded (memo_get conv key memo).1
unfolding memo_get
memo_get-IsBounded none key memo h = h
memo_get-IsBounded (some conv) key memo h =
    get_conv-IsBounded conv key (lookup ℕ_discrete conv memo) memo refl h

reset-IsBounded :
    (conv : Option ℕ) (memo : RefusalMemo)
    → IsBounded memo
    → IsBounded (reset_refusal_memo conv memo)
unfolding reset_refusal_memo
reset-IsBounded none memo h = (omega arith, refl)
reset-IsBounded (some conv) memo h =
    (omega (arith, length-pop conv memo, h.0), all-pop fits conv memo h.1)

-- Whatever is put, asked and reset, the memo holds 32 conversations at most, each with 512 clusters
-- at most.
pub Reach-IsBounded : {memo : RefusalMemo} → Reach memo → IsBounded memo
Reach-IsBounded empty = (omega arith, refl)
Reach-IsBounded (puts {memo} conv key reason r) =
    memo_put-IsBounded conv key reason memo (Reach-IsBounded r)
Reach-IsBounded (gets {memo} conv key r) = memo_get-IsBounded conv key memo (Reach-IsBounded r)
Reach-IsBounded (resets {memo} conv r) = reset-IsBounded conv memo (Reach-IsBounded r)
