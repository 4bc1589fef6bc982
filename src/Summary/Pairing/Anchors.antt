-- ===== src/Summary/Pairing/Anchors.antt =====
-- compactor/summarizer.py: the anchors are candidates, and both their indices increase.
use mathlib.Core.Logic.{inl, inr}
use mathlib.Core.List.{reverse_aux}
use mathlib.Core.Path.{subst}
use zions_light_ai.Prelude.{
  ℕ, suc, ◌+◌, ◌≤◌, ◌<◌, ◌≡◌, refl, ap, Bool, true, false, Option, none, some, List, [], ◌∷◌, ◌++◌,
  reverse, all, ltb, arith, Bool-cases, ltb→lt,
}
use zions_light_ai.Summary.Rollup.{nth}
use zions_light_ai.Summary.Pairing.{
  Pair, place, place_all, last_chain, increasing_anchors, is_entry, indices, candidate_at,
  candidates,
}

-- the request's turn and the record's entry have one fingerprint
abbrev pub is_pair : List (Option ℕ) → List ℕ → Pair → Bool
is_pair record_fps now p = elim (nth p.at_now now) [
  | none ↦ false
  | some fp ↦ elim (nth p.at_record record_fps) [ none ↦ false | some e ↦ is_entry fp e ]
]

-- pairs of equal fingerprints, both of whose indices increase, from `j` and `k` on
abbrev pub IsOrdered : List (Option ℕ) → List ℕ → ℕ → ℕ → List Pair → Type 0
IsOrdered record_fps now j k [] = true ≡ true
IsOrdered record_fps now j k (p ∷ ps) =
    (is_pair record_fps now p ≡ true)
    × (j ≤ p.at_now)
    × (k ≤ p.at_record)
    × IsOrdered record_fps now (p.at_now + 1) (p.at_record + 1) ps

module _ (record_fps : List (Option ℕ)) (now : List ℕ) where
  -- The same from the newest pair down: the indices are below `j` and `k`.
  abbrev Below : ℕ → ℕ → List Pair → Type 0
  Below j k [] = true ≡ true
  Below j k (p ∷ ps) =
      (is_pair record_fps now p ≡ true)
      × (p.at_now < j)
      × (p.at_record < k)
      × Below p.at_now p.at_record ps

  -- a chain whose request indices are below `j`
  abbrev Chain : ℕ → List Pair → Type 0
  Chain j [] = true ≡ true
  Chain j (p ∷ ps) =
      (is_pair record_fps now p ≡ true) × (p.at_now < j) × Below p.at_now p.at_record ps

  abbrev Chains : ℕ → List (List Pair) → Type 0
  Chains j [] = true ≡ true
  Chains j (c ∷ cs) = Chain j c × Chains j cs

  Chain-up : (j j' : ℕ) (c : List Pair) → j ≤ j' → Chain j c → Chain j' c
  Chain-up j j' [] le h = refl
  Chain-up j j' (p ∷ ps) le (e, lt, b) = (e, omega (arith, le, lt), b)

  Chains-up : (j j' : ℕ) (cs : List (List Pair)) → j ≤ j' → Chains j cs → Chains j' cs
  Chains-up j j' [] le h = refl
  Chains-up j j' (c ∷ cs) le (h, t) = (Chain-up j j' c le h, Chains-up j j' cs le t)

  place-Chains :
      (c : Pair) (below : List Pair) (chains : List (List Pair))
      → is_pair record_fps now c ≡ true
      → Below c.at_now c.at_record below
      → Chains c.at_now chains
      → Chains (c.at_now + 1) (place c below chains)
  unfolding place
  place-Chains c below [] e b t = ((e, omega arith, b), refl)
  place-Chains c below ([] ∷ chains) e b (h, t) =
      ((e, omega arith, b), Chains-up c.at_now (c.at_now + 1) chains (omega arith) t)
  place-Chains c below ((d ∷ ds) ∷ chains) e b ((de, dlt, db), t) =
      elim (Bool-cases (ltb d.at_record c.at_record)) [
        | inl less ↦ rw less (
          (de, omega (arith, dlt), db),
          place-Chains c (d ∷ ds) chains e (de, dlt, ltb→lt _ _ less, db) t,
        )
        | inr not_less ↦
            rw not_less
              ((e, omega arith, b), Chains-up c.at_now (c.at_now + 1) chains (omega arith) t)
      ]

  -- candidates in the order of the request
  abbrev Ascends : ℕ → List Pair → Type 0
  Ascends j [] = true ≡ true
  Ascends j (p ∷ ps) =
      (is_pair record_fps now p ≡ true) × (j ≤ p.at_now) × Ascends (p.at_now + 1) ps

  place_all-Chains :
      (j : ℕ) (cand : List Pair) (chains : List (List Pair))
      → Ascends j cand
      → Chains j chains
      → (i : ℕ) × Chains i (place_all chains cand)
  unfolding place_all
  place_all-Chains j [] chains a t = (j, t)
  place_all-Chains j (c ∷ cand) chains (e, le, a) t =
      place_all-Chains (c.at_now + 1) cand (place c [] chains) a
        (place-Chains c [] chains e refl (Chains-up j c.at_now chains le t))

  last_chain-Chain :
      (j : ℕ) (chain : List Pair) (chains : List (List Pair))
      → Chain j chain
      → Chains j chains
      → Chain j (last_chain chain chains)
  unfolding last_chain
  last_chain-Chain j chain [] h t = h
  last_chain-Chain j chain (c ∷ chains) h (hc, t) = last_chain-Chain j c chains hc t

  pub IsOrdered-down :
      (j k j' k' : ℕ) (ps : List Pair)
      → j' ≤ j
      → k' ≤ k
      → IsOrdered record_fps now j k ps
      → IsOrdered record_fps now j' k' ps
  IsOrdered-down j k j' k' [] a b h = refl
  IsOrdered-down j k j' k' (p ∷ ps) a b (e, le, le', t) =
      (e, omega (arith, a, le), omega (arith, b, le'), t)

  reverse_aux-IsOrdered :
      (j k : ℕ) (down up : List Pair)
      → Below j k down
      → IsOrdered record_fps now j k up
      → IsOrdered record_fps now 0 0 (reverse_aux down up)
  reverse_aux-IsOrdered j k [] up b h = IsOrdered-down j k 0 0 up (omega arith) (omega arith) h
  reverse_aux-IsOrdered j k (p ∷ ps) up (e, lt, lt', b) h =
      reverse_aux-IsOrdered p.at_now p.at_record ps (p ∷ up) b (
        e,
        omega arith,
        omega arith,
        IsOrdered-down j k (p.at_now + 1) (p.at_record + 1) up (omega (arith, lt))
            (omega (arith, lt')) h,
      )

  reverse-Chain : (j : ℕ) (c : List Pair) → Chain j c → IsOrdered record_fps now 0 0 (reverse c)
  reverse-Chain j [] h = refl
  reverse-Chain j (p ∷ ps) (e, lt, b) =
      reverse_aux-IsOrdered (p.at_now + 1) (p.at_record + 1) (p ∷ ps) []
        (e, omega arith, omega arith, b) refl

-- the entry at an index has the fingerprint
abbrev pub hits : List (Option ℕ) → ℕ → ℕ → Bool
hits record_fps fp k = elim (nth k record_fps) [ none ↦ false | some e ↦ is_entry fp e ]

-- `rest` is what a list has from `i` on
abbrev IsFrom : {A : Type 0} → ℕ → List A → List A → Type 0
IsFrom i whole rest = (m : ℕ) → nth (i + m) whole ≡ nth m rest

IsFrom-whole : {A : Type 0} (xs : List A) → IsFrom 0 xs xs
IsFrom-whole xs m = let e : 0 + m ≡ m = omega arith in ap (λ i. nth i xs) e

IsFrom-next :
    {A : Type 0} (i : ℕ) (whole : List A) (x : A) (rest : List A)
    → IsFrom i whole (x ∷ rest)
    → IsFrom (i + 1) whole rest
unfolding nth
IsFrom-next i whole x rest f m = let e : i + 1 + m ≡ i + suc m = omega arith in rw e (f (suc m))

IsFrom-here :
    {A : Type 0} (i : ℕ) (whole : List A) (x : A) (rest : List A)
    → IsFrom i whole (x ∷ rest)
    → nth i whole ≡ some x
unfolding nth
IsFrom-here i whole x rest f =
    let e : i + 0 ≡ i = omega arith in subst (λ k. nth k whole ≡ some x) e (f 0)

-- Every index of a fingerprint is one where it stands.
indices-hits :
    (fp i : ℕ) (whole rest : List (Option ℕ))
    → IsFrom i whole rest
    → all (hits whole fp) (indices fp i rest) ≡ true
unfolding indices
indices-hits fp i whole [] f = refl
indices-hits fp i whole (e ∷ rest) f = elim (Bool-cases (is_entry fp e)) [
  | inl same ↦
      let here : hits whole fp i ≡ true = rw (IsFrom-here i whole e rest f, hits) same in
      let later = indices-hits fp (i + 1) whole rest (IsFrom-next i whole e rest f) in
      rw same (rw here later)
  | inr other ↦ rw other (indices-hits fp (i + 1) whole rest (IsFrom-next i whole e rest f))
]

pub indices_lem :
    (fp : ℕ) (record_fps : List (Option ℕ))
    → all (hits record_fps fp) (indices fp 0 record_fps) ≡ true
indices_lem fp record_fps = indices-hits fp 0 record_fps record_fps (IsFrom-whole record_fps)

pub is_pair-hits :
    (record_fps : List (Option ℕ)) (now : List ℕ) (j k fp : ℕ)
    → nth j now ≡ some fp
    → hits record_fps fp k ≡ true
    → is_pair record_fps now (record { at_now = j; at_record = k }) ≡ true
is_pair-hits record_fps now j k fp e h = rw (e, is_pair) h

module _ (record_fps : List (Option ℕ)) (now : List ℕ) where
  Ascends-up :
      (j : ℕ) (ps : List Pair) → Ascends record_fps now (j + 1) ps → Ascends record_fps now j ps
  Ascends-up j [] a = refl
  Ascends-up j (p ∷ ps) (e, le, a) = (e, omega (arith, le), a)

  candidate_at-Ascends :
      (j fp : ℕ) (once : Bool) (ks : List ℕ) (ps : List Pair)
      → nth j now ≡ some fp
      → all (hits record_fps fp) ks ≡ true
      → Ascends record_fps now (j + 1) ps
      → Ascends record_fps now j (candidate_at j once ks ++ ps)
  unfolding candidate_at
  candidate_at-Ascends j fp true (k ∷ []) ps e h a =
      (is_pair-hits record_fps now j k fp e (ground (arith, h)), omega arith, a)
  candidate_at-Ascends j fp true [] ps e h a = Ascends-up j ps a
  candidate_at-Ascends j fp true (k ∷ l ∷ ks) ps e h a = Ascends-up j ps a
  candidate_at-Ascends j fp false ks ps e h a = Ascends-up j ps a

  candidates-Ascends :
      (j : ℕ) (fps : List ℕ)
      → IsFrom j now fps
      → Ascends record_fps now j (candidates record_fps now j fps)
  unfolding candidates
  candidates-Ascends j [] f = refl
  candidates-Ascends j (fp ∷ fps) f =
      candidate_at-Ascends j fp _ (indices fp 0 record_fps) _ (IsFrom-here j now fp fps f)
        (indices_lem fp record_fps) (candidates-Ascends (j + 1) fps (IsFrom-next j now fp fps f))

  -- The anchors are pairs of equal fingerprints, in the order of both sequences.
  pub increasing_anchors-IsOrdered :
      IsOrdered record_fps now 0 0 (increasing_anchors (candidates record_fps now 0 now))
  unfolding increasing_anchors
  increasing_anchors-IsOrdered =
      let (i, t) =
        place_all-Chains record_fps now 0 (candidates record_fps now 0 now) []
          (candidates-Ascends 0 now (IsFrom-whole now)) refl in
      reverse-Chain record_fps now i _ (last_chain-Chain record_fps now i [] _ refl t)
