-- ===== src/Dedup.antt =====
-- compactor/dedup.py: the cap on the size of a cluster, and the memo of the clusters that the model
-- refused to merge. Conversations, cluster keys and reasons are numbers; a conversation that is
-- missing or empty is none.
pub mod Clusters
pub mod Memo
use Prim.Native.Nat.{ℕ}
unfoldable use native.Mathlib.Decide.{ℕ_discrete}
use zions_light_ai.Prelude.{
  zero, suc, ◌-◌, Bool, true, false, not, Option, none, some, List, [], ◌∷◌, ◌++◌, length, take,
  drop, filter, ltb, leb, ◌==◌, if◌then◌else◌,
}
use zions_light_ai.Prelude.Dict.{lookup}

abbrev pub max_cluster_size : ℕ
max_cluster_size = 4

-- the loop of `_split_cluster`, of `fuel` rounds at most
unfoldable pub chunks : ℕ → List ℕ → List (List ℕ)
chunks zero xs = []
chunks (suc fuel) [] = []
chunks (suc fuel) (x ∷ xs) =
    take max_cluster_size (x ∷ xs) ∷ chunks fuel (drop max_cluster_size (x ∷ xs))

-- the two last chunks, of which the last may be too short
unfoldable pub borrow : List ℕ → List ℕ → List (List ℕ)
borrow before last =
    let kept = length before - (2 - length last) in
    if ltb (length last) 2
    then take kept before ∷ (drop kept before ++ last) ∷ []
    else before ∷ last ∷ []

unfoldable pub rebalance : List (List ℕ) → List (List ℕ)
unfolding borrow
rebalance [] = []
rebalance (a ∷ []) = a ∷ []
rebalance (a ∷ b ∷ []) = borrow a b
rebalance (a ∷ b ∷ c ∷ out) = a ∷ rebalance (b ∷ c ∷ out)

-- A round takes one index at least, so as many rounds as indices are enough.
unfoldable pub split_cluster : List ℕ → List (List ℕ)
unfolding chunks rebalance
split_cluster cluster =
    if leb (length cluster) max_cluster_size
    then cluster ∷ []
    else rebalance (chunks (length cluster) cluster)

abbrev pub memo_max_clusters_per_conv : ℕ
memo_max_clusters_per_conv = 512

abbrev pub memo_max_convs : ℕ
memo_max_convs = 32

-- the reasons of a conversation by cluster, the least recently used first
abbrev pub Reasons : Type 0
Reasons = List (ℕ × ℕ)

abbrev pub RefusalMemo : Type 0
RefusalMemo = List (ℕ × Reasons)

-- `d.pop(k, None)`
unfoldable pub pop : {V : Type 0} → ℕ → List (ℕ × V) → List (ℕ × V)
pop k d = filter (λ e. not (e.0 == k)) d

-- `d[k] = v` and `d.move_to_end(k)`
unfoldable pub put_end : {V : Type 0} → ℕ → V → List (ℕ × V) → List (ℕ × V)
unfolding pop
put_end k v d = pop k d ++ (k, v) ∷ []

-- `while len(d) > cap: d.popitem(last=False)`
unfoldable pub evict : {V : Type 0} → ℕ → List (ℕ × V) → List (ℕ × V)
evict cap d = drop (length d - cap) d

unfoldable pub or_empty : Option Reasons → Reasons
or_empty none = []
or_empty (some per_conv) = per_conv

unfoldable pub memo_put : Option ℕ → ℕ → ℕ → RefusalMemo → RefusalMemo
unfolding evict put_end or_empty lookup
memo_put none key reason memo = memo
memo_put (some conv) key reason memo =
    let per_conv =
      evict memo_max_clusters_per_conv
        (put_end key reason (or_empty (lookup ℕ_discrete conv memo))) in
    evict memo_max_convs (put_end conv per_conv memo)

-- the answer of `_memo_get` for a conversation that has reasons, with the memo after it
unfoldable pub get_reason : ℕ → ℕ → Reasons → Option ℕ → RefusalMemo → Option ℕ × RefusalMemo
unfolding put_end
get_reason conv key per_conv none memo = (none, memo)
get_reason conv key per_conv (some reason) memo =
    (some reason, put_end conv (put_end key reason per_conv) memo)

unfoldable pub get_conv : ℕ → ℕ → Option Reasons → RefusalMemo → Option ℕ × RefusalMemo
unfolding get_reason lookup
get_conv conv key none memo = (none, memo)
get_conv conv key (some per_conv) memo =
    get_reason conv key per_conv (lookup ℕ_discrete key per_conv) memo

unfoldable pub memo_get : Option ℕ → ℕ → RefusalMemo → Option ℕ × RefusalMemo
unfolding get_conv lookup
memo_get none key memo = (none, memo)
memo_get (some conv) key memo = get_conv conv key (lookup ℕ_discrete conv memo) memo

unfoldable pub reset_refusal_memo : Option ℕ → RefusalMemo → RefusalMemo
unfolding pop
reset_refusal_memo none memo = []
reset_refusal_memo (some conv) memo = pop conv memo
