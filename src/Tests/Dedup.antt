-- ===== src/Tests/Dedup.antt =====
-- A cluster of nine facts, and a memo of refusals.
use mathlib.Core.Path.{◌≡◌, refl}
use zions_light_ai.Prelude.{ℕ, ◌≤◌, true, some, List, [], ◌∷◌, length, all}
use zions_light_ai.Dedup.{chunks, rebalance, borrow, split_cluster, memo_put, memo_get, RefusalMemo}
use zions_light_ai.Dedup.Clusters.{joined, is_mergeable, split_cluster_lem}
use zions_light_ai.Dedup.Memo.{empty, puts, gets, IsBounded, Reach-IsBounded}

abbrev nine : List ℕ
nine = 0 ∷ 1 ∷ 2 ∷ 3 ∷ 4 ∷ 5 ∷ 6 ∷ 7 ∷ 8 ∷ []

-- The last index does not stay alone.
nine_split : split_cluster nine ≡ (0 ∷ 1 ∷ 2 ∷ 3 ∷ []) ∷ (4 ∷ 5 ∷ 6 ∷ []) ∷ (7 ∷ 8 ∷ []) ∷ []
unfolding split_cluster chunks rebalance borrow
nine_split = refl

split_cluster_lem_example :
    (joined (split_cluster nine) ≡ nine)
    × (2 ≤ length nine → all is_mergeable (split_cluster nine) ≡ true)
split_cluster_lem_example = split_cluster_lem nine

abbrev asked : RefusalMemo
asked = (memo_get (some 1) 70 (memo_put (some 2) 80 4 (memo_put (some 1) 70 3 []))).1

Reach-IsBounded_example : IsBounded asked
Reach-IsBounded_example =
    Reach-IsBounded (gets (some 1) 70 (puts (some 2) 80 4 (puts (some 1) 70 3 empty)))
