-- ===== src/Logsetup.antt =====
-- compactor/logsetup.py: the gate that reports a call site once in a process. The set of keys is a
-- list; what a key is made of is left open.
use mathlib.Core.Logic.{ite}
use zions_light_ai.Prelude.{Bool, true, false, List, [], ◌∷◌, ◌≡◌, arith}

module _ {L : Type 0} (dec : Discrete L) where
  unfoldable pub contains : L → List L → Bool
  contains k [] = false
  contains k (j ∷ js) = ite (dec j k) true (contains k js)

  unfoldable pub log_once : L → List L → Bool × List L
  log_once k logged = elim (contains k logged) [
    | true ↦ (false, logged)
    | false ↦ (true, k ∷ logged)
  ]

  -- The second call with a key says no, and a call with another key changes nothing for it.
  pub contains-log_once : (k : L) (logged : List L) → contains k (log_once k logged).1 ≡ true
  unfolding contains log_once
  contains-log_once k logged = ground arith

  pub contains-log_once_ne :
      (k j : L) (logged : List L) → ¬ (k ≡ j) → contains j (log_once k logged).1 ≡ contains j logged
  unfolding contains log_once
  contains-log_once_ne k j logged h = ground arith
