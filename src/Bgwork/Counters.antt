-- ===== src/Bgwork/Counters.antt =====
-- compactor/bgwork.py: the ledger of the pool, over every order of submissions and endings.
use zions_light_ai.Prelude.{
  ℕ, ◌+◌, ◌≤◌, ◌<◌, ◌≡◌, true, false, some, inl, inr, Bool-cases, tests, [], ◌∷◌, length,
  length-append, leb, sum_by-append, arith,
}
use zions_light_ai.Bgwork.{
  Pool, Task, Step, Reach, submits, enters, finishes, cancels, here, next, init, submit, acquire,
  release, on_done, phase_of, stats, running, waiting,
}
use zions_light_ai.Bgwork.Tasks.{
  held, permit_of, length-discard, held-discard, length-start, held-start, Rising, Rising-append,
  Rising-hi, Rising-start, Rising-discard,
}

pub record IsSound (p : Pool) : Type 0 where
  pub some_room : 1 ≤ p.max_concurrent
  pub caps : p.max_concurrent ≤ p.max_outstanding
  pub bounded : length p.tasks ≤ p.max_outstanding
  pub permits : p.permits + held p.tasks ≡ p.max_concurrent
  pub keys : Rising 0 p.submitted p.tasks
  pub ledger : p.submitted ≡ p.completed + p.shed + length p.tasks

pub init-IsSound : (c o w : ℕ) → IsSound (init c o w)
unfolding init
init-IsSound c o w = omega arith

abbrev new_task : Pool → Task
new_task p = record { key = p.submitted; phase = waiting }

submit-IsSound : (now : ℕ) (p : Pool) → IsSound p → IsSound (submit now p).0
unfolding submit
submit-IsSound now p s = elim (Bool-cases (leb p.max_outstanding (length p.tasks))) [
  | inl full ↦
      rw (full, submit)
        (record {
          some_room = s.some_room;
          caps = s.caps;
          bounded = s.bounded;
          permits = s.permits;
          keys = Rising-hi 0 p.submitted p.tasks s.keys;
          ledger = omega (arith, s.ledger);
        })
  | inr room ↦
      rw (room, submit)
        (record {
          some_room = s.some_room;
          caps = s.caps;
          bounded = omega (tests, length-append p.tasks (new_task p ∷ []));
          permits = omega (arith, sum_by-append (λ t. permit_of t.phase) p.tasks (new_task p ∷ []));
          keys = Rising-append 0 p.submitted p.tasks waiting s.keys;
          ledger = omega (arith, length-append p.tasks (new_task p ∷ []));
        })
]

enters-IsSound :
    (k : ℕ) (p : Pool)
    → phase_of k p.tasks ≡ some waiting
    → 0 < p.permits
    → IsSound p
    → IsSound (acquire k p)
unfolding acquire
enters-IsSound k p h room s = record {
  some_room = s.some_room;
  caps = s.caps;
  bounded = omega (arith, length-start k p.tasks);
  permits = omega (arith, held-start k p.tasks h);
  keys = Rising-start k 0 p.submitted p.tasks s.keys;
  ledger = omega (arith, length-start k p.tasks);
}

finishes-IsSound :
    (k : ℕ) (p : Pool)
    → phase_of k p.tasks ≡ some running
    → IsSound p
    → IsSound (on_done k (release p))
unfolding on_done release
finishes-IsSound k p h s = record {
  some_room = s.some_room;
  caps = s.caps;
  bounded = omega (arith, length-discard k p.tasks running h);
  permits = omega (arith, held-discard k p.tasks running h);
  keys = Rising-discard k 0 p.submitted p.tasks s.keys;
  ledger = omega (arith, length-discard k p.tasks running h);
}

cancels-IsSound :
    (k : ℕ) (p : Pool) → phase_of k p.tasks ≡ some waiting → IsSound p → IsSound (on_done k p)
unfolding on_done
cancels-IsSound k p h s = record {
  some_room = s.some_room;
  caps = s.caps;
  bounded = omega (arith, length-discard k p.tasks waiting h);
  permits = omega (arith, held-discard k p.tasks waiting h);
  keys = Rising-discard k 0 p.submitted p.tasks s.keys;
  ledger = omega (arith, length-discard k p.tasks waiting h);
}

pub Step-IsSound : {p q : Pool} → Step p q → IsSound p → IsSound q
Step-IsSound (submits now p) s = submit-IsSound now p s
Step-IsSound (enters k p h room) s = enters-IsSound k p h room s
Step-IsSound (finishes k p h) s = finishes-IsSound k p h s
Step-IsSound (cancels k p h) s = cancels-IsSound k p h s

-- From a new pool, whatever the order of submissions, starts, ends and cancellations: the tasks
-- outstanding never pass the ceiling, the tasks inside the semaphore never pass the concurrency
-- cap, and every submission is accounted for once, as outstanding, completed or shed.
pub Reach-Pool-IsSound : (c o w : ℕ) {p : Pool} → Reach (init c o w) p → IsSound p
Reach-Pool-IsSound c o w here = init-IsSound c o w
Reach-Pool-IsSound c o w (next r st) = Step-IsSound st (Reach-Pool-IsSound c o w r)

-- A submission is refused exactly when the pool's own `at_capacity` says so; a refused one changes
-- no task and is counted as shed, and an accepted one adds one task and sheds nothing.
pub submit_lem :
    (now : ℕ) (p : Pool)
    → ((submit now p).1 ≡ true
        → ((stats now p).at_capacity ≡ false)
          × (length (submit now p).0.tasks ≡ length p.tasks + 1)
          × ((submit now p).0.shed ≡ p.shed)
          × ((submit now p).0.last_shed_at ≡ p.last_shed_at))
      × ((submit now p).1 ≡ false
          → ((stats now p).at_capacity ≡ true)
            × ((submit now p).0.tasks ≡ p.tasks)
            × ((submit now p).0.shed ≡ p.shed + 1)
            × ((submit now p).0.last_shed_at ≡ some now))
unfolding submit stats
submit_lem now p = (
  λ h. ground (arith, length-append p.tasks (new_task p ∷ [])),
  λ h. ground (arith, length-append p.tasks (new_task p ∷ [])),
)
