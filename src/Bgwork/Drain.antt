-- ===== src/Bgwork/Drain.antt =====
-- compactor/bgwork.py: the pool can always be emptied by running the tasks that it holds.
use zions_light_ai.Prelude.{
  ℕ, zero, suc, ◌+◌, ◌<◌, ◌≡◌, refl, some, List, [], ◌∷◌, inl, inr, length, arith,
}
use zions_light_ai.Bgwork.{
  Pool, Task, enters, finishes, acquire, release, on_done, running, waiting, phase_of, start,
}
use zions_light_ai.Bgwork.Tasks.{held, find_running, length-discard, length-start, phase_of-start}
use zions_light_ai.Bgwork.Counters.{IsSound, Step-IsSound}

-- The event loop at work with no submission and no cancellation: tasks enter the semaphore and end.
pub data Runs (p : Pool) : Pool → Type 0 where
  still : Runs p p
  entering :
      {q : Pool} (k : ℕ)
      → Runs p q
      → phase_of k q.tasks ≡ some waiting
      → 0 < q.permits
      → Runs p (acquire k q)
  ending :
      {q : Pool} (k : ℕ)
      → Runs p q
      → phase_of k q.tasks ≡ some running
      → Runs p (on_done k (release q))

Runs-trans : {p q r : Pool} → Runs p q → Runs q r → Runs p r
Runs-trans a still = a
Runs-trans a (entering k b w room) = entering k (Runs-trans a b) w room
Runs-trans a (ending k b r) = ending k (Runs-trans a b) r

Runs-IsSound : {p q : Pool} → IsSound p → Runs p q → IsSound q
Runs-IsSound s still = s
Runs-IsSound s (entering {q} k r w room) = Step-IsSound (enters k q w room) (Runs-IsSound s r)
Runs-IsSound s (ending {q} k r e) = Step-IsSound (finishes k q e) (Runs-IsSound s r)

waits :
    (p : Pool) (t : Task) (ts : List Task)
    → p.tasks ≡ t ∷ ts
    → held p.tasks ≡ 0
    → phase_of t.key p.tasks ≡ some waiting
unfolding phase_of
waits p t ts e h = ground arith

-- One task ends: a running one, or else the oldest, which finds the semaphore free.
end_one :
    (p : Pool) (t : Task) (ts : List Task)
    → p.tasks ≡ t ∷ ts
    → IsSound p
    → (q : Pool) × Runs p q × (length q.tasks + 1 ≡ length p.tasks)
unfolding acquire on_done release
end_one p t ts e s = elim (find_running 0 p.submitted p.tasks s.keys) [
  | inl (k, _, found) ↦
      (on_done k (release p), ending k still found, length-discard k p.tasks running found)
  | inr free ↦
      let w = waits p t ts e free in
      let r = phase_of-start t.key p.tasks w in
      (
        on_done t.key (release (acquire t.key p)),
        ending t.key (entering t.key still w (omega arith)) r,
        omega (
          arith,
          length-discard t.key (start t.key p.tasks) running r,
          length-start t.key p.tasks,
        ),
      )
]

empty_out :
    (n : ℕ) (p : Pool) (ts : List Task)
    → p.tasks ≡ ts
    → length p.tasks ≡ n
    → IsSound p
    → (q : Pool) × Runs p q × (q.tasks ≡ [])
empty_out n p [] e h s = (p, still, e)
empty_out zero p (t ∷ ts) e h s = absurd (ground arith)
empty_out (suc n) p (t ∷ ts) e h s =
    let (q, r, shorter) = end_one p t ts e s in
    let (q', r', empty) = empty_out n q q.tasks refl (omega arith) (Runs-IsSound s r) in
    (q', Runs-trans r r', empty)

-- From any sound pool there is a run, with no submission and no cancellation, in which tasks enter
-- the semaphore while a permit is free and end, that leaves no task outstanding: no deadlock.
pub Runs-empty : (p : Pool) → IsSound p → (q : Pool) × Runs p q × (q.tasks ≡ [])
Runs-empty p s = empty_out (length p.tasks) p p.tasks refl refl s
