-- ===== src/Tests/Bgwork.antt =====
-- A pool of one task at a time and two outstanding, with one running and one waiting.
use mathlib.Core.Path.{◌≡◌, refl}
use native.Mathlib.Omega.{arith}
use zions_light_ai.Prelude.{false, []}
use zions_light_ai.Bgwork.{
  Pool, Reach, here, next, submits, enters, init, submit, acquire, phase_of, start,
}
use zions_light_ai.Bgwork.Counters.{IsSound, Reach-Pool-IsSound}
use zions_light_ai.Bgwork.Drain.{Runs, Runs-empty}

abbrev one_waiting : Pool
one_waiting = (submit 3 (init 1 2 3000)).0

abbrev one_running : Pool
one_running = acquire 0 one_waiting

abbrev full : Pool
full = (submit 7 one_running).0

full-Reach : Reach (init 1 2 3000) full
unfolding init submit acquire phase_of
full-Reach =
    next (next (next here (submits 3 (init 1 2 3000))) (enters 0 one_waiting refl (omega arith)))
      (submits 7 one_running)

Reach-Pool-IsSound_example : IsSound full
Reach-Pool-IsSound_example = Reach-Pool-IsSound 1 2 3000 full-Reach

-- A third submission is refused.
full_refuses : (submit 9 full).1 ≡ false
unfolding init submit acquire start
full_refuses = refl

Runs-empty_example : (q : Pool) × Runs full q × (q.tasks ≡ [])
Runs-empty_example = Runs-empty full Reach-Pool-IsSound_example
