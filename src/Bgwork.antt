-- ===== src/Bgwork.antt =====
-- compactor/bgwork.py: the bounded pool of background tasks. The event loop is a step relation: a
-- task waits for the semaphore, runs, and ends, in any order. Times are in tenths of a second.
pub mod Tasks
pub mod Counters
pub mod Drain
use zions_light_ai.Prelude.{
  ℕ, suc, ◌+◌, ◌-◌, ◌<◌, max, ◌≡◌, Bool, true, false, Option, none, some, List, [], ◌++◌, ◌∷◌,
  length, leb, ◌==◌, if◌then◌else◌,
}

-- where a task of `_tasks` stands in `_run`: before or inside `async with self._sem`
pub data Phase : Type 0 where
  waiting running : Phase

pub record Task : Type 0 where
  pub key : ℕ
  pub phase : Phase

pub record Pool : Type 0 where
  pub max_concurrent : ℕ
  pub max_outstanding : ℕ
  pub shed_window : ℕ
  pub permits : ℕ
  pub tasks : List Task
  pub shed : ℕ
  pub submitted : ℕ
  pub completed : ℕ
  pub last_shed_at : Option ℕ

unfoldable pub init : ℕ → ℕ → ℕ → Pool
init max_concurrent max_outstanding shed_window = record {
  max_concurrent = max 1 max_concurrent;
  max_outstanding = max (max 1 max_concurrent) max_outstanding;
  shed_window = shed_window;
  permits = max 1 max_concurrent;
  tasks = [];
  shed = 0;
  submitted = 0;
  completed = 0;
  last_shed_at = none;
}

-- A new task has the count of submissions for its key. `now` is `time.monotonic()`.
unfoldable pub submit : ℕ → Pool → Pool × Bool
submit now p =
    if leb p.max_outstanding (length p.tasks)
    then (
      record p { submitted = p.submitted + 1; shed = p.shed + 1; last_shed_at = some now },
      false,
    )
    else (
      record p {
        submitted = p.submitted + 1;
        tasks = p.tasks ++ record { key = p.submitted; phase = waiting } ∷ [];
      },
      true,
    )

unfoldable pub phase_of : ℕ → List Task → Option Phase
phase_of k [] = none
phase_of k (t ∷ ts) = elim (t.key == k) [ true ↦ some t.phase | false ↦ phase_of k ts ]

unfoldable pub discard : ℕ → List Task → List Task
discard k [] = []
discard k (t ∷ ts) = elim (t.key == k) [ true ↦ ts | false ↦ t ∷ discard k ts ]

unfoldable pub start : ℕ → List Task → List Task
start k [] = []
start k (t ∷ ts) = elim (t.key == k) [
  | true ↦ record t { phase = running } ∷ ts
  | false ↦ t ∷ start k ts
]

-- `async with self._sem` is entered and left.
unfoldable pub acquire : ℕ → Pool → Pool
unfolding start
acquire k p = record p { permits = p.permits - 1; tasks = start k p.tasks }

unfoldable pub release : Pool → Pool
release p = record p { permits = p.permits + 1 }

unfoldable pub on_done : ℕ → Pool → Pool
unfolding discard
on_done k p = record p { tasks = discard k p.tasks; completed = p.completed + 1 }

pub data Step : Pool → Pool → Type 0 where
  submits : (now : ℕ) (p : Pool) → Step p (submit now p).0
  enters :
      (k : ℕ) (p : Pool) → phase_of k p.tasks ≡ some waiting → 0 < p.permits → Step p (acquire k p)
  finishes : (k : ℕ) (p : Pool) → phase_of k p.tasks ≡ some running → Step p (on_done k (release p))
  cancels : (k : ℕ) (p : Pool) → phase_of k p.tasks ≡ some waiting → Step p (on_done k p)

pub data Reach (p : Pool) : Pool → Type 0 where
  here : Reach p p
  next : {q r : Pool} → Reach p q → Step q r → Reach p r

pub record Stats : Type 0 where
  pub outstanding : ℕ
  pub max_concurrent : ℕ
  pub max_outstanding : ℕ
  pub submitted : ℕ
  pub completed : ℕ
  pub shed : ℕ
  pub seconds_since_last_shed : Option ℕ
  pub shed_recently : Bool
  pub shed_window : ℕ
  pub at_capacity : Bool

unfoldable pub since_shed : ℕ → Option ℕ → Option ℕ
since_shed now none = none
since_shed now (some at) = some (now - at)

unfoldable pub is_recent : ℕ → Option ℕ → Bool
is_recent window none = false
is_recent window (some since) = leb since window

unfoldable pub stats : ℕ → Pool → Stats
unfolding since_shed is_recent
stats now p = record {
  outstanding = length p.tasks;
  max_concurrent = p.max_concurrent;
  max_outstanding = p.max_outstanding;
  submitted = p.submitted;
  completed = p.completed;
  shed = p.shed;
  seconds_since_last_shed = since_shed now p.last_shed_at;
  shed_recently = is_recent p.shed_window (since_shed now p.last_shed_at);
  shed_window = p.shed_window;
  at_capacity = leb p.max_outstanding (length p.tasks);
}
