-- ===== src/Bgwork/Tasks.antt =====
-- compactor/bgwork.py: what starting and ending a task does to the set of tasks.
use zions_light_ai.Prelude.{
  ℕ, suc, ◌+◌, ◌≤◌, ◌≡◌, refl, ◌⊎◌, inl, inr, ◌++◌, ◌==◌, Bool-cases, some, List, [], ◌∷◌, length,
  sum_by, arith,
}
use zions_light_ai.Bgwork.{Task, Phase, waiting, running, phase_of, discard, start}

abbrev pub permit_of : Phase → ℕ
permit_of waiting = 0
permit_of running = 1

-- the permits that the tasks hold
abbrev pub held : List Task → ℕ
held = sum_by (λ t. permit_of t.phase)

pub length-discard :
    (k : ℕ) (ts : List Task) (ph : Phase)
    → phase_of k ts ≡ some ph
    → length (discard k ts) + 1 ≡ length ts
unfolding phase_of discard
length-discard k [] ph h = ground arith
length-discard k (t ∷ ts) ph h = ground (arith, length-discard k ts ph)

pub held-discard :
    (k : ℕ) (ts : List Task) (ph : Phase)
    → phase_of k ts ≡ some ph
    → held (discard k ts) + permit_of ph ≡ held ts
unfolding phase_of discard
held-discard k [] ph h = ground arith
held-discard k (t ∷ ts) ph h = ground (arith, held-discard k ts ph)

pub length-start : (k : ℕ) (ts : List Task) → length (start k ts) ≡ length ts
unfolding start
length-start k [] = omega arith
length-start k (t ∷ ts) = ground (arith, length-start k ts)

pub held-start :
    (k : ℕ) (ts : List Task) → phase_of k ts ≡ some waiting → held (start k ts) ≡ held ts + 1
unfolding phase_of start
held-start k [] h = ground arith
held-start k (t ∷ ts) h = ground (arith, held-start k ts)

pub phase_of-start :
    (k : ℕ) (ts : List Task) → phase_of k ts ≡ some waiting → phase_of k (start k ts) ≡ some running
unfolding phase_of start
phase_of-start k [] h = ground arith
phase_of-start k (t ∷ ts) h = ground (arith, phase_of-start k ts)

-- The keys rise from `lo` on and stay below `hi`: they are the counts of the submissions.
abbrev pub Rising : ℕ → ℕ → List Task → Type 0
Rising lo hi [] = lo ≤ hi
Rising lo hi (t ∷ ts) = (lo ≤ t.key) × Rising (suc t.key) hi ts

Rising-weaken : (lo lo' hi : ℕ) (ts : List Task) → lo' ≤ lo → Rising lo hi ts → Rising lo' hi ts
Rising-weaken lo lo' hi [] h r = omega arith
Rising-weaken lo lo' hi (t ∷ ts) h r = (omega arith, r.1)

pub Rising-append :
    (lo hi : ℕ) (ts : List Task) (ph : Phase)
    → Rising lo hi ts
    → Rising lo (hi + 1) (ts ++ record { key = hi; phase = ph } ∷ [])
Rising-append lo hi [] ph r = (r, omega arith)
Rising-append lo hi (t ∷ ts) ph r = (r.0, Rising-append (suc t.key) hi ts ph r.1)

pub Rising-hi : (lo hi : ℕ) (ts : List Task) → Rising lo hi ts → Rising lo (hi + 1) ts
Rising-hi lo hi [] r = omega arith
Rising-hi lo hi (t ∷ ts) r = (r.0, Rising-hi (suc t.key) hi ts r.1)

pub Rising-start : (k lo hi : ℕ) (ts : List Task) → Rising lo hi ts → Rising lo hi (start k ts)
unfolding start
Rising-start k lo hi [] r = r
Rising-start k lo hi (t ∷ ts) r = ground (arith, Rising-start k (suc t.key) hi ts r.1)

pub Rising-discard : (k lo hi : ℕ) (ts : List Task) → Rising lo hi ts → Rising lo hi (discard k ts)
unfolding discard
Rising-discard k lo hi [] r = r
Rising-discard k lo hi (t ∷ ts) r = elim (Bool-cases (t.key == k)) [
  | inl e ↦ rw (e, Rising) (Rising-weaken (suc t.key) lo hi ts (omega arith) r.1)
  | inr e ↦ rw (e, Rising) (r.0, Rising-discard k (suc t.key) hi ts r.1)
]

Phase-cases : (ph : Phase) → (ph ≡ waiting) ⊎ (ph ≡ running)
Phase-cases waiting = inl refl
Phase-cases running = inr refl

-- Either some task runs, or no permit is held.
pub find_running :
    (lo hi : ℕ) (ts : List Task)
    → Rising lo hi ts
    → ((k : ℕ) × (lo ≤ k) × (phase_of k ts ≡ some running)) ⊎ (held ts ≡ 0)
unfolding phase_of
find_running lo hi [] r = inr refl
find_running lo hi (t ∷ ts) r = elim (Phase-cases t.phase) [
  | inl e ↦ elim (find_running (suc t.key) hi ts r.1) [
    | inl (k, above, found) ↦ inl (k, omega arith, ground arith)
    | inr none_held ↦ inr (ground arith)
  ]
  | inr e ↦ inl (t.key, r.0, ground arith)
]
