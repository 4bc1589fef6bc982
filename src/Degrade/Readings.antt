-- ===== src/Degrade/Readings.antt =====
-- compactor/degrade.py: every answer is the verdict on a reading that was taken, and the log speaks
-- only where the verdict turns.
use zions_light_ai.Prelude.{
  ℕ, suc, ◌+◌, ◌<◌, ◌≡◌, refl, Bool, true, false, not, Option, none, some, List, [], ◌∷◌, ◌⊎◌, inl,
  inr, if◌then◌else◌, Bool-cases, ltb, tests, arith,
}
use zions_light_ai.Degrade.{
  Config, Reading, State, Line, pressure, cleared, Answer, enough, probe, from_cache,
  writes_allowed, init,
}

-- one call of `writes_allowed`: the clock, the free space that it would read, and `fresh`
pub record Call : Type 0 where
  pub now : ℕ
  pub free : Option ℕ
  pub fresh : Bool

-- the verdict of a cached reading is the one on its free space, and is what the log last said
abbrev pub Agrees : Config → Bool → Option Reading → Type 0
Agrees c blocked none = Unit {0}
Agrees c blocked (some r) = (r.allowed ≡ enough c.min_free r.free) × (blocked ≡ not r.allowed)

-- a reading was taken by one of the calls
abbrev pub Taken : Config → List Call → Reading → Type 0
Taken c [] r = ⊥
Taken c (k ∷ ks) r = ((k.free ≡ r.free) × (r.expires ≡ k.now + c.check_ttl)) ⊎ Taken c ks r

abbrev pub TakenIf : Config → List Call → Option Reading → Type 0
TakenIf c ks none = Unit {0}
TakenIf c ks (some r) = Taken c ks r

-- one of the calls read this free space less than the time to live before `now`
abbrev pub Recent : Config → ℕ → Option ℕ → List Call → Type 0
Recent c now free [] = ⊥
Recent c now free (k ∷ ks) = ((k.free ≡ free) × (now < k.now + c.check_ttl)) ⊎ Recent c now free ks

-- how many warnings, and how many notices, there are after a line
abbrev pub warned : Line → ℕ → ℕ
warned pressure n = suc n
warned _ n = n

abbrev pub noticed : Line → ℕ → ℕ
noticed cleared n = suc n
noticed _ n = n

-- the four ways of a probe
probe-Agrees :
    (c : Config) (now : ℕ) (free : Option ℕ) (s : State)
    → Agrees c (probe c now free s).state.last_logged_blocked (probe c now free s).state.cache
unfolding probe
probe-Agrees c now free s = (refl, ground arith)

from_cache-Agrees :
    (c : Config) (now : ℕ) (free : Option ℕ) (s : State) (o : Option Reading)
    → s.cache ≡ o
    → Agrees c s.last_logged_blocked o
    → Agrees c
        (from_cache c now free s o).state.last_logged_blocked
        (from_cache c now free s o).state.cache
unfolding from_cache
from_cache-Agrees c now free s none e h = probe-Agrees c now free s
from_cache-Agrees c now free s (some r) e h = elim (Bool-cases (ltb now r.expires)) [
  | inl fit ↦ rw (fit, from_cache, e) h
  | inr late ↦ rw (late, from_cache) (probe-Agrees c now free s)
]

step-Agrees :
    (c : Config) (fresh : Bool) (now : ℕ) (free : Option ℕ) (s : State)
    → Agrees c s.last_logged_blocked s.cache
    → Agrees c
        (writes_allowed c fresh now free s).state.last_logged_blocked
        (writes_allowed c fresh now free s).state.cache
unfolding writes_allowed
step-Agrees c true now free s h =
    from_cache-Agrees c now free (record s { cache = none }) none refl tt
step-Agrees c false now free s h = from_cache-Agrees c now free s s.cache refl h

from_cache-Taken :
    (c : Config) (k : Call) (ks : List Call) (s : State) (o : Option Reading)
    → s.cache ≡ o
    → TakenIf c ks o
    → TakenIf c (k ∷ ks) (from_cache c k.now k.free s o).state.cache
unfolding from_cache
from_cache-Taken c k ks s none e h = inl (refl, refl)
from_cache-Taken c k ks s (some r) e h = elim (Bool-cases (ltb k.now r.expires)) [
  | inl fit ↦ rw (fit, from_cache, e) (inr h)
  | inr late ↦ rw (late, from_cache) (inl (refl, refl))
]

step-Taken :
    (c : Config) (fresh : Bool) (now : ℕ) (free : Option ℕ) (ks : List Call) (s : State)
    → TakenIf c ks s.cache
    → TakenIf c
        (record { now = now; free = free; fresh = fresh } ∷ ks)
        (writes_allowed c fresh now free s).state.cache
unfolding writes_allowed
step-Taken c true now free ks s h = inl (refl, refl)
step-Taken c false now free ks s h =
    from_cache-Taken c (record { now = now; free = free; fresh = false }) ks s s.cache refl h

Taken-Recent :
    (c : Config) (now : ℕ) (r : Reading) (ks : List Call)
    → now < r.expires
    → Taken c ks r
    → Recent c now r.free ks
Taken-Recent c now r [] h t = elim t [ ]
Taken-Recent c now r (k ∷ ks) h (inl (read, until)) = inl (read, omega arith)
Taken-Recent c now r (k ∷ ks) h (inr t) = inr (Taken-Recent c now r ks h t)

from_cache-Recent :
    (c : Config) (now : ℕ) (free : Option ℕ) (ks : List Call) (s : State) (o : Option Reading)
    → TakenIf c ks o
    → ((from_cache c now free s o).free ≡ free) ⊎ Recent c now (from_cache c now free s o).free ks
unfolding from_cache
from_cache-Recent c now free ks s none h = inl refl
from_cache-Recent c now free ks s (some r) h = elim (Bool-cases (ltb now r.expires)) [
  | inl fit ↦ rw (fit, from_cache) (inr (Taken-Recent c now r ks (omega tests) h))
  | inr late ↦ rw (late, from_cache) (inl refl)
]

from_cache-enough :
    (c : Config) (now : ℕ) (free : Option ℕ) (s : State) (o : Option Reading)
    → Agrees c s.last_logged_blocked o
    → (from_cache c now free s o).allowed ≡ enough c.min_free (from_cache c now free s o).free
unfolding from_cache
from_cache-enough c now free s none h = refl
from_cache-enough c now free s (some r) h = ground arith

from_cache_blocked :
    (c : Config) (now : ℕ) (free : Option ℕ) (s : State) (o : Option Reading)
    → s.cache ≡ o
    → Agrees c s.last_logged_blocked o
    → (from_cache c now free s o).state.last_logged_blocked
      ≡ not (from_cache c now free s o).allowed
unfolding from_cache probe
from_cache_blocked c now free s none e h = ground arith
from_cache_blocked c now free s (some r) e h = ground arith

step_blocked :
    (c : Config) (fresh : Bool) (now : ℕ) (free : Option ℕ) (s : State)
    → Agrees c s.last_logged_blocked s.cache
    → (writes_allowed c fresh now free s).state.last_logged_blocked
      ≡ not (writes_allowed c fresh now free s).allowed
unfolding writes_allowed
step_blocked c true now free s h =
    from_cache_blocked c now free (record s { cache = none }) none refl tt
step_blocked c false now free s h = from_cache_blocked c now free s s.cache refl h

warning_count :
    (w i : ℕ) (blocked allowed : Bool)
    → w ≡ i + (if blocked then 1 else 0)
    → blocked ≡ not allowed
    → w ≡ i + (if allowed then 0 else 1)
warning_count w i true true h e = cc
warning_count w i true false h e = h
warning_count w i false true h e = h
warning_count w i false false h e = cc

-- The log turns with its flag.
step_turns :
    (c : Config) (fresh : Bool) (now : ℕ) (free : Option ℕ) (s : State) (w i : ℕ)
    → w ≡ i + (if s.last_logged_blocked then 1 else 0)
    → warned (writes_allowed c fresh now free s).line w
      ≡ noticed (writes_allowed c fresh now free s).line i
        + (if (writes_allowed c fresh now free s).state.last_logged_blocked then 1 else 0)
unfolding writes_allowed
step_turns c fresh now free s w i h = ground arith

module _ (c : Config) where
  unfoldable pub answer : Call → State → Answer
  answer k s = writes_allowed c k.fresh k.now k.free s

  -- the state, and the warnings and the notices logged, after a history, its newest call first
  unfoldable pub after : List Call → State
  after [] = init
  after (k ∷ ks) = (answer k (after ks)).state

  abbrev pub warnings : List Call → ℕ
  warnings [] = 0
  warnings (k ∷ ks) = warned (answer k (after ks)).line (warnings ks)

  abbrev pub infos : List Call → ℕ
  infos [] = 0
  infos (k ∷ ks) = noticed (answer k (after ks)).line (infos ks)

  after-Agrees : (ks : List Call) → Agrees c (after ks).last_logged_blocked (after ks).cache
  unfolding after answer
  after-Agrees [] = tt
  after-Agrees (k ∷ ks) = step-Agrees c k.fresh k.now k.free (after ks) (after-Agrees ks)

  after-Taken : (ks : List Call) → TakenIf c ks (after ks).cache
  unfolding after answer
  after-Taken [] = tt
  after-Taken (k ∷ ks) = step-Taken c k.fresh k.now k.free ks (after ks) (after-Taken ks)

  -- After any history of calls, a call that asks for a fresh reading is answered by the free space
  -- of its own moment. Any other is answered by that or by the reading of an earlier call whose
  -- time to live has not run out. The verdict is always that of the reading it is given with.
  pub answer-after :
      (now : ℕ) (free : Option ℕ) (ks : List Call)
      → ((answer (record { now = now; free = free; fresh = true }) (after ks)).free ≡ free)
        × ((answer (record { now = now; free = free; fresh = true }) (after ks)).allowed
            ≡ enough c.min_free free)
        × (((answer (record { now = now; free = free; fresh = false }) (after ks)).free ≡ free)
            ⊎ Recent c now
                (answer (record { now = now; free = free; fresh = false }) (after ks)).free
                ks)
        × ((answer (record { now = now; free = free; fresh = false }) (after ks)).allowed
            ≡ enough c.min_free
                (answer (record { now = now; free = free; fresh = false }) (after ks)).free)
  unfolding answer writes_allowed
  answer-after now free ks = (
    refl,
    refl,
    from_cache-Recent c now free ks (after ks) (after ks).cache (after-Taken ks),
    from_cache-enough c now free (after ks) (after ks).cache (after-Agrees ks),
  )

  flag_turns :
      (ks : List Call) → warnings ks ≡ infos ks + (if (after ks).last_logged_blocked then 1 else 0)
  unfolding after answer
  flag_turns [] = refl
  flag_turns (k ∷ ks) =
      step_turns c k.fresh k.now k.free (after ks) (warnings ks) (infos ks) (flag_turns ks)

  after_blocked :
      (k : Call) (ks : List Call)
      → (after (k ∷ ks)).last_logged_blocked ≡ not (answer k (after ks)).allowed
  unfolding after answer
  after_blocked k ks = step_blocked c k.fresh k.now k.free (after ks) (after-Agrees ks)

  -- The log speaks only where the verdict turns: after any call of any history, as many warnings of
  -- disk pressure as notices that it cleared have been logged if that call allowed writes, and one
  -- more if it refused them.
  pub warnings-infos :
      (k : Call) (ks : List Call)
      → warnings (k ∷ ks) ≡ infos (k ∷ ks) + (if (answer k (after ks)).allowed then 0 else 1)
  warnings-infos k ks =
      warning_count (warnings (k ∷ ks)) (infos (k ∷ ks)) (after (k ∷ ks)).last_logged_blocked
        (answer k (after ks)).allowed (flag_turns (k ∷ ks)) (after_blocked k ks)
