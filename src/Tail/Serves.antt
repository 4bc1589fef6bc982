-- ===== src/Tail/Serves.antt =====
-- compactor/main.py: any sequence of exchanges that `_run_memory_tail` is called for, between any
-- steps of the background pool.
use mathlib.Core.Logic.{inl, inr}
use mathlib.Core.Path.{subst}
use zions_light_ai.Prelude.{
  ℕ, ◌+◌, ◌≡◌, refl, sym, Bool, true, false, ◌&&◌, ltb, if◌then◌else◌, arith, Bool-cases,
}
use zions_light_ai.Prelude.Text.{Text}
use zions_light_ai.Sentence.{Chars}
use zions_light_ai.TailHealth.{
  State, Outcome, Outcome-discrete, stored, stored_trimmed, skipped_shed, note, note_correction,
  is_storing, is_harmless, note_stored, note_skipped,
}
use zions_light_ai.TailHealth as TailHealth
use zions_light_ai.TailHealth.Ledger
use zions_light_ai.Bgwork
use zions_light_ai.Bgwork.{Pool, submit, submits}
use zions_light_ai.Bgwork.Counters
use zions_light_ai.Bgwork.Counters.{submit_lem}
use zions_light_ai.Degrade as Degrade
use zions_light_ai.Degrade.{Config}
use zions_light_ai.Tail.{
  TailDecision, is_repeat_task_traffic, has_conversational_history, Exchange, Process,
  decide_memory_tail, skip, blocked_as, task_skip, check_store, tail_store_blocked, decide_cut,
  fire, fire_rollup, after_submit, run_memory_tail,
}
use zions_light_ai.Tail as Tail
use zions_light_ai.Tail.Books.{run_memory_tail-Booked, check_store-others}

-- the books of a process: both of its records are sound
abbrev pub Sound : Process → Type 0
Sound p = Ledger.Reach p.ledger × Counters.IsSound p.pool

fire_rollup-Sound :
    (x : Exchange) (d : TailDecision) (p : Process) → Sound p → Sound (fire_rollup x d p)
unfolding fire_rollup
fire_rollup-Sound x d p h =
    elim (Bool-cases (ltb 0 d.raw_chars && has_conversational_history x.messages)) [
      | inl e ↦ rw e (h.0, Counters.Step-IsSound (submits x.now p.pool) h.1)
      | inr e ↦ rw e h
    ]

either : (reason : Bool) → is_storing (if reason then stored_trimmed else stored) ≡ true
unfolding is_storing
either true = refl
either false = refl

after_submit-Sound :
    (x : Exchange) (d : TailDecision) (p : Process) (accepted : Bool)
    → Sound p
    → Sound (after_submit x d p accepted).1
unfolding after_submit is_storing
after_submit-Sound x d p true h = h
after_submit-Sound x d p false h = (
  Ledger.corrects x.now (if d.reason then stored_trimmed else stored) skipped_shed h.0
      (either d.reason) refl,
  h.1,
)

fire_counted-Sound :
    (x : Exchange) (d : TailDecision) (p : Process) (stores : Bool)
    → Sound p
    → Sound (fire x d p stores).1
unfolding fire
fire_counted-Sound x d p true h =
    after_submit-Sound x d _ (submit x.now p.pool).1
      (h.0, Counters.Step-IsSound (submits x.now p.pool) h.1)
fire_counted-Sound x d p false h = fire_rollup-Sound x d p h

fire-Sound :
    (x : Exchange) (d : TailDecision) (p : Process) (stores : Bool)
    → Sound p
    → Sound (fire x d (Tail.count x d p) stores).1
unfolding fire Tail.count
fire-Sound x d p stores h =
    fire_counted-Sound x d (Tail.count x d p) stores (Ledger.noted x.now d.outcome _ _ h.0, h.1)

abbrev pub start_process : ℕ → ℕ → ℕ → Process
start_process capacity outstanding window = record {
  ledger = TailHealth.init;
  pool = Bgwork.init capacity outstanding window;
  disk = Degrade.init;
}

module _ (chars : Chars) (is_degenerate : Text → Bool) (config : Config) where
  -- the processes that exchanges and the pool's own steps reach, with the numbers of exchanges that
  -- were stored and that were not
  pub data Serves (capacity outstanding window : ℕ) : ℕ → ℕ → Process → Type 0 where
    fresh : Serves capacity outstanding window 0 0 (start_process capacity outstanding window)
    exchanges :
        {s n : ℕ} {p : Process} (x : Exchange)
        → Serves capacity outstanding window s n p
        → Serves capacity outstanding window
            (s + (if (run_memory_tail chars is_degenerate config x p).0.store then 1 else 0))
            (n + (if (run_memory_tail chars is_degenerate config x p).0.store then 0 else 1))
            (run_memory_tail chars is_degenerate config x p).1
    works :
        {s n : ℕ} {p : Process} {pool : Pool}
        → Serves capacity outstanding window s n p
        → Bgwork.Step p.pool pool
        → Serves capacity outstanding window s n (record p { pool = pool })

  run_memory_tail-Sound :
      (x : Exchange) (p : Process)
      → Sound p
      → Sound (run_memory_tail chars is_degenerate config x p).1
  unfolding run_memory_tail
  run_memory_tail-Sound x p h =
      let decided = decide_memory_tail chars is_degenerate x.text x.finished x.truncated x.holed in
      let checked = check_store config x decided p decided.store in
      let others = check_store-others config x decided p decided.store in
      fire-Sound x checked.0 checked.1 checked.0.store
        (subst Ledger.Reach (sym others.0) h.0, subst Counters.IsSound (sym others.1) h.1)

  Serves-Kept :
      (c o w : ℕ) {s n : ℕ} {p : Process}
      → Serves c o w s n p
      → (p.ledger.stored_count ≡ s) × (p.ledger.skipped ≡ n) × Sound p
  unfolding TailHealth.init
  Serves-Kept c o w fresh = (refl, refl, (Ledger.start, Counters.init-IsSound c o w))
  Serves-Kept c o w (exchanges {s} {n} {p} x h) =
      let (a, b, sound) = Serves-Kept c o w h in
      let booked = run_memory_tail-Booked chars is_degenerate config x p in
      (omega (arith, booked.1, a), omega (arith, booked.2, b), run_memory_tail-Sound x p sound)
  Serves-Kept c o w (works {s} {n} {p} h step) =
      let (a, b, sound) = Serves-Kept c o w h in
      (a, b, (sound.0, Counters.Step-IsSound step sound.1))

  -- After any exchanges, between any starts and ends of background tasks: the ledger's counters are
  -- the numbers of exchanges that were stored and that were not, and both the ledger and the pool
  -- are sound.
  pub Serves-counts :
      (c o w : ℕ) {s n : ℕ} {p : Process}
      → Serves c o w s n p
      → (p.ledger.stored_count ≡ s)
        × (p.ledger.skipped ≡ n)
        × Ledger.IsSound p.ledger
        × Counters.IsSound p.pool
  Serves-counts c o w h =
      let t = Serves-Kept c o w h in (t.0, t.1, Ledger.Reach-Ledger-IsSound t.2.0, t.2.1)
