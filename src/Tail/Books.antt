-- ===== src/Tail/Books.antt =====
-- compactor/main.py: `_run_memory_tail` and the ledger and the pool that it shares with the others.
use mathlib.Core.Logic.{inl, inr}
use zions_light_ai.Prelude.{
  ℕ, ◌+◌, ◌-◌, ◌<◌, ◌≡◌, refl, ap, sym, ◌∙◌, Bool, true, false, ◌&&◌, Option, none, some, List,
  length, ltb, if◌then◌else◌, arith, Bool-cases, lt→not-leb,
}
use zions_light_ai.Prelude.Int.{ℤ, pos}
use zions_light_ai.Prelude.Text.{Text}
use zions_light_ai.Prelude.Dict.{put, lookup-put, count}
use zions_light_ai.Sentence.{Chars}
use zions_light_ai.TailHealth.{
  State, Outcome, Outcome-discrete, stored, stored_trimmed, skipped_shed, note, note_correction,
  is_storing, note_stored, note_skipped,
}
use zions_light_ai.Bgwork.{Pool, submit}
use zions_light_ai.Bgwork.Counters.{submit_lem}
use zions_light_ai.Degrade as Degrade
use zions_light_ai.Degrade.{Config}
use zions_light_ai.Tail.{
  TailDecision, is_repeat_task_traffic, has_conversational_history, Exchange, Process,
  decide_memory_tail, skip, blocked_as, task_skip, check_store, tail_store_blocked, decide_cut,
  fire, fire_rollup, after_submit, run_memory_tail,
}
use zions_light_ai.Tail as Tail

count-put :
    (o : Outcome) (n : ℕ) (d : List (Outcome × ℕ))
    → count Outcome-discrete o (put Outcome-discrete o n d) ≡ n
count-put o n d = ground (arith, lookup-put Outcome-discrete o o n d)

note_counts :
    (now : ℕ) (o : Outcome) (raw kept : Option ℤ) (s : State)
    → ((note now o raw kept s).0.stored_count ≡ s.stored_count + (if is_storing o then 1 else 0))
      × ((note now o raw kept s).0.skipped ≡ s.skipped + (if is_storing o then 0 else 1))
      × (0 < count Outcome-discrete o (note now o raw kept s).0.outcomes)
unfolding note note_stored note_skipped
note_counts now o raw kept s = elim (Bool-cases (is_storing o)) [
  | inl e ↦ rw e (
    omega arith,
    omega arith,
    omega (arith, count-put o (count Outcome-discrete o s.outcomes + 1) s.outcomes),
  )
  | inr e ↦ rw e (
    omega arith,
    omega arith,
    omega (arith, count-put o (count Outcome-discrete o s.outcomes + 1) s.outcomes),
  )
]

correction_counts :
    (at : ℕ) (was : Outcome) (s : State)
    → is_storing was ≡ true
    → 0 < count Outcome-discrete was s.outcomes
    → let t = note_correction at was skipped_shed s in
      (t.stored_count ≡ s.stored_count - 1) × (t.skipped ≡ s.skipped + 1)
unfolding note_correction is_storing
correction_counts at was s h some_left =
    let q = lt→not-leb 0 (count Outcome-discrete was s.outcomes) some_left in rw (q, h) (refl, refl)

-- the label of a decision is a store's label exactly if it stores
abbrev Labelled : TailDecision → Type 0
Labelled d =
    (d.store ≡ is_storing d.outcome)
    × (d.store ≡ true → d.outcome ≡ (if d.reason then stored_trimmed else stored))

decide-Labelled :
    (chars : Chars) (is_degenerate : Text → Bool) (text : Text) (finished truncated holed : Bool)
    → Labelled (decide_memory_tail chars is_degenerate text finished truncated holed)
unfolding decide_memory_tail decide_cut skip is_storing
decide-Labelled chars is_degenerate text finished truncated holed = ground arith

blocked-not_storing :
    (config : Config) (x : Exchange) (disk : Degrade.State) (o : Outcome)
    → (tail_store_blocked config x disk).0 ≡ some o
    → is_storing o ≡ false
unfolding tail_store_blocked is_storing
blocked-not_storing config x disk o h = ground arith

task_skip-Labelled : (x : Exchange) (d : TailDecision) → Labelled d → Labelled (task_skip x d)
unfolding task_skip skip is_storing
task_skip-Labelled x d h =
    elim (Bool-cases (d.store && is_repeat_task_traffic x.position x.messages)) [
      | inl traffic ↦ rw traffic (refl, λ e. cc)
      | inr other ↦ rw other h
    ]

blocked_as-Labelled :
    (blocked : Option Outcome) (d : TailDecision)
    → ((o : Outcome) → blocked ≡ some o → is_storing o ≡ false)
    → Labelled d
    → Labelled (blocked_as blocked d)
unfolding blocked_as skip
blocked_as-Labelled none d b h = h
blocked_as-Labelled (some o) d b h = (sym (b o refl), λ e. cc)

check_store-Labelled :
    (config : Config) (x : Exchange) (d : TailDecision) (p : Process) (stores : Bool)
    → Labelled d
    → Labelled (check_store config x d p stores).0
unfolding check_store
check_store-Labelled config x d p false h = h
check_store-Labelled config x d p true h =
    task_skip-Labelled x _ (blocked_as-Labelled _ d (blocked-not_storing config x p.disk) h)

pub check_store-others :
    (config : Config) (x : Exchange) (d : TailDecision) (p : Process) (stores : Bool)
    → ((check_store config x d p stores).1.ledger ≡ p.ledger)
      × ((check_store config x d p stores).1.pool ≡ p.pool)
unfolding check_store
check_store-others config x d p false = (refl, refl)
check_store-others config x d p true = (refl, refl)

-- what one exchange does to the books: it is counted once, as what is decided, and a store has a
-- task of its own in the pool
abbrev pub Booked : Process → TailDecision → Process → Type 0
Booked p d q =
    (d.store ≡ is_storing d.outcome)
    × (q.ledger.stored_count ≡ p.ledger.stored_count + (if d.store then 1 else 0))
    × (q.ledger.skipped ≡ p.ledger.skipped + (if d.store then 0 else 1))
    × (d.store ≡ true → length q.pool.tasks ≡ length p.pool.tasks + 1)

fire_rollup-ledger :
    (x : Exchange) (d : TailDecision) (p : Process) → (fire_rollup x d p).ledger ≡ p.ledger
unfolding fire_rollup
fire_rollup-ledger x d p =
    elim (Bool-cases (ltb 0 d.raw_chars && has_conversational_history x.messages)) [
      | inl e ↦ rw e refl
      | inr e ↦ rw e refl
    ]

after_submit-Booked :
    (x : Exchange) (d : TailDecision) (p : Process) (s : State) (pool : Pool) (accepted : Bool)
    → d.store ≡ true
    → Labelled d
    → (accepted ≡ true → length p.pool.tasks ≡ length pool.tasks + 1)
    → (p.ledger.stored_count ≡ s.stored_count + 1)
      × (p.ledger.skipped ≡ s.skipped)
      × (0 < count Outcome-discrete d.outcome p.ledger.outcomes)
    → let (d', q) = after_submit x d p accepted in
      (d'.store ≡ is_storing d'.outcome)
      × (q.ledger.stored_count ≡ s.stored_count + (if d'.store then 1 else 0))
      × (q.ledger.skipped ≡ s.skipped + (if d'.store then 0 else 1))
      × (d'.store ≡ true → length q.pool.tasks ≡ length pool.tasks + 1)
unfolding after_submit skip is_storing
after_submit-Booked x d p s pool true e h grown c =
    (h.0, rw e c.0, rw e (omega (arith, c.1)), λ u. grown refl)
after_submit-Booked x d p s pool false e h grown c =
    let was = sym (h.1 e) in
    let t =
      correction_counts x.now (if d.reason then stored_trimmed else stored) p.ledger
        (rw was (sym h.0 ∙ e)) (rw was c.2) in
    (refl, omega (arith, t, c), omega (arith, t, c), λ u. cc)

fire-Booked :
    (x : Exchange) (d : TailDecision) (p : Process) (stores : Bool)
    → d.store ≡ stores
    → Labelled d
    → let r = fire x d (Tail.count x d p) stores in Booked p r.0 r.1
unfolding fire Tail.count
fire-Booked x d p true e h =
    let n =
      note_counts x.now d.outcome (some (pos d.raw_chars))
        (some (pos (if d.store then length d.text else 0))) p.ledger in
    let storing : is_storing d.outcome ≡ true = sym h.0 ∙ e in
    after_submit-Booked x d _ p.ledger p.pool (submit x.now p.pool).1 e h
      (λ u. ((submit_lem x.now p.pool).0 u).1)
      (n.0 ∙ rw storing refl, n.1 ∙ rw storing (omega arith), n.2)
fire-Booked x d p false e h =
    let n =
      note_counts x.now d.outcome (some (pos d.raw_chars))
        (some (pos (if d.store then length d.text else 0))) p.ledger in
    let same = fire_rollup-ledger x d (Tail.count x d p) in
    (
      h.0,
      ap (λ l. l.stored_count) same
          ∙ n.0
          ∙ ap (λ b. p.ledger.stored_count + (if b then 1 else 0)) (sym h.0),
      ap (λ l. l.skipped) same ∙ n.1 ∙ ap (λ b. p.ledger.skipped + (if b then 0 else 1)) (sym h.0),
      λ u. cc,
    )

module _ (chars : Chars) (is_degenerate : Text → Bool) (config : Config) where
  -- One exchange is counted once: as a store exactly if the decision that is returned stores, whose
  -- label says the same. A store has a new task in the pool. So a store that the disk, the missing
  -- user text, task traffic or the pool stops is never counted as one.
  pub run_memory_tail-Booked :
      (x : Exchange) (p : Process)
      → let r = run_memory_tail chars is_degenerate config x p in Booked p r.0 r.1
  unfolding run_memory_tail
  run_memory_tail-Booked x p =
      let decided = decide_memory_tail chars is_degenerate x.text x.finished x.truncated x.holed in
      let checked = check_store config x decided p decided.store in
      let others = check_store-others config x decided p decided.store in
      let labelled =
        check_store-Labelled config x decided p decided.store
          (decide-Labelled chars is_degenerate x.text x.finished x.truncated x.holed) in
      let booked = fire-Booked x checked.0 checked.1 checked.0.store refl labelled in
      (
        booked.0,
        omega (arith, booked.1, ap (λ l. l.stored_count) others.0),
        omega (arith, booked.2, ap (λ l. l.skipped) others.0),
        λ e. booked.3 e ∙ ap (λ o. length o.tasks + 1) others.1,
      )
