-- ===== src/Tail.antt =====
-- compactor/main.py: what a reply contributes to memory, and the part of the request path that
-- decides, counts and fires it. `reply_is_degenerate` is an argument. Texts of reasons are left out.
pub mod Replies
pub mod Books
pub mod Serves
use zions_light_ai.Prelude.{
  ℕ, ◌-◌, Bool, true, false, not, ◌&&◌, ◌||◌, Option, none, some, List, [], ◌∷◌, length, ltb, leb,
  any, if◌then◌else◌,
}
use zions_light_ai.Prelude.Int.{pos}
use zions_light_ai.Prelude.Text.{Text, is_blank}
use zions_light_ai.Sentence.{Chars, trim_to_last_sentence}
use zions_light_ai.TailHealth.{
  State, Outcome, stored, stored_trimmed, skipped_holed, skipped_empty, skipped_degenerate,
  skipped_no_boundary, skipped_too_short, skipped_degenerate_partial, skipped_disk_pressure,
  skipped_no_user_text, skipped_task_traffic, skipped_shed, note, note_correction,
}
use zions_light_ai.Bgwork.{Pool, submit}
use zions_light_ai.Degrade
use zions_light_ai.Degrade.{Config, guard}

pub record TailDecision : Type 0 where
  pub store : Bool
  pub text : Text
  pub outcome : Outcome
  -- whether there is a reason
  pub reason : Bool
  pub raw_chars : ℕ

abbrev pub min_memorable_trimmed_chars : ℕ
min_memorable_trimmed_chars = 300

abbrev pub task_traffic_min_position : ℕ
task_traffic_min_position = 4

pub data Role : Type 0 where
  system user assistant tool : Role

pub data Message : Type 0 where
  dict : Role → Message
  not_a_dict : Message

abbrev pub is_assistant : Message → Bool
is_assistant (dict assistant) = true
is_assistant _ = false

unfoldable pub has_conversational_history : List Message → Bool
has_conversational_history messages = any is_assistant messages

-- `position` is none where the state of the conversation cannot be read.
unfoldable pub deep_enough : Option ℕ → Bool
deep_enough none = false
deep_enough (some position) = leb task_traffic_min_position position

unfoldable pub is_repeat_task_traffic : Option ℕ → List Message → Bool
unfolding has_conversational_history deep_enough
is_repeat_task_traffic position messages =
    if has_conversational_history messages then false else deep_enough position

-- what one exchange hands to `_run_memory_tail`, with the moment and the free space then
pub record Exchange : Type 0 where
  pub text : Text
  pub finished : Bool
  pub truncated : Bool
  pub holed : Bool
  pub last_user_text : Text
  pub messages : List Message
  pub position : Option ℕ
  pub now : ℕ
  pub free : Option ℕ

-- the state of the modules that `_run_memory_tail` calls
pub record Process : Type 0 where
  pub ledger : State
  pub pool : Pool
  pub disk : Degrade.State

unfoldable pub skip : Outcome → ℕ → TailDecision
skip outcome raw = record {
  store = false;
  text = [];
  outcome = outcome;
  reason = true;
  raw_chars = raw;
}

unfoldable pub has_pairable_user_text : Text → Bool
has_pairable_user_text t = not (is_blank t)

unfoldable pub tail_store_blocked :
    Config → Exchange → Degrade.State → Option Outcome × Degrade.State
unfolding has_pairable_user_text
tail_store_blocked config x disk =
    let (allowed, disk') = guard config false x.now x.free disk in
    (
      if not allowed
          then some skipped_disk_pressure
          else if not (has_pairable_user_text x.last_user_text)
          then some skipped_no_user_text
          else none,
      disk',
    )

unfoldable pub task_skip : Exchange → TailDecision → TailDecision
unfolding is_repeat_task_traffic skip
task_skip x d =
    if d.store && is_repeat_task_traffic x.position x.messages
    then skip skipped_task_traffic d.raw_chars
    else d

unfoldable pub blocked_as : Option Outcome → TailDecision → TailDecision
unfolding skip
blocked_as none d = d
blocked_as (some outcome) d = skip outcome d.raw_chars

-- the decision with what stops its store, and the process after the check
unfoldable pub check_store :
    Config → Exchange → TailDecision → Process → Bool → TailDecision × Process
unfolding tail_store_blocked blocked_as task_skip
check_store config x d p false = (d, p)
check_store config x d p true =
    let (blocked, disk') = tail_store_blocked config x p.disk in
    (task_skip x (blocked_as blocked d), record p { disk = disk' })

unfoldable pub count : Exchange → TailDecision → Process → Process
count x d p = record p {
  ledger =
      (note x.now d.outcome (some (pos d.raw_chars))
        (some (pos (if d.store then length d.text else 0))) p.ledger).0;
}

-- a reply that is not stored: the rollup of the history is still submitted
unfoldable pub fire_rollup : Exchange → TailDecision → Process → Process
fire_rollup x d p =
    if ltb 0 d.raw_chars && has_conversational_history x.messages
    then record p { pool = (submit x.now p.pool).0 }
    else p

-- a store that the pool accepts, and one that it sheds
unfoldable pub after_submit : Exchange → TailDecision → Process → Bool → TailDecision × Process
unfolding skip
after_submit x d p true = (d, p)
after_submit x d p false = (
  skip skipped_shed d.raw_chars,
  record p {
    ledger =
        note_correction x.now (if d.reason then stored_trimmed else stored) skipped_shed p.ledger;
  },
)

unfoldable pub fire : Exchange → TailDecision → Process → Bool → TailDecision × Process
unfolding fire_rollup after_submit
fire x d p false = (d, fire_rollup x d p)
fire x d p true =
    let (pool', accepted) = submit x.now p.pool in
    after_submit x d (record p { pool = pool' }) accepted

module _ (chars : Chars) (is_degenerate : Text → Bool) where
  -- the part of `decide_memory_tail` for a reply that was cut
  unfoldable pub decide_cut : Text → ℕ → TailDecision
  unfolding skip
  decide_cut kept raw =
      if leb (length kept) 0
      then skip skipped_no_boundary raw
      else if ltb (length kept) min_memorable_trimmed_chars
      then skip skipped_too_short raw
      else if is_degenerate kept
      then skip skipped_degenerate_partial raw
      else record {
        store = true;
        text = kept;
        outcome = stored_trimmed;
        reason = true;
        raw_chars = raw;
      }

  unfoldable pub decide_memory_tail : Text → Bool → Bool → Bool → TailDecision
  unfolding skip decide_cut
  decide_memory_tail text finished truncated holed =
      if holed
      then skip skipped_holed (length text)
      else if is_blank text
      then skip skipped_empty (length text)
      else if finished && not truncated
      then (if is_degenerate text then skip skipped_degenerate (length text) else record {
        store = true;
        text = text;
        outcome = stored;
        reason = false;
        raw_chars = length text;
      })
      else decide_cut (trim_to_last_sentence chars text) (length text)

  unfoldable pub run_memory_tail : Config → Exchange → Process → TailDecision × Process
  unfolding decide_memory_tail check_store count fire
  run_memory_tail config x p =
      let decided = decide_memory_tail x.text x.finished x.truncated x.holed in
      let (d, p₁) = check_store config x decided p decided.store in fire x d (count x d p₁) d.store
