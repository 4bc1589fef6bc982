-- ===== src/Tests/TailHealth.antt =====
-- A store that is trimmed, an empty reply, a store that the pool sheds, and the ledger after them.
use mathlib.Core.Path.{◌≡◌, refl}
unfoldable use native.Mathlib.Decide.{ℕ_discrete}
use zions_light_ai.Prelude.{some, List, [], ◌∷◌, leb}
use zions_light_ai.Prelude.Int.{pos, negsuc}
use zions_light_ai.Prelude.Dict.{put, lookup}
use zions_light_ai.TailHealth.{
  State, stored, stored_trimmed, skipped_empty, skipped_shed, is_storing, init, note,
  note_correction, snapshot, within, since, window_of, empty_run_degrade, Outcome-discrete,
}
use zions_light_ai.TailHealth.Ledger.{Reach, start, noted, corrects, IsSound, Reach-Ledger-IsSound}
use zions_light_ai.TailHealth.History.{
  Decision, Tracks, after, after-Tracks, snapshot-after, streak, newest, is_empty, is_lossy,
}

abbrev trimmed_then_empty : List Decision
trimmed_then_empty =
    record { time = 90; outcome = skipped_empty; raw = some (pos 0); kept = some (negsuc 4) }
    ∷ record { time = 50; outcome = stored_trimmed; raw = some (pos 400); kept = some (pos 320) }
    ∷ []

abbrev shed_after : State
shed_after =
    note_correction 100 stored skipped_shed
      (note 95 stored (some (pos 80)) (some (pos 80)) (after trimmed_then_empty)).0

ledger : (shed_after.stored_count ≡ 1) × (shed_after.skipped ≡ 2) × (shed_after.raw_chars ≡ 480)
unfolding after init note note_correction put lookup Outcome-discrete ℕ_discrete
ledger = (refl, refl, refl)

shed_after-Reach : Reach shed_after
unfolding after is_storing
shed_after-Reach =
    corrects 100 stored skipped_shed
      (noted 95 stored (some (pos 80)) (some (pos 80)) (
        noted 90 skipped_empty (some (pos 0)) (some (negsuc 4))
          (noted 50 stored_trimmed (some (pos 400)) (some (pos 320)) start)))
      refl refl

Reach-Ledger-IsSound_example : IsSound shed_after
Reach-Ledger-IsSound_example = Reach-Ledger-IsSound shed_after-Reach

after-Tracks_example : Tracks trimmed_then_empty (after trimmed_then_empty)
after-Tracks_example = after-Tracks trimmed_then_empty

snapshot-after_example :
    ((snapshot 100 3000 (some 0) (after trimmed_then_empty)).skipped_recently
      ≡ within (window_of 3000 (some 0)) (since 100 (newest is_lossy trimmed_then_empty)))
    × ((snapshot 100 3000 (some 0) (after trimmed_then_empty)).empty_replies_degraded
        ≡ leb empty_run_degrade (streak is_empty trimmed_then_empty))
snapshot-after_example = snapshot-after 100 3000 (some 0) trimmed_then_empty
