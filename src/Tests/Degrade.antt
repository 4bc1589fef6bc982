-- ===== src/Tests/Degrade.antt =====
-- A disk that fills, is asked about again within the time to live, and clears.
use mathlib.Core.Path.{◌≡◌, refl}
use zions_light_ai.Prelude.{◌+◌, true, false, some, List, [], ◌∷◌, ◌⊎◌, if◌then◌else◌}
use zions_light_ai.Degrade.{Config, enough, writes_allowed}
use zions_light_ai.Degrade.Readings.{
  Call, Recent, answer, after, warnings, infos, answer-after, warnings-infos,
}

abbrev config : Config
config = record { min_free = 200; check_ttl = 100 }

abbrev calls : List Call
calls =
    record { now = 300; free = some 900; fresh = true }
    ∷ record { now = 150; free = some 900; fresh = false }
    ∷ record { now = 100; free = some 50; fresh = false }
    ∷ []

-- The call at 150 still answers by the reading at 100.
logged : (warnings config calls ≡ 1) × (infos config calls ≡ 1)
unfolding answer after writes_allowed
logged = (refl, refl)

answer-after_example :
    ((answer config (record { now = 350; free = some 10; fresh = true }) (after config calls)).free
      ≡ some 10)
    × ((answer config
          (record { now = 350; free = some 10; fresh = true })
          (after config calls)).allowed
        ≡ enough 200 (some 10))
    × (((answer config
            (record { now = 350; free = some 10; fresh = false })
            (after config calls)).free
          ≡ some 10)
        ⊎ Recent config 350
            (answer config
              (record { now = 350; free = some 10; fresh = false })
              (after config calls)).free
            calls)
    × ((answer config
          (record { now = 350; free = some 10; fresh = false })
          (after config calls)).allowed
        ≡ enough 200
            (answer config
              (record { now = 350; free = some 10; fresh = false })
              (after config calls)).free)
answer-after_example = answer-after config 350 (some 10) calls

warnings-infos_example :
    warnings config (record { now = 350; free = some 10; fresh = true } ∷ calls)
    ≡ infos config (record { now = 350; free = some 10; fresh = true } ∷ calls)
      + (if (answer config
            (record { now = 350; free = some 10; fresh = true })
            (after config calls)).allowed
          then 0
          else 1)
warnings-infos_example =
    warnings-infos config (record { now = 350; free = some 10; fresh = true }) calls
