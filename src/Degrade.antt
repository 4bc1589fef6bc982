-- ===== src/Degrade.antt =====
-- compactor/degrade.py: the pause of new-memory writes under disk pressure. The reading of the free
-- space enters as an argument, `none` where it cannot be read (the code then takes infinity).
-- Times are monotonic, in tenths of a second.
pub mod Readings
use zions_light_ai.Prelude.{
  ℕ, ◌+◌, Bool, true, false, not, ◌&&◌, Option, none, some, ltb, leb, if◌then◌else◌,
}

pub record Config : Type 0 where
  pub min_free : ℕ
  pub check_ttl : ℕ

pub record Reading : Type 0 where
  pub expires : ℕ
  pub allowed : Bool
  pub free : Option ℕ

pub record State : Type 0 where
  pub cache : Option Reading
  pub last_logged_blocked : Bool

-- what a call writes to the log
pub data Line : Type 0 where
  quiet pressure cleared : Line

pub record Answer : Type 0 where
  pub allowed : Bool
  pub free : Option ℕ
  pub line : Line
  pub state : State

-- `free >= MIN_FREE_MB_WRITES`, where an unreadable disk counts as infinite
unfoldable pub enough : ℕ → Option ℕ → Bool
enough min_free none = true
enough min_free (some mb) = leb min_free mb

unfoldable pub line_of : Bool → Bool → Line
line_of false false = pressure
line_of true true = cleared
line_of _ _ = quiet

unfoldable pub logged_after : Bool → Bool → Bool
logged_after false false = true
logged_after true true = false
logged_after allowed logged = logged

-- below the test of the cache
unfoldable pub probe : Config → ℕ → Option ℕ → State → Answer
unfolding enough line_of logged_after
probe c now free s =
    let allowed = enough c.min_free free in
    record {
      allowed = allowed;
      free = free;
      line = line_of allowed s.last_logged_blocked;
      state = record {
        cache = some (record { expires = now + c.check_ttl; allowed = allowed; free = free });
        last_logged_blocked = logged_after allowed s.last_logged_blocked;
      };
    }

unfoldable pub from_cache : Config → ℕ → Option ℕ → State → Option Reading → Answer
unfolding probe
from_cache c now free s none = probe c now free s
from_cache c now free s (some r) =
    if ltb now r.expires
    then record { allowed = r.allowed; free = r.free; line = quiet; state = s }
    else probe c now free s

unfoldable pub writes_allowed : Config → Bool → ℕ → Option ℕ → State → Answer
unfolding from_cache
writes_allowed c true now free s = from_cache c now free (record s { cache = none }) none
writes_allowed c false now free s = from_cache c now free s s.cache

unfoldable pub guard : Config → Bool → ℕ → Option ℕ → State → Bool × State
unfolding writes_allowed
guard c fresh now free s = let a = writes_allowed c fresh now free s in (a.allowed, a.state)

abbrev pub init : State
init = record { cache = none; last_logged_blocked = false }
