-- ===== src/Cron/NextRun/Offsets.antt =====
-- The jump to the next day in a location away from UTC.
use go_fire.Base.{◌+◌, ◌/◌, ◌%◌, ◌≤◌, ◌<◌, ◌≡◌, arith}
use go_fire.Cron.Clock.{Time, day, Location, local, add_day, truncate}
use go_fire.Cron.NextRun.Steps.{add_day_lem}

abbrev pub east_of_utc : Time → Location
east_of_utc o = record { east = o; west = 0 }

-- East of UTC by `o`, the jump to the next day from a local time of day at or past `o` passes over
-- the next day's local times before `o`: midnight among them.
pub add_day_skips :
    (o t u : Time)
    → o < day
    → o ≤ local (east_of_utc o) t % day
    → local (east_of_utc o) u / day ≡ local (east_of_utc o) t / day + 1
    → local (east_of_utc o) u % day < o
    → (t < u) × (u < truncate (add_day (east_of_utc o) t) day)
add_day_skips o t u h past next early = omega (arith, add_day_lem (east_of_utc o) t)
