-- ===== src/Tests/Status.antt =====
-- Runs of the table of transitions, and the theorems about statuses at concrete inputs.
use go_fire.Base.{◌≡◌, refl, true, false}
use go_fire.Status.{queued, processing, succeeded, dead, other, is_valid_transition}

transitions :
    (is_valid_transition queued processing ≡ true)
    × (is_valid_transition queued succeeded ≡ false)
    × (is_valid_transition (other "x") dead ≡ false)
unfolding is_valid_transition
transitions = (refl, refl, refl)
