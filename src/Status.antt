-- ===== src/Status.antt =====
-- Job statuses and the table of transitions (internal/state/statuses.go).
-- A Go `JobStatus` is a string. Here `other s` stands for a text `s` that is none of the six
-- constants, and `of_string` reads a Go string in that way.
pub mod Laws
use go_fire.Base.{Bool, true, false, ◌&&◌, String, List, [], ◌∷◌, if◌then◌else◌, str_eq, any}

pub data JobStatus : Type 0 where
  queued processing succeeded failed retrying dead : JobStatus
  other : String → JobStatus

-- The method `String`.
unfoldable pub to_string : JobStatus → String
to_string queued = "queued"
to_string processing = "processing"
to_string succeeded = "succeeded"
to_string failed = "failed"
to_string retrying = "retrying"
to_string dead = "dead"
to_string (other s) = s

-- The conversion `JobStatus(s)`.
unfoldable pub of_string : String → JobStatus
of_string s =
    if str_eq s "queued"
    then queued
    else if str_eq s "processing"
    then processing
    else if str_eq s "succeeded"
    then succeeded
    else if str_eq s "failed"
    then failed
    else if str_eq s "retrying"
    then retrying
    else if str_eq s "dead"
    then dead
    else other s

-- Go's `==` on two statuses.
abbrev pub is : JobStatus → JobStatus → Bool
is queued queued = true
is processing processing = true
is succeeded succeeded = true
is failed failed = true
is retrying retrying = true
is dead dead = true
is (other s) (other t) = str_eq s t
is _ _ = false

abbrev pub all_statuses : List JobStatus
all_statuses = queued ∷ processing ∷ succeeded ∷ failed ∷ retrying ∷ dead ∷ []

pub record Transition : Type 0 where
  pub from : JobStatus
  pub to : JobStatus

abbrev pub valid_transitions : List Transition
valid_transitions =
    record { from = queued; to = processing }
    ∷ record { from = processing; to = succeeded }
    ∷ record { from = processing; to = failed }
    ∷ record { from = failed; to = retrying }
    ∷ record { from = retrying; to = processing }
    ∷ record { from = failed; to = dead }
    ∷ []

unfoldable pub is_valid_transition : JobStatus → JobStatus → Bool
is_valid_transition from to = any (λ t. is t.from from && is t.to to) valid_transitions
