-- ===== src/Status/Laws.antt =====
-- Laws of the statuses and of the table of transitions.
use go_fire.Base.{◌≡◌, refl, ◌↔◌, true, String, arith, eq_iff}
use go_fire.Status.{
  JobStatus, queued, processing, succeeded, failed, retrying, dead, other, to_string, of_string, is,
  is_valid_transition,
}

-- Converting a text to a status and back gives the text, whatever the text is.
pub to_string-of_string : (s : String) → to_string (of_string s) ≡ s
unfolding to_string of_string
to_string-of_string s = ground (
  arith,
  eq_iff s "queued",
  eq_iff s "processing",
  eq_iff s "succeeded",
  eq_iff s "failed",
  eq_iff s "retrying",
  eq_iff s "dead",
)

-- The edges of the life of a job, as a relation.
pub data Edge : JobStatus → JobStatus → Type 0 where
  start : Edge queued processing
  finish : Edge processing succeeded
  fail : Edge processing failed
  retry : Edge failed retrying
  restart : Edge retrying processing
  bury : Edge failed dead

-- `IsValidTransition` answers true for two statuses exactly when one of the six edges joins them.
pub is_valid_transition-iff-Edge : (a b : JobStatus) → (is_valid_transition a b ≡ true) ↔ Edge a b
unfolding is_valid_transition
is_valid_transition-iff-Edge a b = (sound a b, complete)
  where
    sound : (a b : JobStatus) → is_valid_transition a b ≡ true → Edge a b
    sound queued processing h = start
    sound processing succeeded h = finish
    sound processing failed h = fail
    sound failed retrying h = retry
    sound retrying processing h = restart
    sound failed dead h = bury
    sound _ _ h = cc

    complete : {a b : JobStatus} → Edge a b → is_valid_transition a b ≡ true
    complete start = refl
    complete finish = refl
    complete fail = refl
    complete retry = refl
    complete restart = refl
    complete bury = refl

pub is_refl : (a : JobStatus) → is a a ≡ true
is_refl (other s) = (eq_iff s s).1 refl
is_refl queued = refl
is_refl _ = refl

-- Two statuses compare equal exactly when they are one status.
pub is-iff-eq : (a b : JobStatus) → (is a b ≡ true) ↔ (a ≡ b)
is-iff-eq a b = (sound a b, λ e. rw e (is_refl b))
  where
    sound : (a b : JobStatus) → is a b ≡ true → a ≡ b
    sound queued queued h = refl
    sound processing processing h = refl
    sound succeeded succeeded h = refl
    sound failed failed h = refl
    sound retrying retrying h = refl
    sound dead dead h = refl
    sound (other s) (other t) h = cc ((eq_iff s t).0 h)
    sound _ _ h = cc
