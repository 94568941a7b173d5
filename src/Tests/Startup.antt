-- ===== src/Tests/Startup.antt =====
-- Runs of the set-up and of the timers, and the theorems about them at concrete inputs.
use go_fire.Base.{
  ◌*◌, ◌≡◌, refl, none, some, [], ◌∷◌, List, String, ok, err, Error, Result, arith, false, true,
  str_eq, if◌then◌else◌,
}
use go_fire.Text.{codes}
use go_fire.Cron.Clock.{day, utc}
use go_fire.Lock.{no_locks, acquire, Locks}
use go_fire.Setup.Migrations.{Entry, Faults, init, migration_lock, create_schema}
use go_fire.Setup.Migrations.Laws.{Settles, init-Settles, init-excluded}
use go_fire.Client.Handlers.{returned, lookup}
use go_fire.Setup.Registration.{MethodHandler, register_handlers, register_all}
use go_fire.Setup.Registration.Laws.{first_or, registered-lookup}
use go_fire.Setup.{create_dashboard_admin_if_configured}
use go_fire.Setup.Start.{Settings, new, new_container, error, nothing}
use go_fire.Setup.Start
use go_fire.Setup.Start.Laws.{IsStarted, new-IsStarted}
use go_fire.Tests.Web.{bcrypt, no_users, setup_works}
use go_fire.Client.Timer.{Round, run_with_timer_internal}
use go_fire.Client.Timer.Laws.{IsOnTime, GoesOn, run_with_timer-IsOnTime}

-- The second script is refused.
abbrev second_fails : Faults
second_fails = record {
  connect = none;
  acquire = none;
  ping = none;
  exec = λ s. if str_eq s "b" then some "syntax error" else none;
  release = none;
  acquire_session = 7;
  release_session = 7;
}

abbrev files : Result (List Entry)
files = ok (
    record { is_dir = false; content = ok "a" }
    ∷ record { is_dir = true; content = err "is a directory" }
    ∷ record { is_dir = false; content = ok "b" }
    ∷ [])

ran : (init second_fails files no_locks).1 ≡ (create_schema ∷ "a" ∷ [], err "syntax error")
unfolding init acquire
ran = refl

init-Settles_example : Settles files no_locks migration_lock (init second_fails files no_locks)
init-Settles_example = init-Settles second_fails files no_locks migration_lock refl refl

-- Another instance is migrating.
abbrev migrating : Locks
unfolding acquire
migrating = (acquire none 3 migration_lock no_locks).0

one_migrates : (e : Error) × (init second_fails files migrating ≡ (migrating, ([], err e)))
unfolding acquire
one_migrates =
    init-excluded second_fails files migrating 3 (record { session = 3; again = 0 }, refl, refl)
      (λ e. ground (arith, e))

abbrev mail : MethodHandler String
mail = record { job_name = "mail"; func = some (λ args. returned none) }

abbrev sms : MethodHandler String
sms = record { job_name = "sms"; func = some (λ args. returned (some "refused")) }

both_registered :
    ((register_handlers (mail ∷ sms ∷ []) []).1 ≡ ok tt)
    × ((register_all (register_handlers (mail ∷ sms ∷ []) []).0 []).1 ≡ ok tt)
    × (lookup "sms" (register_all (register_handlers (mail ∷ sms ∷ []) []).0 []).0
        ≡ first_or "sms" (mail ∷ sms ∷ []) none)
both_registered = registered-lookup (mail ∷ sms ∷ []) "sms" (refl, (refl, tt)) refl

abbrev prompt : Round
prompt = record { pause = 0; gap = 5; cancelled = false; late = 100 }

abbrev stopped : Round
stopped = record { pause = 40; gap = 5; cancelled = true; late = 0 }

run_with_timer-IsOnTime_example :
    IsOnTime
      (739422 * day)
      (run_with_timer_internal utc
        (codes "* * * * *")
        (prompt ∷ prompt ∷ stopped ∷ [])
        (739422 * day)).0
    × GoesOn (prompt ∷ prompt ∷ stopped ∷ []) (
        run_with_timer_internal utc
          (codes "* * * * *")
          (prompt ∷ prompt ∷ stopped ∷ [])
          (739422 * day))
run_with_timer-IsOnTime_example =
    run_with_timer-IsOnTime utc (codes "* * * * *") (prompt ∷ prompt ∷ stopped ∷ []) (739422 * day)
      (omega arith)

abbrev settings : Settings String
settings = record {
  driver = 1;
  use_queue_writer = true;
  has_rabbit_config = true;
  handlers = mail ∷ sms ∷ [];
  user_name = codes "admin";
  password = codes "pass";
  entries = files;
}

abbrev start_faults : Start.Faults
start_faults = record { connect = none; rabbit = none; init = second_fails; admin = setup_works }

new-IsStarted_example :
    IsStarted bcrypt 9 settings start_faults no_users
      (new bcrypt 9 settings start_faults no_locks no_users)
new-IsStarted_example = new-IsStarted bcrypt 9 settings start_faults no_locks no_users

-- A script fails: New returns its error, and creates no user.
script_fails :
    ((new bcrypt 9 settings start_faults no_locks no_users).returned ≡ error "syntax error")
    × ((new bcrypt 9 settings start_faults no_locks no_users).users ≡ no_users)
unfolding new init acquire new_container register_all create_dashboard_admin_if_configured
script_fails = (refl, refl)

-- Without a RabbitMQConfig, and without the queue, nothing is returned and no user is created.
abbrev without_rabbit : Settings String
without_rabbit = record {
  driver = 1;
  use_queue_writer = false;
  has_rabbit_config = false;
  handlers = [];
  user_name = codes "admin";
  password = codes "pass";
  entries = ok [];
}

nothing_returned : (new bcrypt 9 without_rabbit start_faults no_locks no_users).returned ≡ nothing
unfolding new new_container
nothing_returned = refl
