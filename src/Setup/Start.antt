-- ===== src/Setup/Start.antt =====
-- New (jobmanager/run.go), as far as its order of steps goes: the container, whose stores and locks depend
-- on the driver (app/container.go, app/dependencies.go), the handlers, the migrations, and the dashboard's
-- first user. The dashboard itself is started in a goroutine of its own.
pub mod Laws
use Prim.Native.String.{◌++◌ as append}
use go_fire.Base.{
  ℕ, ◌≡◌, refl, ap, ◌∙◌, ◌⊎◌, inl, inr, Bool, true, false, List, [], ◌∷◌, Option, none, some,
  String, Error, Result, ok, err, if◌then◌else◌, ◌==◌, Bool-cases, Option-cases, Result-cases,
}
use go_fire.Text.{Text}
use go_fire.Config.{postgres}
use go_fire.Lock.{Locks}
use go_fire.Client.Handlers.{Handlers}
use go_fire.Store.Users.{Users, Bcrypt}
use go_fire.Setup.{create_dashboard_admin_if_configured}
use go_fire.Setup
use go_fire.Setup.Migrations.{Entry, init, create_schema, read_sql_scripts}
use go_fire.Setup.Migrations
use go_fire.Setup.Registration.{MethodHandler, register_all}

-- NewContainer has made the container, has returned an error, or has panicked.
pub data Container : Type 0 where
  made panics : Container
  failed : Error → Container

-- The failures of sql.Open and of NewRabbitMQ.
pub record Faults : Type 0 where
  pub connect : Option Error
  pub rabbit : Option Error
  pub init : Migrations.Faults
  pub admin : Setup.Faults

-- The arguments tell whether jobs go to the queue, and whether cfg.RabbitMQConfig points to something. It is
-- dereferenced for NewRabbitMQ, and for NewJobManager also where NewRabbitMQ is not called: nil panics.
abbrev pub with_broker : Bool → Bool → Option Error → Container
with_broker use_queue_writer false fault = panics
with_broker true true (some e) = failed (append "init rabbitmq: " e)
with_broker true true none = made
with_broker false true fault = made

-- The four functions of dependencies.go: they panic for a driver that they do not know.
abbrev pub with_stores : ℕ → Bool → Bool → Option Error → Container
with_stores driver use_queue_writer has_rabbit_config fault =
    if driver == postgres then with_broker use_queue_writer has_rabbit_config fault else panics

-- The error of initStorageConnections.
abbrev pub init_storage_connections : ℕ → Option Error → Option Error
init_storage_connections driver fault =
    if driver == postgres
    then elim fault [ none ↦ none | some e ↦ some (append "open postgres: " e) ]
    else some "unsupported storage driver: unknown"

-- For what initStorageConnections has returned.
abbrev pub connected : Option Error → Container → Container
connected (some e) container = failed (append "init storage: " e)
connected none container = container

-- The first argument tells whether a database is injected by WithDB.
unfoldable pub new_container : Bool → ℕ → Bool → Bool → Faults → Container
new_container injected driver use_queue_writer has_rabbit_config f =
    let container = with_stores driver use_queue_writer has_rabbit_config f.rabbit in
    if injected then container else connected (init_storage_connections driver f.connect) container

-- What New is given: the configuration's fields, and the embedded files.
pub record Settings (Args : Type 0) : Type 0 where
  pub driver : ℕ
  pub use_queue_writer : Bool
  pub has_rabbit_config : Bool
  pub handlers : List (MethodHandler Args)
  pub user_name : Text
  pub password : Text
  pub entries : Result (List Entry)

-- What New returns: the manager and no error, an error, or neither of the two.
pub data Returned : Type 0 where
  manager nothing : Returned
  error : Error → Returned

-- The locks and the users that it leaves, and the statements of the migrations that ran.
pub record Started : Type 0 where
  pub locks : Locks
  pub users : Users
  pub executed : List String
  pub returned : Returned

abbrev pub after_admin : Locks → List String → Users × Result (Unit {0}) → Started
after_admin locks executed (users, ok u) = record {
  locks = locks;
  users = users;
  executed = executed;
  returned = manager;
}
after_admin locks executed (users, err e) = record {
  locks = locks;
  users = users;
  executed = executed;
  returned = error e;
}

-- For what Init has done, and the first user as it would be created.
abbrev pub after_init : Users → Users × Result (Unit {0}) → Locks × Migrations.Done → Started
after_init users admin (locks, (executed, ok u)) = after_admin locks executed admin
after_init users admin (locks, (executed, err e)) = record {
  locks = locks;
  users = users;
  executed = executed;
  returned = error e;
}

abbrev pub stop : Locks → Users → Returned → Started
stop locks users returned = record {
  locks = locks;
  users = users;
  executed = [];
  returned = returned;
}

-- For what the registration of the handlers has returned.
abbrev pub after_handlers : Locks → Users → Result (Unit {0}) → Started → Started
after_handlers locks users (err e) rest = stop locks users (error e)
after_handlers locks users (ok u) rest = rest

-- For the container. A panic is recovered, and New has no named results.
abbrev pub after_container : Locks → Users → Container → Started → Started
after_container locks users panics rest = stop locks users nothing
after_container locks users (failed e) rest = stop locks users (error e)
after_container locks users made rest = rest

module _ {Args : Type 0} (bcrypt : Bcrypt) (salt : ℕ) where
  abbrev pub admin_of : Settings Args → Faults → Users → Users × Result (Unit {0})
  unfolding create_dashboard_admin_if_configured
  admin_of c f users =
      create_dashboard_admin_if_configured bcrypt salt f.admin c.user_name c.password users

  unfoldable pub new : Settings Args → Faults → Locks → Users → Started
  unfolding new_container register_all init admin_of
  new c f locks users =
      after_container locks users
        (new_container false c.driver c.use_queue_writer c.has_rabbit_config f)
        (after_handlers locks users (register_all c.handlers []).1
          (after_init users (admin_of c f users) (init f.init c.entries locks)))
