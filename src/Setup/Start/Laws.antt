-- ===== src/Setup/Start/Laws.antt =====
-- In which order New does its work, and what it leaves undone where a part fails.
use Prim.Native.String.{◌++◌ as append}
use go_fire.Base.{
  ℕ, ◌≡◌, refl, ap, ◌⊎◌, inl, inr, Bool, true, false, List, [], ◌∷◌, Option, none, some, String,
  Error, Result, ok, err, ◌==◌, Bool-cases,
}
use go_fire.Config.{postgres}
use go_fire.Lock.{Locks}
use go_fire.Store.Users.{Users, Bcrypt}
use go_fire.Setup.Migrations.{Entry, Done, init, create_schema, read_sql_scripts}
use go_fire.Setup.Migrations.Laws.{IsOutcome, init-IsOutcome}
use go_fire.Setup.Registration.Laws.{clash, register_all-outcome}
use go_fire.Setup.Start.{
  Container, made, failed, panics, nothing, Faults, with_broker, with_stores,
  init_storage_connections, connected, new_container, Settings, manager, error, Started,
  after_admin, after_init, admin_of, new,
}

-- The manager is returned with the migrations and the first user done, or an error before the user is
-- looked for, or the error of the first user.
abbrev pub IsAfterInit : Result (List Entry) → Users → Users × Result (Unit {0}) → Started → Type 0
IsAfterInit entries users admin x =
    ((x.returned ≡ manager)
      × ((scripts : List String) × (read_sql_scripts entries ≡ ok scripts)
          × (x.executed ≡ create_schema ∷ scripts))
      × (admin.1 ≡ ok tt)
      × (x.users ≡ admin.0))
    ⊎ ((e : Error) × (x.returned ≡ error e)
        × ((x.users ≡ users) ⊎ ((e' : Error) × (admin.1 ≡ err e'))))

after_admin-IsAfterInit :
    (entries : Result (List Entry)) (users : Users) (admin : Users × Result (Unit {0}))
    (locks : Locks) (executed scripts : List String)
    → read_sql_scripts entries ≡ ok scripts
    → executed ≡ create_schema ∷ scripts
    → IsAfterInit entries users admin (after_admin locks executed admin)
after_admin-IsAfterInit entries users (users', ok u) locks executed scripts found all =
    inl (refl, (scripts, found, all), refl, refl)
after_admin-IsAfterInit entries users (users', err e) locks executed scripts found all =
    inr (e, refl, inr (e, refl))

after_init-IsAfterInit :
    (entries : Result (List Entry)) (users : Users) (admin : Users × Result (Unit {0}))
    (x : Locks × Done)
    → IsOutcome entries x.1
    → IsAfterInit entries users admin (after_init users admin x)
after_init-IsAfterInit entries users admin (locks, (executed, ok u)) (inl (scripts, found, all)) =
    after_admin-IsAfterInit entries users admin locks executed scripts found (ap (λ d. d.0) all)
after_init-IsAfterInit entries users admin (locks, (executed, ok u)) (inr (e, h)) = absurd cc
after_init-IsAfterInit entries users admin (locks, (executed, err e)) h = inr (e, refl, inl refl)

-- NewContainer comes to a nil RabbitMQConfig: with a driver that it knows, and the database opened.
abbrev pub IsPanicking : ℕ → Bool → Option Error → Type 0
IsPanicking driver has_rabbit_config connect =
    ((driver == postgres) ≡ true) × (has_rabbit_config ≡ false) × (connect ≡ none)

abbrev IsMadeOrFailed : Container → Type 0
IsMadeOrFailed c = (c ≡ made) ⊎ ((e : Error) × (c ≡ failed e))

-- NewContainer opens the database itself: it does not come to the panics of dependencies.go.
connected-cases :
    (driver : ℕ) (use_queue_writer has_rabbit_config : Bool) (connect rabbit : Option Error)
    → let c =
        connected
          (init_storage_connections driver connect)
          (with_stores driver use_queue_writer has_rabbit_config rabbit) in
      (IsPanicking driver has_rabbit_config connect × (c ≡ panics))
      ⊎ (¬ IsPanicking driver has_rabbit_config connect × IsMadeOrFailed c)
connected-cases driver use_queue_writer has_rabbit_config connect rabbit =
    elim (Bool-cases (driver == postgres)) [
      | inr unknown ↦ rw unknown (inr ((λ p. absurd (cc (p.0))), inr (_, refl)))
      | inl known ↦ rw known (opened use_queue_writer has_rabbit_config connect rabbit)
    ]
  where
    opened :
        (q has : Bool) (connect rabbit : Option Error)
        → let c =
            connected
              (elim connect [ none ↦ none | some e ↦ some (append "open postgres: " e) ])
              (with_broker q has rabbit) in
          (((true ≡ true) × (has ≡ false) × (connect ≡ none)) × (c ≡ panics))
          ⊎ (¬ ((true ≡ true) × (has ≡ false) × (connect ≡ none)) × IsMadeOrFailed c)
    opened q has (some e) rabbit = inr ((λ p. absurd (cc (p.2))), inr (_, refl))
    opened q false none rabbit = inl ((refl, refl, refl), refl)
    opened true true none (some e) = inr ((λ p. absurd (cc (p.1))), inr (_, refl))
    opened true true none none = inr ((λ p. absurd (cc (p.1))), inl refl)
    opened false true none rabbit = inr ((λ p. absurd (cc (p.1))), inl refl)

new_container-cases :
    (driver : ℕ) (use_queue_writer has_rabbit_config : Bool) (f : Faults)
    → let c = new_container false driver use_queue_writer has_rabbit_config f in
      (IsPanicking driver has_rabbit_config f.connect × (c ≡ panics))
      ⊎ (¬ IsPanicking driver has_rabbit_config f.connect × IsMadeOrFailed c)
unfolding new_container
new_container-cases driver use_queue_writer has_rabbit_config f =
    connected-cases driver use_queue_writer has_rabbit_config f.connect f.rabbit

module _ {Args : Type 0} (bcrypt : Bcrypt) (salt : ℕ) where
  -- The manager is returned with everything done; or an error, and the user has not been looked for, or
  -- it is that part that has failed.
  abbrev IsReturned : Settings Args → Faults → Users → Started → Type 0
  IsReturned c f users x =
      ((clash c.handlers [] ≡ false)
        × IsAfterInit c.entries users (admin_of bcrypt salt c f users) x)
      ⊎ ((e : Error) × (x.returned ≡ error e) × (x.executed ≡ []) × (x.users ≡ users))

  -- Neither of the two is returned, and nothing is done, where NewContainer panics.
  abbrev pub IsStarted : Settings Args → Faults → Users → Started → Type 0
  IsStarted c f users x =
      (IsPanicking c.driver c.has_rabbit_config f.connect
        × (x.returned ≡ nothing)
        × (x.executed ≡ [])
        × (x.users ≡ users))
      ⊎ (¬ IsPanicking c.driver c.has_rabbit_config f.connect × IsReturned c f users x)

  -- Where the driver is known, the database opens and RabbitMQConfig is nil, New returns neither a manager
  -- nor an error, no statement of the migrations has run and no user is changed, also where the queue is not
  -- used. In every other case it returns a manager or an error, also for a driver that it does not know: a
  -- manager only if no two handlers have one name, the schema and every script ran in their order, and the
  -- part for the dashboard's first user succeeded. Where it returns an error, either that part has failed or
  -- no user was changed; and no statement of the migrations ran unless all handlers were registered.
  pub new-IsStarted :
      (c : Settings Args) (f : Faults) (locks : Locks) (users : Users)
      → IsStarted c f users (new bcrypt salt c f locks users)
  unfolding new
  new-IsStarted c f locks users =
      let admin = admin_of bcrypt salt c f users in
      elim (new_container-cases c.driver c.use_queue_writer c.has_rabbit_config f) [
        | inl (p, panicked) ↦ rw panicked (inl (p, refl, refl, refl))
        | inr (n, inr (e, fails)) ↦ rw fails (inr (n, inr (e, refl, refl, refl)))
        | inr (n, inl works) ↦ elim (register_all-outcome c.handlers [] "") [
          | inr (clashes, e, refused) ↦ rw (works, refused) (inr (n, inr (e, refl, refl, refl)))
          | inl (distinct, registered, found) ↦
              rw (works, registered)
                (inr (
                  n,
                  inl (
                    distinct,
                    after_init-IsAfterInit c.entries users admin (init f.init c.entries locks)
                        (init-IsOutcome f.init c.entries locks),
                  ),
                ))
        ]
      ]
