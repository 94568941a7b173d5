-- ===== src/Client/Handlers.antt =====
-- The registry of handlers (types/config/job_handler.go), and what the workers do with a job's
-- payload and handler (the common part of client/enqueue_job_manager.go and
-- client/cron_job_manager.go). The effects of a handler are outside of the model: a handler is what
-- it does to its caller. The arguments are the values that json.Unmarshal makes.
use Prim.Native.String.{◌++◌ as append}
use go_fire.Base.{
  ◌≡◌, refl, Bool, true, false, List, [], ◌∷◌, map, Option, none, some, String, Error, Result, ok,
  err, ◌⊎◌, inl, inr, Option-cases, str_eq, if◌then◌else◌,
}
use go_fire.Status.{JobStatus, succeeded, failed}

-- A handler returns nil, returns an error, or panics.
pub data Outcome : Type 0 where
  returned : Option Error → Outcome
  panicked : Outcome

-- `map[string]func(args ...any) error`.
abbrev pub Handlers : Type 0 → Type 0
Handlers Args = List (String × (Args → Outcome))

module _ {Args : Type 0} where
  abbrev pub lookup : String → Handlers Args → Option (Args → Outcome)
  lookup name [] = none
  lookup name ((key, handler) ∷ rest) = if str_eq key name then some handler else lookup name rest

  unfoldable pub exists : String → Handlers Args → Bool
  exists name handlers = elim (lookup name handlers) [ none ↦ false | some handler ↦ true ]

  -- Register, with the map as it leaves it.
  unfoldable pub register :
      String → (Args → Outcome) → Handlers Args → Handlers Args × Result (Unit {0})
  register name handler handlers = elim (lookup name handlers) [
    | some other ↦ (handlers, err (append "handler '" (append name "' already registered")))
    | none ↦ ((name, handler) ∷ handlers, ok tt)
  ]

  unfoldable pub execute : String → Args → Handlers Args → Outcome
  execute name args handlers = elim (lookup name handlers) [
    | none ↦ returned (some (append "handler '" (append name "' not found")))
    | some handler ↦ handler args
  ]

  -- Go lists the keys of a map in any order.
  unfoldable pub list : Handlers Args → List String
  list handlers = map (λ h. h.0) handlers

  -- Register adds a handler under its name, and only where the name is free: a name that has a
  -- handler keeps it, and no other name is affected.
  pub register-lookup :
      (name : String) (handler : Args → Outcome) (handlers : Handlers Args) (m : String)
      → ((lookup name handlers ≡ none)
          × ((register name handler handlers).1 ≡ ok tt)
          × (lookup m (register name handler handlers).0
              ≡ (if str_eq name m then some handler else lookup m handlers)))
        ⊎ ((other : Args → Outcome) × (lookup name handlers ≡ some other)
            × ((register name handler handlers).0 ≡ handlers)
            × ((e : Error) × ((register name handler handlers).1 ≡ err e)))
  unfolding register
  register-lookup name handler handlers m = elim (Option-cases (lookup name handlers)) [
    | inl free ↦ inl (free, rw (free, register) refl, rw (free, register) refl)
    | inr (other, taken) ↦ inr (
      other,
      taken,
      rw (taken, register) refl,
      (append "handler '" (append name "' already registered"), rw (taken, register) refl),
    )
  ]

-- `errorToJobStatus`, of both managers.
unfoldable pub error_to_job_status : Option Error → JobStatus
error_to_job_status (some e) = failed
error_to_job_status none = succeeded
