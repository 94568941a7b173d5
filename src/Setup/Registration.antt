-- ===== src/Setup/Registration.antt =====
-- The handlers of the configuration (RegisterHandler and RegisterHandlers of types/config/config.go), and
-- the loop that registers them when the manager or the workers are set up (jobmanager/run.go,
-- gofire/server.go).
pub mod Laws
use go_fire.Base.{
  ◌≡◌, refl, ap, sym, ◌∙◌, Bool, true, false, ◌||◌, List, [], ◌∷◌, ◌++◌, Option, none, some, String,
  Error, Result, ok, err, arith, All, Option-cases, Bool-cases, str_eq, any, if◌then◌else◌, ◌⊎◌,
  inl, inr, append_assoc, append-nil,
}
use go_fire.Client.Handlers.{Outcome, panicked, Handlers, lookup, register, register-lookup}

-- `func` is none where it is nil: a call of it panics.
pub record MethodHandler (Args : Type 0) : Type 0 where
  pub job_name : String
  pub func : Option (Args → Outcome)

module _ {Args : Type 0} where
  abbrev pub is_nil : Option (Args → Outcome) → Bool
  is_nil none = true
  is_nil (some f) = false

  abbrev pub is_refused : MethodHandler Args → Bool
  is_refused h = str_eq h.job_name "" || is_nil h.func

  -- On the field Handlers of the configuration.
  unfoldable pub register_handler :
      MethodHandler Args → List (MethodHandler Args) → List (MethodHandler Args) × Result (Unit {0})
  register_handler h handlers =
      if is_refused h
      then (handlers, err "handler must have a job name and function")
      else (handlers ++ h ∷ [], ok tt)

  -- The loop of RegisterHandlers stops at the first handler that is refused.
  unfoldable pub register_handlers :
      List (MethodHandler Args)
      → List (MethodHandler Args)
      → List (MethodHandler Args) × Result (Unit {0})
  unfolding register_handler
  register_handlers [] handlers = (handlers, ok tt)
  register_handlers (h ∷ hs) handlers =
      let rest = register_handlers hs (register_handler h handlers).0 in
      elim (register_handler h handlers).1 [
        | ok u ↦ rest
        | err e ↦ ((register_handler h handlers).0, err e)
      ]

  abbrev pub call_of : Option (Args → Outcome) → Args → Outcome
  call_of none args = panicked
  call_of (some f) args = f args

  -- `for _, handler := range cfg.Handlers`, which both New and AddServerWithContainer have.
  unfoldable pub register_all :
      List (MethodHandler Args) → Handlers Args → Handlers Args × Result (Unit {0})
  unfolding register
  register_all [] registry = (registry, ok tt)
  register_all (h ∷ hs) registry =
      let x = register h.job_name (call_of h.func) registry in
      let rest = register_all hs x.0 in elim x.1 [ ok u ↦ rest | err e ↦ (x.0, err e) ]
