-- ===== src/Setup/Registration/Laws.antt =====
-- Which handler runs a job of a name.
use Prim.Native.String.{◌++◌ as append}
use go_fire.Base.{
  ◌≡◌, refl, ap, ◌∙◌, Bool, true, false, ◌||◌, List, [], ◌∷◌, ◌++◌, Option, none, some, String,
  Error, ok, err, arith, All, Option-cases, Bool-cases, str_eq, any, if◌then◌else◌, ◌⊎◌, inl, inr,
  append_assoc, append-nil, eq_iff,
}
use go_fire.Client.Handlers.{Outcome, Handlers, lookup, register}
use go_fire.Setup.Registration.{
  MethodHandler, is_refused, register_handler, register_handlers, call_of, register_all,
}

str_eq-sym : (a b : String) → str_eq a b ≡ str_eq b a
str_eq-sym a b = ground (arith, eq_iff a b, eq_iff b a)

module _ {Args : Type 0} where
  -- The handler of the name in the list, or the one that is registered.
  abbrev pub first_or :
      String → List (MethodHandler Args) → Option (Args → Outcome) → Option (Args → Outcome)
  first_or m [] o = o
  first_or m (h ∷ hs) o = if str_eq h.job_name m then some (call_of h.func) else first_or m hs o

  abbrev is_some : Option (Args → Outcome) → Bool
  is_some none = false
  is_some (some f) = true

  -- A name of the list is registered, or stands in it twice.
  abbrev pub clash : List (MethodHandler Args) → Handlers Args → Bool
  clash [] registry = false
  clash (h ∷ hs) registry =
      is_some (lookup h.job_name registry)
      || any (λ (x : MethodHandler Args). str_eq h.job_name x.job_name) hs
      || clash hs registry

  first_or-some :
      (m : String) (hs : List (MethodHandler Args)) (f : Args → Outcome)
      → any (λ (x : MethodHandler Args). str_eq m x.job_name) hs ≡ false
      → first_or m hs (some f) ≡ some f
  first_or-some m [] f h = refl
  first_or-some m (x ∷ hs) f h =
      let other : str_eq x.job_name m ≡ false = ground (arith, str_eq-sym x.job_name m) in
      rw other (first_or-some m hs f (ground arith))

  -- A name more in the registry clashes where it stands in the list.
  clash-cons :
      (name : String) (f : Args → Outcome) (hs : List (MethodHandler Args))
      (registry : Handlers Args)
      → clash hs ((name, f) ∷ registry)
        ≡ (any (λ (x : MethodHandler Args). str_eq name x.job_name) hs || clash hs registry)
  clash-cons name f [] registry = refl
  clash-cons name f (h ∷ hs) registry = ground (arith, clash-cons name f hs registry)

  first_or-lookup :
      (m name : String) (f : Args → Outcome) (hs : List (MethodHandler Args))
      (registry : Handlers Args)
      → any (λ (x : MethodHandler Args). str_eq name x.job_name) hs ≡ false
      → first_or m hs (lookup m ((name, f) ∷ registry))
        ≡ (if str_eq name m then some f else first_or m hs (lookup m registry))
  first_or-lookup m name f hs registry free = elim (Bool-cases (str_eq name m)) [
    | inl same ↦
        let e : name ≡ m = (eq_iff name m).0 same in rw same (first_or-some m hs f (rw (← e) free))
    | inr other ↦ rw other refl
  ]

  register-free :
      (name : String) (f : Args → Outcome) (registry : Handlers Args)
      → lookup name registry ≡ none
      → register name f registry ≡ ((name, f) ∷ registry, ok tt)
  unfolding register
  register-free name f registry free = rw (register, free) refl

  register-taken :
      (name : String) (f : Args → Outcome) (registry : Handlers Args) {other : Args → Outcome}
      → lookup name registry ≡ some other
      → (e : Error) × (register name f registry ≡ (registry, err e))
  unfolding register
  register-taken name f registry taken =
      (append "handler '" (append name "' already registered"), rw (register, taken) refl)

  register_all-free :
      (h : MethodHandler Args) (hs : List (MethodHandler Args)) (registry : Handlers Args)
      → lookup h.job_name registry ≡ none
      → register_all (h ∷ hs) registry ≡ register_all hs ((h.job_name, call_of h.func) ∷ registry)
  unfolding register_all
  register_all-free h hs registry free =
      let e = register-free h.job_name (call_of h.func) registry free in
      rw (register_all, e, e) refl

  register_all-taken :
      (h : MethodHandler Args) (hs : List (MethodHandler Args)) (registry : Handlers Args)
      {f : Args → Outcome}
      → lookup h.job_name registry ≡ some f
      → (e : Error) × (register_all (h ∷ hs) registry ≡ (registry, err e))
  unfolding register_all
  register_all-taken h hs registry taken =
      let (e, refused) = register-taken h.job_name (call_of h.func) registry taken in
      (e, rw (register_all, refused, refused) refl)

  -- Either no name clashes, every handler is registered, and a name has the handler of the list or, where
  -- it is not in the list, the one that it had; or a name clashes, and there is an error.
  pub register_all-outcome :
      (hs : List (MethodHandler Args)) (registry : Handlers Args) (m : String)
      → ((clash hs registry ≡ false)
          × ((register_all hs registry).1 ≡ ok tt)
          × (lookup m (register_all hs registry).0 ≡ first_or m hs (lookup m registry)))
        ⊎ ((clash hs registry ≡ true) × (e : Error) × ((register_all hs registry).1 ≡ err e))
  register_all-outcome [] registry m =
      inl (refl, unfold register_all in refl, unfold register_all in refl)
  register_all-outcome (h ∷ hs) registry m = elim (Option-cases (lookup h.job_name registry)) [
    | inr (other, taken) ↦
        let (e, failed) = register_all-taken h hs registry taken in
        inr (rw taken refl, e, ap (λ x. x.1) failed)
    | inl free ↦
        let f = call_of h.func in
        let cons = clash-cons h.job_name f hs registry in
        rw (free, register_all-free h hs registry free)
          (elim (register_all-outcome hs ((h.job_name, f) ∷ registry) m) [
            | inl (none', done, found) ↦
                let alone : any (λ (x : MethodHandler Args). str_eq h.job_name x.job_name) hs
                    ≡ false =
                  ground arith in
                inl (ground arith, done, found ∙ first_or-lookup m h.job_name f hs registry alone)
            | inr (some', e, failed) ↦ inr (ground arith, e, failed)
          ])
  ]

  register_handler-keeps :
      (h : MethodHandler Args) (handlers : List (MethodHandler Args))
      → is_refused h ≡ false
      → register_handler h handlers ≡ (handlers ++ h ∷ [], ok tt)
  unfolding register_handler
  register_handler-keeps h handlers fine = rw (register_handler, fine) refl

  register_handler-refuses :
      (h : MethodHandler Args) (handlers : List (MethodHandler Args))
      → is_refused h ≡ true
      → register_handler h handlers ≡ (handlers, err "handler must have a job name and function")
  unfolding register_handler
  register_handler-refuses h handlers bad = rw (register_handler, bad) refl

  register_handlers-keeps :
      (hs handlers : List (MethodHandler Args))
      → All (λ h. is_refused h ≡ false) hs
      → register_handlers hs handlers ≡ (handlers ++ hs, ok tt)
  unfolding register_handlers
  register_handlers-keeps [] handlers fine = rw append-nil refl
  register_handlers-keeps (h ∷ hs) handlers fine =
      let e = register_handler-keeps h handlers fine.0 in
      rw (register_handlers, e, e)
        (register_handlers-keeps hs (handlers ++ h ∷ []) fine.1 ∙ rw append_assoc refl)

  -- RegisterHandlers stops at the first handler that it refuses, with an error, and keeps those before it.
  pub register_handlers-stops :
      (before : List (MethodHandler Args)) (h : MethodHandler Args)
      (after handlers : List (MethodHandler Args))
      → All (λ h. is_refused h ≡ false) before
      → is_refused h ≡ true
      → register_handlers (before ++ h ∷ after) handlers
        ≡ (handlers ++ before, err "handler must have a job name and function")
  unfolding register_handlers
  register_handlers-stops [] h after handlers fine bad =
      let e = register_handler-refuses h handlers bad in
      rw (register_handlers, e, e, append-nil) refl
  register_handlers-stops (x ∷ before) h after handlers fine bad =
      let e = register_handler-keeps x handlers fine.0 in
      rw (register_handlers, e, e)
        (register_handlers-stops before h after (handlers ++ x ∷ []) fine.1 bad
          ∙ rw append_assoc refl)

  -- Handlers that have a name and a function each, and no name twice: RegisterHandlers puts them into a
  -- configuration that has none, the set-up registers them all, and from there on each name is executed
  -- by the function that was given for it, and any other name by none.
  pub registered-lookup :
      (hs : List (MethodHandler Args)) (m : String)
      → All (λ h. is_refused h ≡ false) hs
      → clash hs [] ≡ false
      → ((register_handlers hs []).1 ≡ ok tt)
        × ((register_all (register_handlers hs []).0 []).1 ≡ ok tt)
        × (lookup m (register_all (register_handlers hs []).0 []).0 ≡ first_or m hs none)
  registered-lookup hs m fine distinct =
      rw (register_handlers-keeps hs [] fine) (elim (register_all-outcome hs [] m) [
        | inl (none', done, found) ↦ (refl, done, found)
        | inr (some', e, failed) ↦ absurd (ground arith)
      ])
