-- ===== src/Config/Laws.antt =====
-- What every configuration that NewGofireConfig returns satisfies.
use go_fire.Base.{
  ◌≤◌, ◌≡◌, refl, sym, subst, ap, ◌∙◌, append_assoc, append-nil, not, Bool, true, false, List, [],
  ◌∷◌, ◌++◌, Option, none, some, String, Error, arith, Bool-cases, inl, inr, ◌==◌,
}
use go_fire.Config.{
  GofireConfig, ContainerOption, with_admin_dashboard_config, with_postgres_config,
  with_worker_count, with_enqueue_interval, with_schedule_interval, with_batch_size,
  use_rabbit_m_queue_writer, with_rabbit_mq_config, default_config, is_empty, unless, apply,
  apply_all, add_error, config, validation_error, configured, new_gofire_config, postgres,
}

-- The numbers are positive; a dashboard with authentication has a user, a password, a key and a
-- port; the queue has a driver if it is used; the storage is PostgreSQL.
abbrev pub IsValid : GofireConfig → Type 0
IsValid c =
    (1 ≤ c.worker_count)
    × (1 ≤ c.enqueue_interval)
    × (1 ≤ c.schedule_interval)
    × (1 ≤ c.batch_size)
    × (c.storage_driver ≡ 1)
    × (c.use_queue_writer ≡ true → c.mq_driver ≡ 1)
    × (c.dashboard_auth_enabled ≡ true
        → (is_empty c.dashboard_user_name ≡ false)
          × (is_empty c.dashboard_password ≡ false)
          × (is_empty c.secret_key ≡ false)
          × (1 ≤ c.dashboard_port))

unless-IsValid :
    (refused : Bool) (e : Error) (changed c : GofireConfig)
    → (refused ≡ false → IsValid changed)
    → IsValid c
    → IsValid (unless refused e changed c).0
unless-IsValid true e changed c h k = k
unless-IsValid false e changed c h k = h refl

apply-IsValid : (opt : ContainerOption) (c : GofireConfig) → IsValid c → IsValid (apply opt c).0
unfolding apply
apply-IsValid (with_admin_dashboard_config user password key port) c (w, e, s, b, d, q, a) =
    unless-IsValid _ _ _ c
      (λ ok'. (w, e, s, b, d, q, λ on. (ground arith, ground arith, ground arith, ground arith)))
      (w, e, s, b, d, q, a)
apply-IsValid (with_postgres_config url) c (w, e, s, b, d, q, a) =
    elim (Bool-cases (not (c.storage_driver == postgres))) [
      | inl other ↦ rw other (w, e, s, b, d, q, a)
      | inr mine ↦ rw mine (
          unless-IsValid (is_empty url) "postgres client: connection URL is required"
            (record c { storage_driver = postgres; connection_url = url }) c
            (λ ok'. (w, e, s, b, refl, q, a)) (w, e, s, b, d, q, a))
    ]
apply-IsValid (with_worker_count n) c (w, e, s, b, d, q, a) =
    unless-IsValid _ _ _ c (λ ok'. (ground arith, e, s, b, d, q, a)) (w, e, s, b, d, q, a)
apply-IsValid (with_enqueue_interval n) c (w, e, s, b, d, q, a) =
    unless-IsValid _ _ _ c (λ ok'. (w, ground arith, s, b, d, q, a)) (w, e, s, b, d, q, a)
apply-IsValid (with_schedule_interval n) c (w, e, s, b, d, q, a) =
    unless-IsValid _ _ _ c (λ ok'. (w, e, ground arith, b, d, q, a)) (w, e, s, b, d, q, a)
apply-IsValid (with_batch_size n) c (w, e, s, b, d, q, a) =
    unless-IsValid _ _ _ c (λ ok'. (w, e, s, ground arith, d, q, a)) (w, e, s, b, d, q, a)
apply-IsValid (use_rabbit_m_queue_writer true) c (w, e, s, b, d, q, a) =
    (w, e, s, b, d, (λ on. refl), a)
apply-IsValid (use_rabbit_m_queue_writer false) c (w, e, s, b, d, q, a) =
    (w, e, s, b, d, (λ on. absurd (ground arith)), a)
apply-IsValid (with_rabbit_mq_config cfg) c (w, e, s, b, d, q, a) =
    unless-IsValid _ _ _ c (λ ok'. (w, e, s, b, d, (λ on. refl), a)) (w, e, s, b, d, q, a)

apply_all-IsValid :
    (opts : List ContainerOption) (c : GofireConfig) (errors : List Error)
    → IsValid c
    → IsValid (apply_all opts c errors).0
unfolding apply_all
apply_all-IsValid [] c errors h = h
apply_all-IsValid (opt ∷ opts) c errors h =
    apply_all-IsValid opts (apply opt c).0 (add_error (apply opt c).1 errors)
      (apply-IsValid opt c h)

configured-config :
    (c : GofireConfig) (errors : List Error) (cfg : GofireConfig)
    → configured c errors ≡ config cfg
    → c ≡ cfg
configured-config c [] cfg h = ground arith
configured-config c (e ∷ errors) cfg h = absurd (ground arith)

default-IsValid : (name : String) → IsValid (default_config name)
default-IsValid name = (
  omega arith,
  omega arith,
  omega arith,
  omega arith,
  refl,
  (λ on. absurd (ground arith)),
  (λ on. absurd (ground arith)),
)

-- Whatever options are given, in any order: a configuration that NewGofireConfig returns has
-- positive counts and intervals, the driver PostgreSQL, a driver of the queue if it uses the queue,
-- and, if its dashboard asks for a login, a user name, a password, a secret key and a port.
pub new_gofire_config-IsValid :
    (name : String) (opts : List ContainerOption) (cfg : GofireConfig)
    → new_gofire_config name opts ≡ config cfg
    → IsValid cfg
unfolding new_gofire_config
new_gofire_config-IsValid name opts cfg h =
    subst IsValid (configured-config _ _ cfg h)
      (apply_all-IsValid opts (default_config name) [] (default-IsValid name))

unless-error :
    (refused : Bool) (e : Error) (changed c changed' c' : GofireConfig)
    → (unless refused e changed c).1 ≡ (unless refused e changed' c').1
unless-error true e changed c changed' c' = refl
unless-error false e changed c changed' c' = refl

-- The error of an option on its own.
abbrev pub error_of : String → ContainerOption → Option Error
error_of name opt = (apply opt (default_config name)).1

-- The errors of the options, each on its own, in their order.
abbrev pub errors_of : String → List ContainerOption → List Error
errors_of name [] = []
errors_of name (opt ∷ opts) = add_error (error_of name opt) [] ++ errors_of name opts

apply-error :
    (name : String) (opt : ContainerOption) (c : GofireConfig)
    → c.storage_driver ≡ 1
    → (apply opt c).1 ≡ error_of name opt
unfolding apply
apply-error name (with_admin_dashboard_config user password key port) c d = unless-error _ _ _ c _ _
apply-error name (with_postgres_config url) c d = elim (Bool-cases (is_empty url)) [
  | inl none' ↦ ground arith
  | inr some' ↦ ground arith
]
apply-error name (with_worker_count n) c d = unless-error _ _ _ c _ _
apply-error name (with_enqueue_interval n) c d = unless-error _ _ _ c _ _
apply-error name (with_schedule_interval n) c d = unless-error _ _ _ c _ _
apply-error name (with_batch_size n) c d = unless-error _ _ _ c _ _
apply-error name (use_rabbit_m_queue_writer on) c d = refl
apply-error name (with_rabbit_mq_config cfg) c d = unless-error _ _ _ c _ _

add_error-append :
    (e : Option Error) (errors rest : List Error)
    → add_error e errors ++ rest ≡ errors ++ (add_error e [] ++ rest)
add_error-append none errors rest = refl
add_error-append (some e) errors rest = append_assoc errors (e ∷ []) rest

apply_all-errors :
    (name : String) (opts : List ContainerOption) (c : GofireConfig) (errors : List Error)
    → IsValid c
    → (apply_all opts c errors).1 ≡ errors ++ errors_of name opts
unfolding apply_all
apply_all-errors name [] c errors h = sym (append-nil errors)
apply_all-errors name (opt ∷ opts) c errors h =
    let (w, e, s, b, d, q, a) = h in
    apply_all-errors name opts (apply opt c).0 (add_error (apply opt c).1 errors)
      (apply-IsValid opt c h)
    ∙ ap (λ x. add_error x errors ++ errors_of name opts) (apply-error name opt c d)
    ∙ add_error-append (error_of name opt) errors (errors_of name opts)

configured-error :
    (c : GofireConfig) (errors es : List Error)
    → configured c errors ≡ validation_error es
    → errors ≡ es
configured-error c [] es h = absurd (ground arith)
configured-error c (e ∷ errors) es h = ground arith

-- NewGofireConfig tries every option, also behind one that fails: the errors that it returns are
-- those of the options, each taken on its own, in their order.
pub new_gofire_config-errors :
    (name : String) (opts : List ContainerOption) (es : List Error)
    → new_gofire_config name opts ≡ validation_error es
    → es ≡ errors_of name opts
unfolding new_gofire_config
new_gofire_config-errors name opts es h =
    sym (configured-error _ _ es h)
    ∙ apply_all-errors name opts (default_config name) [] (default-IsValid name)
