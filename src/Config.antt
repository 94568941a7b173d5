-- ===== src/Config.antt =====
-- The configuration and its options (types/config/config.go, driver.go, defaults.go,
-- errors/validation_error.go). An int that is not positive is 0 here: the options refuse them alike.
-- A driver is its number, with 0 for one that is not set. No option reads or writes the handlers and
-- RedisConfig, which are left out; PostgresConfig is its one field, the URL of the connection.
pub mod Laws
use go_fire.Base.{
  ℕ, Bool, true, false, not, ◌||◌, List, [], ◌∷◌, ◌++◌, Option, none, some, String, Error,
  if◌then◌else◌, ltb, ◌==◌, str_eq,
}
use Prim.Native.String.{◌++◌ as append}

pub record RabbitMqConfig : Type 0 where
  pub url : String
  pub exchange : String
  pub queue : String
  pub routing_key : String
  pub content_type : String

pub record GofireConfig : Type 0 where
  pub dashboard_port : ℕ
  pub dashboard_user_name : String
  pub dashboard_password : String
  pub secret_key : String
  pub instance_name : String
  pub dashboard_auth_enabled : Bool
  pub storage_driver : ℕ
  pub worker_count : ℕ
  pub enqueue_interval : ℕ
  pub schedule_interval : ℕ
  pub batch_size : ℕ
  pub connection_url : String
  pub use_queue_writer : Bool
  pub mq_driver : ℕ
  pub rabbit_mq_config : RabbitMqConfig

abbrev pub postgres : ℕ
postgres = 1

abbrev pub rabbit_mq : ℕ
rabbit_mq = 1

-- The method String of StorageDriver.
abbrev pub driver_name : ℕ → String
driver_name d = if d == postgres then "postgres" else "unknown"

-- The configuration before the options.
abbrev pub default_config : String → GofireConfig
default_config name = record {
  dashboard_port = 0;
  dashboard_user_name = "";
  dashboard_password = "";
  secret_key = "";
  instance_name = name;
  dashboard_auth_enabled = false;
  storage_driver = postgres;
  worker_count = 5;
  enqueue_interval = 15;
  schedule_interval = 60;
  batch_size = 100;
  connection_url = "";
  use_queue_writer = false;
  mq_driver = 0;
  rabbit_mq_config = record {
    url = "";
    exchange = "";
    queue = "";
    routing_key = "";
    content_type = "";
  };
}

-- The functions that make a ContainerOption, with their arguments.
pub data ContainerOption : Type 0 where
  with_admin_dashboard_config : String → String → String → ℕ → ContainerOption
  with_postgres_config : String → ContainerOption
  with_worker_count : ℕ → ContainerOption
  with_enqueue_interval : ℕ → ContainerOption
  with_schedule_interval : ℕ → ContainerOption
  with_batch_size : ℕ → ContainerOption
  use_rabbit_m_queue_writer : Bool → ContainerOption
  with_rabbit_mq_config : RabbitMqConfig → ContainerOption

abbrev pub is_empty : String → Bool
is_empty s = str_eq s ""

-- The guard of an option: its error refuses the change.
abbrev pub unless : Bool → Error → GofireConfig → GofireConfig → GofireConfig × Option Error
unless refused e changed c = if refused then (c, some e) else (changed, none)

-- UseRabbitMQueueWriter.
abbrev pub write_to_queue : Bool → GofireConfig → GofireConfig × Option Error
write_to_queue on c =
    (record c { use_queue_writer = on; mq_driver = (if on then rabbit_mq else c.mq_driver) }, none)

-- WithRabbitMQConfig.
abbrev pub set_rabbit_mq : RabbitMqConfig → GofireConfig → GofireConfig × Option Error
set_rabbit_mq cfg c =
    unless (is_empty cfg.url) "rabbitmq client: URL is required"
      (record c { rabbit_mq_config = cfg; use_queue_writer = true; mq_driver = rabbit_mq }) c

-- The call of an option: the configuration that it leaves, and its error.
unfoldable pub apply : ContainerOption → GofireConfig → GofireConfig × Option Error
apply (with_admin_dashboard_config user password key port) c =
    unless (is_empty user || (is_empty password || (is_empty key || port == 0)))
      "admin dashboard client: username, password, secretKey, and port are required"
      (record c {
        dashboard_auth_enabled = true;
        dashboard_user_name = user;
        dashboard_password = password;
        secret_key = key;
        dashboard_port = port;
      })
      c
apply (with_postgres_config url) c =
    if not (c.storage_driver == postgres)
    then (
      c,
      some (append "cannot set Postgres client when driver is " (driver_name c.storage_driver)),
    )
    else unless (is_empty url) "postgres client: connection URL is required"
        (record c { storage_driver = postgres; connection_url = url }) c
apply (with_worker_count n) c =
    unless (ltb n 1) "worker count must be positive" (record c { worker_count = n }) c
apply (with_enqueue_interval n) c =
    unless (ltb n 1) "enqueue interval must be positive" (record c { enqueue_interval = n }) c
apply (with_schedule_interval n) c =
    unless (ltb n 1) "schedule interval must be positive" (record c { schedule_interval = n }) c
apply (with_batch_size n) c =
    unless (ltb n 1) "batch size must be positive" (record c { batch_size = n }) c
apply (use_rabbit_m_queue_writer on) c = write_to_queue on c
apply (with_rabbit_mq_config cfg) c = set_rabbit_mq cfg c

-- `if err := opt(cfg); err != nil { validationErrs.Add(err) }`.
abbrev pub add_error : Option Error → List Error → List Error
add_error none errors = errors
add_error (some e) errors = errors ++ e ∷ []

-- The loop over the options, with the errors of ValidationError.
unfoldable pub apply_all :
    List ContainerOption → GofireConfig → List Error → GofireConfig × List Error
unfolding apply
apply_all [] c errors = (c, errors)
apply_all (opt ∷ opts) c errors =
    let (c', e) = apply opt c in apply_all opts c' (add_error e errors)

-- A configuration, or the errors of all options.
pub data Configured : Type 0 where
  config : GofireConfig → Configured
  validation_error : List Error → Configured

abbrev pub configured : GofireConfig → List Error → Configured
configured c [] = config c
configured c (e ∷ errors) = validation_error (e ∷ errors)

unfoldable pub new_gofire_config : String → List ContainerOption → Configured
unfolding apply_all
new_gofire_config name opts =
    let (c, errors) = apply_all opts (default_config name) [] in configured c errors
