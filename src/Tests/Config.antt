-- ===== src/Tests/Config.antt =====
-- Runs of NewGofireConfig, and the theorems about it at concrete inputs.
use go_fire.Base.{◌≡◌, refl, true, List, [], ◌∷◌, Error}
use go_fire.Config.{
  GofireConfig, ContainerOption, with_worker_count, with_batch_size, use_rabbit_m_queue_writer,
  with_postgres_config, default_config, validation_error, new_gofire_config,
}
use go_fire.Config.Laws.{IsValid, new_gofire_config-IsValid}

abbrev three_workers : GofireConfig
three_workers = record (default_config "pod a") { worker_count = 3; connection_url = "db" }

new_gofire_config-IsValid_example : IsValid three_workers
unfolding new_gofire_config
new_gofire_config-IsValid_example =
    new_gofire_config-IsValid "pod a" (with_worker_count 3 ∷ with_postgres_config "db" ∷ [])
      three_workers refl

abbrev bad_options : List ContainerOption
bad_options =
    with_worker_count 0
    ∷ use_rabbit_m_queue_writer true
    ∷ with_batch_size 0
    ∷ with_worker_count 2
    ∷ []

abbrev bad_numbers : List Error
bad_numbers = "worker count must be positive" ∷ "batch size must be positive" ∷ []

both_reported : new_gofire_config "pod a" bad_options ≡ validation_error bad_numbers
unfolding new_gofire_config
both_reported = refl
