-- ===== src/Config/Tests.antt =====
-- Witness of the validation of nano_rl/config.py: two rollout-only and two shared GPUs, and replicas of
-- two.
use nano_rl.Prelude.{ℕ, zero, suc, String, ◌≡◌, refl, true, false, none, some, [], ◌∷◌, arith}
use nano_rl.Prelude.Exec.{ok}
use nano_rl.WeightTransfer.{locality_aware_checkpoint}
use nano_rl.Config.{
  Python, RuntimeConfig, first_failing, disaggregated, mock_inline, mock_filesystem,
}
use nano_rl.Config.CrossFields.{
  validate_cross_fields, mode_checks, class_checks, store_checks, validate_source_uri,
  validate_import_path,
}
use nano_rl.Config.Fitting.{Planned, plan_config, validate_cross_fields-Planned}

abbrev py : Python
py = record {
  startswith = λ s t. false;
  rpartition = λ s. ("nano_rl.runtime.roles", ".", "Role");
  can_import = λ s. true;
  hasattr = λ s t. true;
}

abbrev digit : ℕ → String
digit zero = "0"
digit (suc n) = "1"

abbrev config : RuntimeConfig
config = record {
  mode = disaggregated;
  start_ray_actors = false;
  num_gpus = 5;
  topology = record { rollout_only_gpus = 2; shared_gpus = 2; idle_gpus = 1 };
  role_classes = record {
    rollout_manager = "a.B";
    rollout_replica_controller = "a.C";
    rollout_worker = "a.D";
    trainer_rank = some "a.E";
  };
  trainer_placement = record { num_ranks = 2; one_gpu_per_rank = true };
  rollout_placement = record { num_replicas = 2; gpus_per_replica = 2; tensor_parallel_size = 2 };
  trainer_parallel = record {
    data_parallel_size = 1;
    fsdp_world_size = 2;
    tensor_parallel_size = 1;
    pipeline_parallel_size = 1;
  };
  rollout_parallel = record { data_parallel_size = 2; tensor_parallel_size = 2 };
  allowed_input_sources = mock_inline ∷ [];
  source_type = mock_inline;
  data_path = none;
  max_policy_lag = 1;
  no_lagged_ratio = false;
  weight_transfer = record {
    method = locality_aware_checkpoint;
    allow_rollout_only_artifact_pull = true;
    store = record { backend = mock_filesystem; manifest_dir = some "weights" };
  };
}

config_is_valid : validate_cross_fields py config ≡ ok tt
unfolding validate_cross_fields mode_checks class_checks store_checks validate_source_uri
    validate_import_path first_failing
config_is_valid = refl

validate_cross_fields-Planned_example : Planned config (plan_config digit config)
validate_cross_fields-Planned_example =
    validate_cross_fields-Planned py digit config (omega arith) config_is_valid
