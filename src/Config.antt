-- ===== src/Config.antt =====
-- The sections of `RuntimeConfig` of nano_rl/config.py that its validation reads. A field with a float
-- that is only compared with one number is that comparison.
pub mod Sections
pub mod CrossFields
pub mod Fitting
mod Tests
use nano_rl.Prelude.{ℕ, ◌+◌, String, Bool, Option, List, [], ◌∷◌, ◌≡◌, true, false, refl, arith}
use nano_rl.Prelude.Equality.{HasEq}
use nano_rl.Prelude.Exec.{Result, ok, err}
use nano_rl.WeightTransfer.{WeightTransferMethod}

pub data UserMode : Type 0 where
  collocated disaggregated : UserMode

pub data CanonicalMode : Type 0 where
  fully_sync standalone_hybrid : CanonicalMode

pub data SourceType : Type 0 where
  hdfs_uri hdfs_fuse_path local_csv mock_inline mock_generated mock_jsonl : SourceType

pub data TrainerBackendName : Type 0 where
  fsdp2 mock fake : TrainerBackendName

pub data WeightStoreBackendName : Type 0 where
  checkpoint mock_memory mock_filesystem : WeightStoreBackendName

-- The `ValueError`s.
pub data ConfigError : Type 0 where
  collocated_with_rollout_only no_shared collocated_with_lag collocated_with_lagged_ratio :
      ConfigError
  disaggregated_without_gpus disaggregated_without_lag : ConfigError
  too_many_gpus no_trainer_class : ConfigError
  not_dotted no_module no_class : String → ConfigError
  ranks_not_shared gpus_per_rank_not_one replicas_not_gpus replicas_not_parallel : ConfigError
  gpus_per_replica_not_parallel gpus_not_parallel rollout_only_not_divisible : ConfigError
  shared_not_divisible world_size_not_ranks placement_not_parallel : ConfigError
  trainer_tensor_parallel trainer_pipeline_parallel pull_not_allowed : ConfigError
  source_not_allowed memory_store_with_actors no_manifest_dir : ConfigError
  uri_required uri_scheme path_not_absolute : ConfigError
  data_path_required prompts_empty generated_required : ConfigError
  fsdp2_required sleep_level_required mount_root_not_absolute : ConfigError
  minimum_above_maximum mean_above_maximum maximum_too_large : ConfigError

pub record GpuTopologyCounts : Type 0 where
  pub rollout_only_gpus : ℕ
  pub shared_gpus : ℕ
  pub idle_gpus : ℕ

abbrev pub total : GpuTopologyCounts → ℕ
total t = t.rollout_only_gpus + t.shared_gpus + t.idle_gpus

abbrev pub rollout_capable : GpuTopologyCounts → ℕ
rollout_capable t = t.rollout_only_gpus + t.shared_gpus

pub record RoleClassesConfig : Type 0 where
  pub rollout_manager : String
  pub rollout_replica_controller : String
  pub rollout_worker : String
  pub trainer_rank : Option String

-- `gpus_per_rank == 1`
pub record TrainerPlacementConfig : Type 0 where
  pub num_ranks : ℕ
  pub one_gpu_per_rank : Bool

pub record RolloutPlacementConfig : Type 0 where
  pub num_replicas : ℕ
  pub gpus_per_replica : ℕ
  pub tensor_parallel_size : ℕ

pub record TrainerParallelConfig : Type 0 where
  pub data_parallel_size : ℕ
  pub fsdp_world_size : ℕ
  pub tensor_parallel_size : ℕ
  pub pipeline_parallel_size : ℕ

pub record RolloutParallelConfig : Type 0 where
  pub data_parallel_size : ℕ
  pub tensor_parallel_size : ℕ

pub record WeightStoreConfig : Type 0 where
  pub backend : WeightStoreBackendName
  pub manifest_dir : Option String

pub record WeightTransferConfig : Type 0 where
  pub method : WeightTransferMethod
  pub allow_rollout_only_artifact_pull : Bool
  pub store : WeightStoreConfig

-- The sections below `runtime`, `parallel`, `control` and `rollout.hybrid` by their last name;
-- `no_lagged_ratio` is `lagged_ratio == 0`.
pub record RuntimeConfig : Type 0 where
  pub mode : UserMode
  pub start_ray_actors : Bool
  pub num_gpus : ℕ
  pub topology : GpuTopologyCounts
  pub role_classes : RoleClassesConfig
  pub trainer_placement : TrainerPlacementConfig
  pub rollout_placement : RolloutPlacementConfig
  pub trainer_parallel : TrainerParallelConfig
  pub rollout_parallel : RolloutParallelConfig
  pub allowed_input_sources : List SourceType
  pub source_type : SourceType
  pub data_path : Option String
  pub max_policy_lag : ℕ
  pub no_lagged_ratio : Bool
  pub weight_transfer : WeightTransferConfig

-- What is not this code's: `str.startswith`, `str.rpartition(".")`, and what Python can import.
pub record Python : Type 0 where
  pub startswith : String → String → Bool
  pub rpartition : String → String × String × String
  pub can_import : String → Bool
  pub hasattr : String → String → Bool

abbrev pub canonical_mode : UserMode → CanonicalMode
canonical_mode collocated = fully_sync
canonical_mode disaggregated = standalone_hybrid

-- The first condition that holds raises its error.
unfoldable pub first_failing : List (Bool × ConfigError) → Result ConfigError (Unit {0})
first_failing [] = ok tt
first_failing ((true, e) ∷ cs) = err e
first_failing ((false, e) ∷ cs) = first_failing cs

-- One check after another.
abbrev pub and_then :
    Result ConfigError (Unit {0}) → Result ConfigError (Unit {0}) → Result ConfigError (Unit {0})
and_then (err e) next = err e
and_then (ok _) next = next

pub and_then-ok :
    (a b : Result ConfigError (Unit {0})) → and_then a b ≡ ok tt → (a ≡ ok tt) × (b ≡ ok tt)
and_then-ok (err e) b h = absurd (ground (arith, h))
and_then-ok (ok _) b h = (refl, h)

pub first_failing-passes :
    (b : Bool) (e : ConfigError) (cs : List (Bool × ConfigError))
    → first_failing ((b, e) ∷ cs) ≡ ok tt
    → (b ≡ false) × (first_failing cs ≡ ok tt)
unfolding first_failing
first_failing-passes true e cs h = absurd (ground (arith, h))
first_failing-passes false e cs h = (refl, h)
