-- ===== src/Config/CrossFields.antt =====
-- `_validate_cross_fields`, `_validate_import_path` and `_validate_source_uri` of nano_rl/config.py.
use nano_rl.Prelude.{
  ◌*◌, ◌%◌, String, Bool, true, false, not, Option, none, some, List, [], ◌∷◌, ◌&&◌, ◌||◌, ltb,
  if◌then◌else◌,
}
use nano_rl.Prelude.Equality.{◌==◌, nat_eq, string_eq}
use nano_rl.Prelude.Exec.{Result, ok, err}
use nano_rl.WeightTransfer.{WeightTransferMethod, object_ref, locality_aware_checkpoint}
use nano_rl.Config.{
  collocated, disaggregated, SourceType, hdfs_uri, hdfs_fuse_path, local_csv, mock_inline,
  mock_generated, mock_jsonl, WeightStoreBackendName, mock_memory, mock_filesystem, ConfigError,
  collocated_with_rollout_only, no_shared, collocated_with_lag, collocated_with_lagged_ratio,
  disaggregated_without_gpus, disaggregated_without_lag, too_many_gpus, no_trainer_class,
  not_dotted, no_module, no_class, ranks_not_shared, gpus_per_rank_not_one, replicas_not_gpus,
  replicas_not_parallel, gpus_per_replica_not_parallel, gpus_not_parallel,
  rollout_only_not_divisible, shared_not_divisible, world_size_not_ranks, placement_not_parallel,
  trainer_tensor_parallel, trainer_pipeline_parallel, pull_not_allowed, source_not_allowed,
  memory_store_with_actors, no_manifest_dir, uri_required, uri_scheme, path_not_absolute, total,
  rollout_capable, RoleClassesConfig, RuntimeConfig, Python, first_failing, and_then,
}

abbrev is_empty_text : String → Bool
is_empty_text s = s == ""

-- No class, or the empty text, is false to Python.
abbrev missing : Option String → Bool
missing none = true
missing (some s) = is_empty_text s

-- The separator, then the parts, are empty; the module cannot be imported; it has no such attribute.
unfoldable pub validate_import_path : Python → String → Result ConfigError (Unit {0})
unfolding first_failing
validate_import_path py path =
    let (module_name, sep, attr) = py.rpartition path in
    first_failing (
      (is_empty_text sep || (is_empty_text module_name || is_empty_text attr), not_dotted path)
      ∷ (not (py.can_import module_name), no_module module_name)
      ∷ (not (py.hasattr module_name attr), no_class path)
      ∷ [])

abbrev required :
    Option String → (String → Result ConfigError (Unit {0})) → Result ConfigError (Unit {0})
required none check = err uri_required
required (some uri) check = check uri

unfoldable pub validate_source_uri :
    Python → SourceType → Option String → Result ConfigError (Unit {0})
validate_source_uri py hdfs_uri uri =
    required uri (λ u. if py.startswith u "hdfs://" then ok tt else err uri_scheme)
validate_source_uri py hdfs_fuse_path uri =
    required uri (λ u. if py.startswith u "/" then ok tt else err path_not_absolute)
validate_source_uri py local_csv uri = required uri (λ u. ok tt)
validate_source_uri py mock_jsonl uri = required uri (λ u. ok tt)
validate_source_uri py mock_inline uri = ok tt
validate_source_uri py mock_generated uri = ok tt

unfoldable pub mode_checks : RuntimeConfig → List (Bool × ConfigError)
mode_checks c = elim c.mode [
  | collocated ↦
      (not (c.topology.rollout_only_gpus == 0), collocated_with_rollout_only)
      ∷ (ltb c.topology.shared_gpus 1, no_shared)
      ∷ (not (c.max_policy_lag == 0), collocated_with_lag)
      ∷ (not c.no_lagged_ratio, collocated_with_lagged_ratio)
      ∷ []
  | disaggregated ↦
      (
        ltb c.topology.rollout_only_gpus 1 || ltb c.topology.shared_gpus 1,
        disaggregated_without_gpus,
      )
      ∷ (ltb c.max_policy_lag 1, disaggregated_without_lag)
      ∷ []
]

abbrev pub gpu_checks : RuntimeConfig → List (Bool × ConfigError)
gpu_checks c =
    (ltb c.num_gpus (total c.topology), too_many_gpus)
    ∷ (ltb 0 c.topology.shared_gpus && missing c.role_classes.trainer_rank, no_trainer_class)
    ∷ []

abbrev trainer_class_check : Python → Option String → Result ConfigError (Unit {0})
trainer_class_check py none = ok tt
trainer_class_check py (some path) =
    if is_empty_text path then ok tt else validate_import_path py path

unfoldable pub class_checks : Python → RoleClassesConfig → Result ConfigError (Unit {0})
unfolding validate_import_path
class_checks py r = and_then (validate_import_path py r.rollout_manager) (
    and_then (validate_import_path py r.rollout_replica_controller)
      (and_then (validate_import_path py r.rollout_worker) (trainer_class_check py r.trainer_rank)))

-- Of the placement and the parallel sizes.
abbrev pub size_checks : RuntimeConfig → List (Bool × ConfigError)
size_checks c =
    let dp = c.rollout_parallel.data_parallel_size in
    let tp = c.rollout_parallel.tensor_parallel_size in
    (not (c.trainer_placement.num_ranks == c.topology.shared_gpus), ranks_not_shared)
    ∷ (not c.trainer_placement.one_gpu_per_rank, gpus_per_rank_not_one)
    ∷ (
      not (
          c.rollout_placement.num_replicas * c.rollout_placement.gpus_per_replica
          == rollout_capable c.topology),
      replicas_not_gpus,
    )
    ∷ (not (c.rollout_placement.num_replicas == dp), replicas_not_parallel)
    ∷ (not (c.rollout_placement.gpus_per_replica == tp), gpus_per_replica_not_parallel)
    ∷ (not (rollout_capable c.topology == dp * tp), gpus_not_parallel)
    ∷ (not (c.topology.rollout_only_gpus % tp == 0), rollout_only_not_divisible)
    ∷ (not (c.topology.shared_gpus % tp == 0), shared_not_divisible)
    ∷ (
      not (c.trainer_parallel.fsdp_world_size == c.trainer_placement.num_ranks),
      world_size_not_ranks,
    )
    ∷ (not (tp == c.rollout_placement.tensor_parallel_size), placement_not_parallel)
    ∷ (not (c.trainer_parallel.tensor_parallel_size == 1), trainer_tensor_parallel)
    ∷ (not (c.trainer_parallel.pipeline_parallel_size == 1), trainer_pipeline_parallel)
    ∷ []

abbrev is_locality_aware : WeightTransferMethod → Bool
is_locality_aware object_ref = false
is_locality_aware locality_aware_checkpoint = true

abbrev is_memory : WeightStoreBackendName → Bool
is_memory mock_memory = true
is_memory _ = false

abbrev is_filesystem : WeightStoreBackendName → Bool
is_filesystem mock_filesystem = true
is_filesystem _ = false

abbrev same_source : SourceType → SourceType → Bool
same_source hdfs_uri hdfs_uri = true
same_source hdfs_fuse_path hdfs_fuse_path = true
same_source local_csv local_csv = true
same_source mock_inline mock_inline = true
same_source mock_generated mock_generated = true
same_source mock_jsonl mock_jsonl = true
same_source _ _ = false

abbrev allowed : SourceType → List SourceType → Bool
allowed s [] = false
allowed s (t ∷ ts) = if same_source s t then true else allowed s ts

unfoldable pub store_checks : RuntimeConfig → List (Bool × ConfigError)
store_checks c =
    let transfer = c.weight_transfer in
    (
      is_locality_aware transfer.method
          && (ltb 0 c.topology.rollout_only_gpus && not transfer.allow_rollout_only_artifact_pull),
      pull_not_allowed,
    )
    ∷ (not (allowed c.source_type c.allowed_input_sources), source_not_allowed)
    ∷ (c.start_ray_actors && is_memory transfer.store.backend, memory_store_with_actors)
    ∷ (is_filesystem transfer.store.backend && missing transfer.store.manifest_dir, no_manifest_dir)
    ∷ []

unfoldable pub validate_cross_fields : Python → RuntimeConfig → Result ConfigError (Unit {0})
validate_cross_fields py c = and_then (first_failing (mode_checks c)) (
    and_then (first_failing (gpu_checks c)) (
      and_then (class_checks py c.role_classes) (
        and_then (first_failing (size_checks c)) (
          and_then (first_failing (store_checks c))
            (validate_source_uri py c.source_type c.data_path)))))
