-- ===== src/Training/Weights.antt =====
-- `_bootstrap_initial_weight`, `_activate_weight_for_rollout` and `_sync_native_vllm_weights` of
-- nano_rl/runtime/ray/training.py.
use Prim.Native.String.{◌++◌ as str_append}
use nano_rl.Prelude.{ℕ, String, Option, none, some, List, [], ◌∷◌, ◌++◌, map, if◌then◌else◌}
use nano_rl.Prelude.Equality.{◌==◌, nat_eq, string_eq, is_some_of}
use nano_rl.Prelude.Exec.{Result, ok, err, Exec, pure, modify, ◌>>=◌, ◌>>◌}
use nano_rl.Prelude.Dict.{Dict, lookup}
use nano_rl.Slot.Types.{GpuLease, RolloutReplicaSpec, TrainerRankSpec}
use nano_rl.Protocols.{WeightMeta}
use nano_rl.WeightRegistry as Registry
use nano_rl.WeightTransfer.{
  WeightTransferPlan, WeightTransferError, WeightShardSource, WeightShardSourceKind, ray_object_ref,
  shared_gpu_reshard, artifact_pull, build_plan,
}
use nano_rl.Coordinators as Coordinators
use nano_rl.Roles.Ranks.{bootstrap_weight_meta}
use nano_rl.Controller.Activating.{bootstrap_text}
use nano_rl.WeightStore.Values.{Value}
use nano_rl.Training.{
  World, Actors, TrainingConfig, TrainingError, Action, Local, on_handles, on_registry, on_rollout,
  tick, start, get_one, get_all, or_error, attempt, finally_do, of_transfer, no_source,
  unsupported_transport,
}
use nano_rl.Training.Windows.{leases_for_replica}
use nano_rl.Training.Trainers.{lease_for}

abbrev replica_name : RolloutReplicaSpec → String
replica_name r = r.replica_id

abbrev transport_of_kind : WeightShardSourceKind → String
transport_of_kind shared_gpu_reshard = "ipc"
transport_of_kind ray_object_ref = "nccl"
transport_of_kind artifact_pull = "nccl"

-- `_native_vllm_transport`
pub native_transport : TrainingConfig → WeightShardSource → String
native_transport config source =
    if config.weight_sync_backend == "ipc"
    then "ipc"
    else if config.weight_sync_backend == "nccl"
    then "nccl"
    else transport_of_kind source.kind

abbrev rank_zero : List TrainerRankSpec → List TrainerRankSpec
rank_zero [] = []
rank_zero (r ∷ rs) = let rest = rank_zero rs in if r.rank == 0 then r ∷ rest else rest

-- `_native_vllm_participant_ranks`
pub participant_ranks : String → List TrainerRankSpec → Result TrainingError (List TrainerRankSpec)
participant_ranks transport ranks =
    if transport == "ipc"
    then ok ranks
    else if transport == "nccl"
    then ok (rank_zero ranks)
    else err (unsupported_transport transport)

abbrev pub of_result : {S A : Type 0} → Result TrainingError A → Exec S TrainingError A
of_result r s = (r, s)

abbrev of_plan : {A : Type 0} → Result WeightTransferError A → Result TrainingError A
of_plan (ok a) = ok a
of_plan (err e) = err (of_transfer e)

abbrev pub plan_for : TrainingConfig → WeightMeta → Result TrainingError WeightTransferPlan
plan_for config meta =
    of_plan (
      build_plan config.planner meta config.gpu_plan.rollout_replicas config.gpu_plan.trainer_ranks)

module _ {X : Type 0} (a : Actors X) (w : World) (config : TrainingConfig) where
  -- The planning, which is kept.
  unfoldable pub make_plan : WeightMeta → Local X WeightTransferPlan
  make_plan meta = do
    plan ← of_result (plan_for config meta)
    modify (λ h. record h { last_weight_transfer_plan = some plan })
    pure plan

  -- The inner loop of `_sync_native_vllm_weights`, over the ranks that take part.
  unfoldable pub sync_ranks :
      String
      → WeightMeta
      → WeightShardSource
      → String
      → Dict ℕ GpuLease
      → List TrainerRankSpec
      → Local X (List (Result String Value))
  sync_ranks replica meta source transport leases [] = pure []
  sync_ranks replica meta source transport leases (r ∷ rs) = do
    lease ← lease_for a leases r.rank
    started ← start (a.sync_weights_to_vllm r.rank replica meta source lease transport)
    later ← sync_ranks replica meta source transport leases rs
    pure (started ∷ later)

  -- The outer loop, over the replicas.
  unfoldable pub sync_replicas :
      WeightTransferPlan
      → WeightMeta
      → Dict ℕ GpuLease
      → List RolloutReplicaSpec
      → Local X (List (Result String Value))
  unfolding sync_ranks native_transport participant_ranks
  sync_replicas plan meta leases [] = pure []
  sync_replicas plan meta leases (r ∷ rs) = do
    source ← or_error (no_source r.replica_id) (lookup r.replica_id plan.sources)
    ranks ←
        of_result (participant_ranks (native_transport config source) config.gpu_plan.trainer_ranks)
    refs ← sync_ranks r.replica_id meta source (native_transport config source) leases ranks
    later ← sync_replicas plan meta leases rs
    pure (refs ++ later)

  unfoldable pub sync_planned : WeightMeta → Dict ℕ GpuLease → Local X (Unit {0})
  unfolding make_plan sync_replicas
  sync_planned meta leases = do
    plan ← make_plan meta
    refs ← sync_replicas plan meta leases config.gpu_plan.rollout_replicas
    get_all refs
    pure tt

  -- `_sync_native_vllm_weights`
  pub sync_native_weights : WeightMeta → Dict ℕ GpuLease → Local X (Unit {0})
  unfolding sync_planned
  sync_native_weights meta leases =
      if config.rollout_backend == "vllm"
      then if config.weight_sync_backend == "none" then pure tt else sync_planned meta leases
      else pure tt

  -- The call of a replica and its acknowledgement.
  abbrev activate_with :
      WeightMeta → RolloutReplicaSpec → List GpuLease → WeightShardSource → Local X WeightMeta
  activate_with meta r leases source = do
    started ← start (a.activate_weight r.replica_id meta leases source)
    get_one started
    on_registry (Registry.ack_activation meta.version_id r.replica_id)

  -- The loop over the replicas.
  unfoldable pub activate_replicas :
      WeightMeta → WeightTransferPlan → WeightMeta → List RolloutReplicaSpec → Action X WeightMeta
  activate_replicas meta plan active [] = pure active
  activate_replicas meta plan active (r ∷ rs) = do
    leases ← leases_for_replica r
    source ← or_error (no_source r.replica_id) (lookup r.replica_id plan.sources)
    next ← on_handles (activate_with meta r leases source)
    activate_replicas meta plan next rs

  -- The body of the `try`.
  unfoldable pub activate_all : WeightMeta → WeightTransferPlan → Action X WeightMeta
  unfolding activate_replicas
  activate_all meta plan = do
    active ← activate_replicas meta plan meta config.gpu_plan.rollout_replicas
    on_handles (modify (λ h. record h { rollout_active_weight_version = some meta.version_id }))
    pure active

  -- The `try` statement.
  unfoldable pub try_activation : WeightMeta → WeightTransferPlan → Action X WeightMeta
  unfolding activate_all
  try_activation meta plan =
      finally_do
        (attempt (activate_all meta plan)
          (λ e. do on_handles (on_registry (Registry.mark_failed meta.version_id)); pure tt))
        (on_handles (on_rollout Coordinators.resume))

  -- What comes before it.
  unfoldable pub prepare_activation : WeightMeta → Local X WeightTransferPlan
  unfolding make_plan
  prepare_activation meta = do
    plan ← make_plan meta
    on_rollout (Coordinators.pause_for_weight (str_append "activate-v" (w.decimal meta.version_id)))
    on_registry (
        Registry.begin_activation meta.version_id
          (map replica_name config.gpu_plan.rollout_replicas))
    pure plan

  unfoldable pub activate_planned : WeightMeta → Action X WeightMeta
  unfolding prepare_activation try_activation
  activate_planned meta = do plan ← on_handles (prepare_activation meta); try_activation meta plan

  -- `_activate_weight_for_rollout`
  unfoldable pub activate_weight_for_rollout : WeightMeta → Action X WeightMeta
  unfolding activate_planned
  activate_weight_for_rollout meta c =
      (if is_some_of c.handles.rollout_active_weight_version meta.version_id
          then pure meta
          else activate_planned meta)
        c

  -- The weights that are registered first.
  abbrev register_first : Local X WeightMeta
  register_first = do
    now ← tick
    on_registry (
        Registry.register (
          bootstrap_weight_meta config.model_path config.tokenizer_path
            (w.hexdigest (bootstrap_text config.model_path config.tokenizer_path)) (w.clock now)))

  abbrev bootstrap_unless : Option WeightMeta → Action X WeightMeta
  bootstrap_unless (some active) = pure active
  bootstrap_unless none = do
    registered ← on_handles register_first
    activate_weight_for_rollout registered

  -- `_bootstrap_initial_weight`
  unfoldable pub bootstrap_initial_weight : Action X WeightMeta
  bootstrap_initial_weight = do
    active ← on_handles (on_registry Registry.latest_active_global)
    bootstrap_unless active
