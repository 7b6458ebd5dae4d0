-- ===== src/Training/Steps.antt =====
-- `_run_train_step` of nano_rl/runtime/ray/training.py.
use nano_rl.Prelude.{ℕ, List, []}
use nano_rl.Prelude.Equality.{nat_eq, string_eq}
use nano_rl.Prelude.Exec.{pure, ◌>>=◌, ◌>>◌}
use nano_rl.Prelude.Dict.{Dict}
use nano_rl.Slot.Types.{GpuLease}
use nano_rl.Protocols.{WeightMeta, TrainBatch}
use nano_rl.SampleQueue as Queue
use nano_rl.WeightRegistry as Registry
use nano_rl.WeightStore.Values.{Value}
use nano_rl.Training.{
  World, Actors, TrainingConfig, Action, Local, on_queue, on_handles, on_registry, attempt,
  finally_do, best_effort,
}
use nano_rl.Training.Windows.{
  on_shared_replicas, grant_train_window, grant_rollout_window, trainer_leases,
}
use nano_rl.Training.Trainers.{
  ensure_trainers_initialized, hydrate_trainers, optimize_trainers, export_weight_from_trainers,
  offload_trainers,
}
use nano_rl.Training.Weights.{sync_native_weights, activate_weight_for_rollout}

module _ {X : Type 0} (a : Actors X) (w : World) (config : TrainingConfig) where
  -- The inner `try`: optimize, export, register and synchronize. A failure offloads the trainers as far
  -- as that goes.
  pub train_and_export :
      TrainBatch → WeightMeta → Dict ℕ GpuLease → Local X (List Value × WeightMeta)
  train_and_export batch current leases = do
    train_stats ← optimize_trainers a batch leases config.gpu_plan.trainer_ranks
    exported ← export_weight_from_trainers a current config.gpu_plan.trainer_ranks
    registered ← on_registry (Registry.register exported)
    sync_native_weights a w config registered leases
    pure (train_stats, registered)

  abbrev pub offload_quietly : Dict ℕ GpuLease → Local X (Unit {0})
  offload_quietly leases = best_effort (offload_trainers a leases config.gpu_plan.trainer_ranks)

  -- From the leases on. The handler of the outer `try` offloads the trainers when they are not offloaded
  -- yet: when their initialization, hydration or offloading fails.
  pub use_trainers : TrainBatch → WeightMeta → Dict ℕ GpuLease → Local X (List Value × WeightMeta)
  unfolding train_and_export
  use_trainers batch current leases = do
    attempt
        (do
          ensure_trainers_initialized a config.gpu_plan.trainer_ranks
          hydrate_trainers a leases config.gpu_plan.trainer_ranks)
        (λ e. offload_quietly leases)
    trained ← attempt (train_and_export batch current leases) (λ e. offload_quietly leases)
    attempt (offload_trainers a leases config.gpu_plan.trainer_ranks) (λ e. offload_quietly leases)
    pure trained

  -- The body of the outer `try`, before the batch is acknowledged.
  unfoldable pub use_window : TrainBatch → WeightMeta → Action X (List Value × WeightMeta)
  unfolding use_trainers
  use_window batch current = do
    on_shared_replicas a.offload_replica config.gpu_plan
    grant_train_window w config.gpu_plan.trainer_ranks
    leases ← trainer_leases w config.gpu_plan.trainer_ranks []
    on_handles (use_trainers batch current leases)

  -- The body of the outer `try`.
  unfoldable pub train_window : TrainBatch → WeightMeta → Action X (List Value × WeightMeta)
  unfolding use_window
  train_window batch current = do
    trained ← use_window batch current
    on_queue (Queue.ack_batch batch.train_batch_id)
    pure trained

  -- With its `except`: the batch is released.
  unfoldable pub try_train_window : TrainBatch → WeightMeta → Action X (List Value × WeightMeta)
  unfolding train_window
  try_train_window batch current =
      attempt (train_window batch current)
        (λ e. on_queue (Queue.release_batch batch.train_batch_id))

  -- The `finally`: the shared GPUs go back to rollout, and their replicas wake up.
  unfoldable pub give_gpus_back : Action X (Unit {0})
  give_gpus_back = do
    grant_rollout_window config.gpu_plan config.gpu_plan.shared_gpu_ids
    on_shared_replicas a.wake_replica config.gpu_plan

  -- `_run_train_step`
  unfoldable pub run_train_step : TrainBatch → WeightMeta → Action X (List Value × WeightMeta)
  unfolding try_train_window give_gpus_back
  run_train_step batch current = do
    trained ← finally_do (try_train_window batch current) give_gpus_back
    active ← activate_weight_for_rollout a w config trained.1
    pure (trained.0, active)
