-- ===== src/Controller/Windows.antt =====
-- `enter_train_window` and `return_to_rollout` of nano_rl/runtime/controller.py: all trainer GPUs in
-- turn.
use nano_rl.Prelude.{ℕ, String, Option, none, some, List, [], ◌∷◌, if◌then◌else◌}
use nano_rl.Prelude.Exec.{pure, raise, gets, ◌>>=◌, ◌>>◌}
use nano_rl.Exceptions.{no_rollout_worker}
use nano_rl.Slot.Names.{rollout, trainer}
use nano_rl.Slot.Types.{GpuLeaseState, rollout_worker_for_gpu}
use nano_rl.Slot.Lease as Lease
use nano_rl.Offload as Offload
use nano_rl.Offload.Types.{OffloadEventType, ResidencyResult, Reason}
use nano_rl.Coordinators.Trainers.{RankAssignment}
use nano_rl.Metrics.{EventSeverity}
use nano_rl.Controller.{
  World, ControllerError, Action, on_residency, on_leases, or_error, emit_event, trainer_holder,
  rank_for_gpu, of_slot, enter_failed, return_failed, no_trainer_rank,
}

abbrev pub event_text : Option OffloadEventType → String
event_text none = "SHARED_GPU_TOGGLE_FAILED"
event_text (some OffloadEventType.shared_gpu_offload_failed) = "SHARED_GPU_OFFLOAD_FAILED"
event_text (some OffloadEventType.shared_gpu_hydrate_failed) = "SHARED_GPU_HYDRATE_FAILED"
event_text (some OffloadEventType.shared_gpu_toggle_timeout) = "SHARED_GPU_TOGGLE_TIMEOUT"

-- `if not result.success: emit, raise`
abbrev pub check_toggled :
    World → (ℕ → Option Reason → ControllerError) → ℕ → ResidencyResult → Action (Unit {0})
check_toggled w failed gpu result = if result.success then pure tt else (do
  emit_event w (event_text result.event_type) EventSeverity.error (some gpu)
  raise (failed gpu result.reason))

-- One round of the loop of `enter_train_window`.
unfoldable pub enter_gpu : World → RankAssignment → Action GpuLeaseState
enter_gpu w a = do
  plan ← gets (λ c. c.launch_config.gpu_plan)
  worker ← or_error (of_slot (no_rollout_worker a.gpu_id)) (rollout_worker_for_gpu plan a.gpu_id)
  lease ← on_leases (Lease.current_lease rollout a.gpu_id (some worker.worker_id))
  result ← on_residency (Offload.enter_train lease (trainer_holder w a.rank))
  check_toggled w enter_failed a.gpu_id result
  on_leases (
      Lease.assert_active trainer a.gpu_id (some (trainer_holder w a.rank))
        (some result.lease_epoch))
  on_leases (Lease.get_state a.gpu_id)

unfoldable pub enter_loop : World → List RankAssignment → Action (List GpuLeaseState)
unfolding enter_gpu
enter_loop w [] = pure []
enter_loop w (a ∷ later) = do
  state ← enter_gpu w a
  states ← enter_loop w later
  pure (state ∷ states)

unfoldable pub enter_train_window : World → Action (List GpuLeaseState)
unfolding enter_loop
enter_train_window w c = enter_loop w c.trainer_coordinator.rank_assignments c

-- One round of the loop of `return_to_rollout`.
unfoldable pub return_gpu : World → ℕ → Action GpuLeaseState
unfolding rank_for_gpu
return_gpu w gpu = do
  plan ← gets (λ c. c.launch_config.gpu_plan)
  worker ← or_error (of_slot (no_rollout_worker gpu)) (rollout_worker_for_gpu plan gpu)
  assignments ← gets (λ c. c.trainer_coordinator.rank_assignments)
  rank ← or_error (no_trainer_rank gpu) (rank_for_gpu gpu assignments)
  lease ← on_leases (Lease.current_lease trainer gpu (some (trainer_holder w rank)))
  result ← on_residency (Offload.exit_train lease worker.worker_id)
  check_toggled w return_failed gpu result
  on_leases (Lease.assert_active rollout gpu (some worker.worker_id) (some result.lease_epoch))
  on_leases (Lease.get_state gpu)

unfoldable pub return_loop : World → List ℕ → Action (List GpuLeaseState)
unfolding return_gpu
return_loop w [] = pure []
return_loop w (gpu ∷ gpus) = do
  state ← return_gpu w gpu
  states ← return_loop w gpus
  pure (state ∷ states)

unfoldable pub return_to_rollout : World → Action (List GpuLeaseState)
unfolding return_loop
return_to_rollout w c = return_loop w c.launch_config.gpu_plan.shared_gpu_ids c
