-- ===== src/Offload/Leaving.antt =====
-- `exit_train` of nano_rl/runtime/offload.py on a GPU that is ready for it.
use nano_rl.Prelude.{String, ◌≡◌, refl, some, List, [], ◌∷◌, arith, Option-cases, inl, inr}
use nano_rl.Prelude.Equality.{nat_eq}
use nano_rl.Prelude.Dict.{lookup-insert_self}
use nano_rl.Slot.Names.{RoleName, ResidencyState, rollout, trainer, role_eq}
use nano_rl.Slot.Types.{GpuLease, GpuLeaseState}
use nano_rl.Slot.Lease.Granting.{grant_fresh}
use nano_rl.Offload.{
  ResidencyManager, exit_train, exit_wake, record_of, run_offload, hook_result, check_report,
}
use nano_rl.Offload.Types.{ResidencyTransition}
use nano_rl.Offload.Outcomes.{Elsewhere-refl, moved-Elsewhere, with_lease, failure-Degraded}
use nano_rl.Offload.Moves.{moved, move_passes, assert_state_passes, assert_current_lease_passes}
use nano_rl.Offload.Waking.{
  offload_verdict, offload_report, hydrate_verdict, wake_up_outcome, check_report-moved,
}
use nano_rl.Offload.Toggling.{IsReady, Toggled, Settled-from, other_role-free, new_lease, new_state}

module _ (c : ResidencyManager) (l : GpuLease) (holder : String) (s : GpuLeaseState)
    (roles : List RoleName) where
  -- With a trainer lease that is in force, on a shared GPU that both roles may use and that is
  -- TRAINER_ACTIVE, `exit_train` does not raise. If the check of the offload finds a fault, the
  -- result fails with that event and reason, the GPU is DEGRADED and no lease changes. Else the
  -- rollout has the lease of the next epoch, and if the check of the hydration finds a fault the
  -- result fails with it and the GPU is DEGRADED; if not, the result succeeds, the GPU is
  -- ROLLOUT_ACTIVE, and the records of the result lead there from TRAINER_ACTIVE without a gap. No
  -- other GPU changes.
  pub exit_train_outcome :
      l.role ≡ trainer
      → IsReady c l ResidencyState.trainer_active s roles
      → Toggled ResidencyState.trainer_active ResidencyState.rollout_active l
          (new_lease l holder s rollout)
          (new_state l holder s rollout)
          c
          (offload_verdict c c.trainer_strategy l)
          (hydrate_verdict c c.rollout_strategy (new_lease l holder s rollout))
          (exit_train l holder c)
  unfolding exit_train run_offload check_report
  exit_train_outcome role ready =
      let away = moved c l.gpu_id ResidencyState.trainer_offloaded in
      let first =
        record_of ResidencyTransition.exit_train l ResidencyState.trainer_active
          ResidencyState.trainer_offloaded in
      let moves = first ∷ [] in
      let (free, alive) =
        other_role-free c.lease_manager l s rollout holder ready.at.leased ready.admitted
          (ground (arith, role)) in
      let given = with_lease away l.gpu_id (new_state l holder s rollout) in
      elim (Option-cases (offload_verdict c c.trainer_strategy l)) [
        | inl e ↦
            rw
              (
                e,
                assert_current_lease_passes c l trainer s ResidencyState.trainer_active role
                    ready.at ready.admitted,
                assert_state_passes c l.gpu_id s ResidencyState.trainer_active ready.at,
                move_passes c l s ResidencyState.trainer_active ResidencyState.trainer_offloaded []
                    ResidencyTransition.exit_train ready.at,
                check_report-moved c l.gpu_id ResidencyState.trainer_offloaded,
                e,
                lookup-insert_self l.gpu_id ResidencyState.trainer_offloaded c.states,
                grant_fresh c.lease_manager rollout l.gpu_id holder s roles ready.at.leased
                    ready.knows ready.for_rollout alive free,
              )
              (Settled-from ResidencyState.trainer_active ResidencyState.rollout_active
                (new_lease l holder s rollout)
                (with_lease c l.gpu_id (new_state l holder s rollout)) given _ _ refl
                (moved-Elsewhere l.gpu_id ResidencyState.trainer_offloaded _
                  (with_lease c l.gpu_id (new_state l holder s rollout)) (Elsewhere-refl _ _))
                (wake_up_outcome given (exit_wake c) (new_lease l holder s rollout)
                  (new_state l holder s rollout) moves ResidencyState.trainer_active
                  (record {
                    leased = lookup-insert_self _ _ _;
                    shared = ready.at.shared;
                    resident = lookup-insert_self _ _ _;
                  })
                  (refl, refl)))
        | inr (f, e) ↦
            rw
              (
                e,
                assert_current_lease_passes c l trainer s ResidencyState.trainer_active role
                    ready.at ready.admitted,
                assert_state_passes c l.gpu_id s ResidencyState.trainer_active ready.at,
                move_passes c l s ResidencyState.trainer_active ResidencyState.trainer_offloaded []
                    ResidencyTransition.exit_train ready.at,
                check_report-moved c l.gpu_id ResidencyState.trainer_offloaded,
                e,
                lookup-insert_self l.gpu_id ResidencyState.degraded
                    (moved c l.gpu_id ResidencyState.trainer_offloaded).states,
              )
              (failure-Degraded c l
                (hook_result c.trainer_strategy l (offload_report c.trainer_strategy l) (some f)
                  ResidencyState.degraded)
                (first ∷ []) ResidencyState.trainer_offloaded f refl refl refl refl)
      ]
