-- ===== src/Offload/Entering.antt =====
-- `enter_train` of nano_rl/runtime/offload.py on a GPU that is ready for it.
use nano_rl.Prelude.{String, ◌≡◌, refl, some, List, [], ◌∷◌, arith, Option-cases, inl, inr}
use nano_rl.Prelude.Equality.{nat_eq}
use nano_rl.Prelude.Dict.{lookup-insert_self}
use nano_rl.Slot.Names.{RoleName, ResidencyState, rollout, trainer, role_eq}
use nano_rl.Slot.Types.{GpuLease, GpuLeaseState}
use nano_rl.Slot.Lease.Granting.{grant_fresh}
use nano_rl.Offload.{
  ResidencyManager, enter_train, enter_wake, record_of, run_offload, hook_result, check_report,
}
use nano_rl.Offload.Types.{ResidencyTransition}
use nano_rl.Offload.Outcomes.{Elsewhere-refl, moved-Elsewhere, with_lease, failure-Degraded}
use nano_rl.Offload.Moves.{
  moved, moved-IsAt, move_passes, assert_state_passes, assert_current_lease_passes,
}
use nano_rl.Offload.Waking.{
  offload_verdict, offload_report, hydrate_verdict, wake_up_outcome, check_report-moved,
}
use nano_rl.Offload.Toggling.{IsReady, Toggled, Settled-from, other_role-free, new_lease, new_state}

module _ (c : ResidencyManager) (l : GpuLease) (holder : String) (s : GpuLeaseState)
    (roles : List RoleName) where
  -- With a rollout lease that is in force, on a shared GPU that both roles may use and that is
  -- ROLLOUT_ACTIVE, `enter_train` does not raise. If the check of the offload finds a fault, the
  -- result fails with that event and reason, the GPU is DEGRADED and no lease changes. Else the
  -- trainer has the lease of the next epoch, and if the check of the hydration finds a fault the
  -- result fails with it and the GPU is DEGRADED; if not, the result succeeds, the GPU is
  -- TRAINER_ACTIVE, and the records of the result lead there from ROLLOUT_ACTIVE without a gap. No
  -- other GPU changes.
  pub enter_train_outcome :
      l.role ≡ rollout
      → IsReady c l ResidencyState.rollout_active s roles
      → Toggled ResidencyState.rollout_active ResidencyState.trainer_active l
          (new_lease l holder s trainer)
          (new_state l holder s trainer)
          c
          (offload_verdict c c.rollout_strategy l)
          (hydrate_verdict c c.trainer_strategy (new_lease l holder s trainer))
          (enter_train l holder c)
  unfolding enter_train run_offload check_report
  enter_train_outcome role ready =
      let begun = moved c l.gpu_id ResidencyState.rollout_draining in
      let away = moved begun l.gpu_id ResidencyState.rollout_offloaded in
      let first =
        record_of ResidencyTransition.enter_train l ResidencyState.rollout_active
          ResidencyState.rollout_draining in
      let second =
        record_of ResidencyTransition.rollout_offloaded l ResidencyState.rollout_draining
          ResidencyState.rollout_offloaded in
      let moves = first ∷ second ∷ [] in
      let is_begun =
        moved-IsAt c l.gpu_id s ResidencyState.rollout_active ResidencyState.rollout_draining
          ready.at in
      let (free, alive) =
        other_role-free c.lease_manager l s trainer holder ready.at.leased ready.admitted
          (ground (arith, role)) in
      let given = with_lease away l.gpu_id (new_state l holder s trainer) in
      elim (Option-cases (offload_verdict c c.rollout_strategy l)) [
        | inl e ↦
            rw
              (
                e,
                assert_current_lease_passes c l rollout s ResidencyState.rollout_active role
                    ready.at ready.admitted,
                assert_state_passes c l.gpu_id s ResidencyState.rollout_active ready.at,
                move_passes c l s ResidencyState.rollout_active ResidencyState.rollout_draining []
                    ResidencyTransition.enter_train ready.at,
                check_report-moved c l.gpu_id ResidencyState.rollout_draining,
                e,
                lookup-insert_self l.gpu_id ResidencyState.rollout_draining c.states,
                move_passes begun l s ResidencyState.rollout_draining
                    ResidencyState.rollout_offloaded (first ∷ [])
                    ResidencyTransition.rollout_offloaded is_begun,
                grant_fresh c.lease_manager trainer l.gpu_id holder s roles ready.at.leased
                    ready.knows ready.for_trainer alive free,
              )
              (Settled-from ResidencyState.rollout_active ResidencyState.trainer_active
                (new_lease l holder s trainer)
                (with_lease c l.gpu_id (new_state l holder s trainer)) given _ _ refl
                (moved-Elsewhere l.gpu_id ResidencyState.rollout_offloaded _
                  (moved (with_lease c l.gpu_id (new_state l holder s trainer)) l.gpu_id
                    ResidencyState.rollout_draining)
                  (moved-Elsewhere l.gpu_id ResidencyState.rollout_draining _
                    (with_lease c l.gpu_id (new_state l holder s trainer)) (Elsewhere-refl _ _)))
                (wake_up_outcome given (enter_wake c) (new_lease l holder s trainer)
                  (new_state l holder s trainer) moves ResidencyState.rollout_active
                  (record {
                    leased = lookup-insert_self _ _ _;
                    shared = ready.at.shared;
                    resident = lookup-insert_self _ _ _;
                  })
                  (refl, (refl, refl))))
        | inr (f, e) ↦
            rw
              (
                e,
                assert_current_lease_passes c l rollout s ResidencyState.rollout_active role
                    ready.at ready.admitted,
                assert_state_passes c l.gpu_id s ResidencyState.rollout_active ready.at,
                move_passes c l s ResidencyState.rollout_active ResidencyState.rollout_draining []
                    ResidencyTransition.enter_train ready.at,
                check_report-moved c l.gpu_id ResidencyState.rollout_draining,
                e,
                lookup-insert_self l.gpu_id ResidencyState.degraded
                    (moved c l.gpu_id ResidencyState.rollout_draining).states,
              )
              (failure-Degraded c l
                (hook_result c.rollout_strategy l (offload_report c.rollout_strategy l) (some f)
                  ResidencyState.degraded)
                (first ∷ []) ResidencyState.rollout_draining f refl refl refl refl)
      ]
