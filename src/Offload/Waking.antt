-- ===== src/Offload/Waking.antt =====
-- The second half of `enter_train` and `exit_train` of nano_rl/runtime/offload.py: the hydration of the
-- role that has got the lease.
use nano_rl.Prelude.{◌≡◌, ℕ, refl, Option, none, some, List, [], ◌∷◌, ◌++◌, Option-cases, inl, inr}
use nano_rl.Prelude.Equality.{nat_eq}
use nano_rl.Prelude.Dict.{lookup-insert_self}
use nano_rl.Slot.Names.{ResidencyState}
use nano_rl.Slot.Types.{GpuLease, GpuLeaseState}
use nano_rl.Offload.{
  ResidencyManager, Wake, wake_up, record_of, run_hydrate, hook_result, check_report, report_of,
  context_of,
}
use nano_rl.Offload.Types.{
  ResidencyTransitionRecord, ResidencyOperation, ResidencyHookReport, Strategy, strategy_hydrate,
  strategy_offload, OffloadEventType, Reason,
}
use nano_rl.Offload.Outcomes.{Route, Settled, final_result-Arrived, final_result-Degraded}
use nano_rl.Offload.Moves.{IsAt, moved, moved-IsAt, move_passes}

abbrev pub hydrate_report : Strategy → GpuLease → ResidencyHookReport
hydrate_report s l = report_of (strategy_hydrate s (context_of l ResidencyOperation.hydrate s.name))

-- What the manager finds wrong with the hydration of the lease's role.
abbrev pub hydrate_verdict :
    ResidencyManager → Strategy → GpuLease → Option (OffloadEventType × Reason)
hydrate_verdict c s l = check_report c (hydrate_report s l) ResidencyOperation.hydrate

abbrev pub offload_report : Strategy → GpuLease → ResidencyHookReport
offload_report s l = report_of (strategy_offload s (context_of l ResidencyOperation.offload s.name))

abbrev pub offload_verdict :
    ResidencyManager → Strategy → GpuLease → Option (OffloadEventType × Reason)
offload_verdict c s l = check_report c (offload_report s l) ResidencyOperation.offload

pub check_report-moved :
    (c : ResidencyManager) (gpu : ℕ) (state : ResidencyState) (r : ResidencyHookReport)
    (o : ResidencyOperation)
    → check_report (moved c gpu state) r o ≡ check_report c r o
unfolding check_report
check_report-moved c gpu state r o = refl

module _ (c : ResidencyManager) (w : Wake) (l : GpuLease) (s : GpuLeaseState)
    (done : List ResidencyTransitionRecord) (start : ResidencyState)
    (a : IsAt c l.gpu_id s w.from_state) (p : Route start w.from_state done) where
  abbrev first_move : List ResidencyTransitionRecord
  first_move = done ++ (record_of w.first l w.from_state w.mid_state ∷ [])

  -- The check of the hook's report alone decides how the hydration ends.
  pub wake_up_outcome :
      Settled start w.to_state l c (hydrate_verdict c w.strategy l) (wake_up w l done c)
  unfolding wake_up run_hydrate
  wake_up_outcome =
      let begun = moved c l.gpu_id w.mid_state in
      elim (Option-cases (hydrate_verdict c w.strategy l)) [
        | inl e ↦
            rw
              (
                move_passes c l s w.from_state w.mid_state done w.first a,
                check_report-moved c l.gpu_id w.mid_state,
                e,
                lookup-insert_self l.gpu_id w.mid_state c.states,
                move_passes begun l s w.mid_state w.to_state first_move w.second
                    (moved-IsAt c l.gpu_id s w.from_state w.mid_state a),
              )
              (final_result-Arrived c l w.strategy
                (hook_result w.strategy l (hydrate_report w.strategy l) none w.mid_state) done start
                w.from_state w.mid_state w.to_state w.first w.second p)
        | inr (f, e) ↦
            rw
              (
                move_passes c l s w.from_state w.mid_state done w.first a,
                check_report-moved c l.gpu_id w.mid_state,
                e,
                lookup-insert_self l.gpu_id ResidencyState.degraded begun.states,
              )
              (final_result-Degraded c l w.strategy
                (hook_result w.strategy l (hydrate_report w.strategy l) (some f)
                  ResidencyState.degraded)
                first_move w.mid_state f refl refl)
      ]
