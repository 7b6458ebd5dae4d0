-- ===== src/Offload/Tests.antt =====
-- The toggles of nano_rl/runtime/offload.py on one shared GPU, GPU 1, that has been given away.
use nano_rl.Prelude.{◌≡◌, refl, none, some, [], ◌∷◌, arith}
use nano_rl.Prelude.Equality.{nat_eq}
use nano_rl.Prelude.Dict.{lookup, insert}
use nano_rl.Prelude.Exec.{err}
use nano_rl.Slot.Names.{GpuTopology, ResidencyState, rollout, trainer}
use nano_rl.Slot.Types.{GpuLease, GpuLeaseState}
use nano_rl.Slot.Lease.{granted, lease_of}
use nano_rl.Slot.Lease.Tests.{fresh, state_of}
use nano_rl.Slot.Lease.Fencing.{Admits, state-Admits}
use nano_rl.Offload.{ResidencyManager, create, enter_train, exit_train, all_rollout, check_report}
use nano_rl.Offload.Types.{vllm_sleep_strategy, cpu_pinned_trainer_strategy, ResidencyHook}
use nano_rl.Offload.Waking.{offload_verdict, hydrate_verdict}
use nano_rl.Offload.Toggling.{IsReady, Toggled}
use nano_rl.Offload.Entering.{enter_train_outcome}
use nano_rl.Offload.Leaving.{exit_train_outcome}
use nano_rl.Offload.Handover.{enter_train_fences_rollout}
use nano_rl.Offload.Coherence.{IsCoherent}
use nano_rl.Offload.Histories.{enters, exits, run_toggles, run_toggles-IsCoherent}

abbrev broken : ResidencyHook
broken context = err "out of memory"

abbrev at_rest : ResidencyManager
at_rest = record {
  lease_manager = fresh;
  rollout_strategy = vllm_sleep_strategy none none;
  trainer_strategy = cpu_pinned_trainer_strategy none (some broken);
  offload_timeout_sec = 10;
  hydrate_timeout_sec = 20;
  residual_gpu_memory_budget_mb = 100;
  states = (1, ResidencyState.rollout_active) ∷ [];
}

created :
    create fresh none (some (cpu_pinned_trainer_strategy none (some broken))) 10 20 100 ≡ at_rest
unfolding create all_rollout insert
created = refl

abbrev shared_state : GpuLeaseState
shared_state = state_of 1 GpuTopology.shared "w1"

abbrev rollout_lease : GpuLease
rollout_lease = lease_of 1 rollout "w1" 0

at_rest-IsReady :
    IsReady at_rest rollout_lease ResidencyState.rollout_active shared_state
      (rollout ∷ trainer ∷ [])
unfolding lookup
at_rest-IsReady = record {
  at = record { leased = refl; shared = refl; resident = refl };
  admitted =
      state-Admits fresh rollout_lease shared_state (rollout ∷ trainer ∷ []) refl refl refl
        (record { is_active = refl; has_role = refl; has_holder = refl; has_epoch = refl });
  knows = refl;
  for_rollout = refl;
  for_trainer = refl;
}

enter_train_outcome_example :
    Toggled ResidencyState.rollout_active ResidencyState.trainer_active rollout_lease
      (lease_of 1 trainer "t0" 1)
      (granted shared_state 1 trainer "t0")
      at_rest
      (offload_verdict at_rest at_rest.rollout_strategy rollout_lease)
      (hydrate_verdict at_rest at_rest.trainer_strategy (lease_of 1 trainer "t0" 1))
      (enter_train rollout_lease "t0" at_rest)
enter_train_outcome_example =
    enter_train_outcome at_rest rollout_lease "t0" shared_state (rollout ∷ trainer ∷ []) refl
      at_rest-IsReady

at_rest-passes : offload_verdict at_rest at_rest.rollout_strategy rollout_lease ≡ none
unfolding check_report
at_rest-passes = refl

enter_train_fences_rollout_example :
    Admits (enter_train rollout_lease "t0" at_rest).1.lease_manager (lease_of 1 trainer "t0" 1)
    × ¬ Admits (enter_train rollout_lease "t0" at_rest).1.lease_manager rollout_lease
enter_train_fences_rollout_example =
    enter_train_fences_rollout at_rest rollout_lease "t0" shared_state (rollout ∷ trainer ∷ []) refl
      at_rest-IsReady at_rest-passes

abbrev trained_state : GpuLeaseState
trained_state = granted shared_state 1 trainer "t0"

abbrev trainer_lease : GpuLease
trainer_lease = lease_of 1 trainer "t0" 1

abbrev training : ResidencyManager
training = record at_rest {
  lease_manager = record fresh {
    states = (0, state_of 0 GpuTopology.rollout_only "w0") ∷ (1, trained_state) ∷ [];
  };
  states = (1, ResidencyState.trainer_active) ∷ [];
}

training-IsReady :
    IsReady training trainer_lease ResidencyState.trainer_active trained_state
      (rollout ∷ trainer ∷ [])
unfolding lookup
training-IsReady = record {
  at = record { leased = refl; shared = refl; resident = refl };
  admitted =
      state-Admits training.lease_manager trainer_lease trained_state (rollout ∷ trainer ∷ []) refl
        refl refl
        (record { is_active = refl; has_role = refl; has_holder = refl; has_epoch = refl });
  knows = refl;
  for_rollout = refl;
  for_trainer = refl;
}

exit_train_outcome_example :
    Toggled ResidencyState.trainer_active ResidencyState.rollout_active trainer_lease
      (lease_of 1 rollout "w1" 2)
      (granted trained_state 1 rollout "w1")
      training
      (offload_verdict training training.trainer_strategy trainer_lease)
      (hydrate_verdict training training.rollout_strategy (lease_of 1 rollout "w1" 2))
      (exit_train trainer_lease "w1" training)
exit_train_outcome_example =
    exit_train_outcome training trainer_lease "w1" trained_state (rollout ∷ trainer ∷ []) refl
      training-IsReady

at_rest-IsCoherent : IsCoherent at_rest
unfolding lookup
at_rest-IsCoherent = record { at = λ g. ground arith }

run_toggles-IsCoherent_example : IsCoherent (
    run_toggles
      (enters rollout_lease "t0" ∷ exits trainer_lease "w1" ∷ enters rollout_lease "t1" ∷ [])
      at_rest)
run_toggles-IsCoherent_example =
    run_toggles-IsCoherent
      (enters rollout_lease "t0" ∷ exits trainer_lease "w1" ∷ enters rollout_lease "t1" ∷ [])
      at_rest at_rest-IsCoherent

abbrev lost : ResidencyManager
lost = record at_rest { states = (1, ResidencyState.degraded) ∷ [] }

lost-IsCoherent : IsCoherent lost
unfolding lookup
lost-IsCoherent = record { at = λ g. ground arith }

lost-degraded : lookup 1 lost.states ≡ some ResidencyState.degraded
unfolding lookup
lost-degraded = refl
