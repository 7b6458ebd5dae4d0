-- ===== src/Offload.antt =====
-- `GpuResidencyManagerCore` of nano_rl/runtime/offload.py: who is in the memory of a shared GPU.
pub mod Types
pub mod Moves
pub mod Outcomes
pub mod Waking
pub mod Toggling
pub mod Refusing
pub mod Entering
pub mod Leaving
pub mod Coherence
pub mod Histories
pub mod Handover
mod Tests
use nano_rl.Prelude.{
  ℕ, String, Bool, true, false, not, Option, none, some, List, [], ◌∷◌, ◌++◌, ltb, if◌then◌else◌,
}
use nano_rl.Prelude.Equality.{◌==◌, nat_eq, string_eq}
use nano_rl.Prelude.Exec.{
  Result, ok, err, Exec, pure, gets, or_raise, raise_if, modify, ◌>>=◌, ◌>>◌,
}
use nano_rl.Prelude.Dict.{Dict, lookup, insert, has}
use nano_rl.Exceptions.{
  SlotError, role_unsupported, unexpected_lease, no_residency, wrong_residency, key_error,
}
use nano_rl.Slot.Names.{
  GpuTopology, RoleName, ResidencyState, rollout, trainer, role_eq, topology_beq, state_eq,
}
use nano_rl.Slot.Types.{ResolvedGpuPlan, GpuLease, GpuLeaseState}
use nano_rl.Slot.Lease as Lease
use nano_rl.Offload.Types.{
  ResidencyTransition, OffloadEventType, ResidencyOperation, ResidencyHookReport, default_report,
  ResidencyTransitionRecord, Reason, ResidencyResult, ResidencyHookContext, Strategy,
  strategy_offload, strategy_hydrate, vllm_sleep_strategy, cpu_pinned_trainer_strategy,
  took_too_long, residual_memory, hook_reason, hook_failed,
}

pub record ResidencyManager : Type 0 where
  pub lease_manager : Lease.Manager
  pub rollout_strategy : Strategy
  pub trainer_strategy : Strategy
  pub offload_timeout_sec : ℕ
  pub hydrate_timeout_sec : ℕ
  pub residual_gpu_memory_budget_mb : ℕ
  pub states : Dict ℕ ResidencyState

-- `{gpu_id: ROLLOUT_ACTIVE for gpu_id in shared_gpu_ids}`
pub all_rollout : List ℕ → Dict ℕ ResidencyState → Dict ℕ ResidencyState
all_rollout [] d = d
all_rollout (gpu_id ∷ gpu_ids) d =
    all_rollout gpu_ids (insert gpu_id ResidencyState.rollout_active d)

abbrev or_default : Option Strategy → Strategy → Strategy
or_default none d = d
or_default (some s) d = s

-- `__init__`
pub create : Lease.Manager → Option Strategy → Option Strategy → ℕ → ℕ → ℕ → ResidencyManager
unfolding all_rollout
create m rollout_strategy trainer_strategy offload_timeout hydrate_timeout budget = record {
  lease_manager = m;
  rollout_strategy = or_default rollout_strategy (vllm_sleep_strategy none none);
  trainer_strategy = or_default trainer_strategy (cpu_pinned_trainer_strategy none none);
  offload_timeout_sec = offload_timeout;
  hydrate_timeout_sec = hydrate_timeout;
  residual_gpu_memory_budget_mb = budget;
  states = all_rollout m.plan.shared_gpu_ids [];
}

abbrev pub Action : Type 0 → Type 0
Action A = Exec ResidencyManager SlotError A

-- A call on `self.lease_manager`.
abbrev pub on_lease : {A : Type 0} → Lease.Action A → Action A
on_lease act c = let (r, m) = act c.lease_manager in (r, record c { lease_manager = m })

abbrev pub put : ℕ → ResidencyState → Action (Unit {0})
put gpu_id state = modify (λ c. record c { states = insert gpu_id state c.states })

pub assert_shared_gpu : ℕ → Action (Unit {0})
assert_shared_gpu gpu_id = do
  state ← on_lease (Lease.get_state gpu_id)
  raise_if (not (topology_beq state.topology GpuTopology.shared)) (role_unsupported gpu_id trainer)
  present ← gets (λ c. has gpu_id c.states)
  raise_if (not present) (no_residency gpu_id)

abbrev pub state_at : ℕ → Action ResidencyState
state_at gpu_id c = or_raise (lookup gpu_id c.states) (key_error gpu_id) c

pub get_state : ℕ → Action ResidencyState
get_state gpu_id = do assert_shared_gpu gpu_id; state_at gpu_id

pub assert_state : ℕ → ResidencyState → Action (Unit {0})
assert_state gpu_id expected = do
  actual ← get_state gpu_id
  raise_if (not (actual == expected)) (wrong_residency gpu_id actual expected)

pub assert_current_lease : GpuLease → RoleName → Action (Unit {0})
assert_current_lease lease expected_role = do
  raise_if (not (lease.role == expected_role))
      (unexpected_lease expected_role lease.gpu_id lease.role)
  assert_shared_gpu lease.gpu_id
  on_lease
      (Lease.assert_active lease.role lease.gpu_id (some lease.holder_id) (some lease.lease_epoch))

abbrev pub record_of :
    ResidencyTransition → GpuLease → ResidencyState → ResidencyState → ResidencyTransitionRecord
record_of transition lease from_state to_state = record {
  transition = transition;
  from_state = from_state;
  to_state = to_state;
  gpu_id = lease.gpu_id;
  role = lease.role;
  holder_id = lease.holder_id;
  lease_epoch = lease.lease_epoch;
}

-- `_move`; it returns the list it appends to.
pub move :
    List ResidencyTransitionRecord
    → ResidencyTransition
    → GpuLease
    → ResidencyState
    → ResidencyState
    → Action (List ResidencyTransitionRecord)
move transitions transition lease from_state to_state = do
  assert_state lease.gpu_id from_state
  put lease.gpu_id to_state
  pure (transitions ++ (record_of transition lease from_state to_state ∷ []))

abbrev pub context_of : GpuLease → ResidencyOperation → String → ResidencyHookContext
context_of lease operation strategy = record {
  gpu_id = lease.gpu_id;
  role = lease.role;
  holder_id = lease.holder_id;
  lease_epoch = lease.lease_epoch;
  operation = operation;
  strategy = strategy;
}

abbrev pub timeout_for : ResidencyManager → ResidencyOperation → ℕ
timeout_for c ResidencyOperation.offload = c.offload_timeout_sec
timeout_for c ResidencyOperation.hydrate = c.hydrate_timeout_sec

abbrev pub failure_event_for : ResidencyOperation → OffloadEventType
failure_event_for ResidencyOperation.offload = OffloadEventType.shared_gpu_offload_failed
failure_event_for ResidencyOperation.hydrate = OffloadEventType.shared_gpu_hydrate_failed

-- `report.reason or f"{operation} hook failed"`
abbrev reason_or : Option String → ResidencyOperation → Reason
reason_or none operation = hook_failed operation
reason_or (some text) operation = if text == "" then hook_failed operation else hook_reason text

-- `_check_report`: the event and its reason, or nothing.
pub check_report :
    ResidencyManager → ResidencyHookReport → ResidencyOperation → Option (OffloadEventType × Reason)
check_report c report operation =
    if ltb (timeout_for c operation) report.duration_sec
    then some (
      OffloadEventType.shared_gpu_toggle_timeout,
      took_too_long operation report.duration_sec (timeout_for c operation),
    )
    else if ltb c.residual_gpu_memory_budget_mb report.residual_gpu_memory_mb
    then some (
      failure_event_for operation,
      residual_memory report.residual_gpu_memory_mb c.residual_gpu_memory_budget_mb,
    )
    else if report.success
    then none
    else some (failure_event_for operation, reason_or report.reason operation)

-- The report of a hook, or the one made of its exception.
abbrev pub report_of : Result String ResidencyHookReport → ResidencyHookReport
report_of (ok report) = report
report_of (err text) = record {
  success = false;
  reason = some text;
  duration_sec = 0;
  residual_gpu_memory_mb = 0;
  metadata = [];
}

abbrev pub hook_result :
    Strategy
    → GpuLease
    → ResidencyHookReport
    → Option (OffloadEventType × Reason)
    → ResidencyState
    → ResidencyResult
hook_result strategy lease report failure state = record {
  success = elim failure [ none ↦ true | some _ ↦ false ];
  gpu_id = lease.gpu_id;
  role = lease.role;
  holder_id = lease.holder_id;
  lease_epoch = lease.lease_epoch;
  state = state;
  strategy = strategy.name;
  reason = elim failure [ none ↦ none | some f ↦ some f.1 ];
  event_type = elim failure [ none ↦ none | some f ↦ some f.0 ];
  duration_sec = report.duration_sec;
  residual_gpu_memory_mb = report.residual_gpu_memory_mb;
  lease = some lease;
  transitions = [];
  metadata = report.metadata;
}

abbrev pub degrade_if : Option (OffloadEventType × Reason) → ℕ → Action (Unit {0})
degrade_if none gpu_id = pure tt
degrade_if (some f) gpu_id = put gpu_id ResidencyState.degraded

-- What `_run_offload` and `_run_hydrate` do with the report.
abbrev pub settle :
    Strategy → GpuLease → ResidencyOperation → ResidencyHookReport → Action ResidencyResult
settle strategy lease operation report = do
  failure ← gets (λ c. check_report c report operation)
  degrade_if failure lease.gpu_id
  state ← state_at lease.gpu_id
  pure (hook_result strategy lease report failure state)

pub run_offload : Strategy → GpuLease → Action ResidencyResult
run_offload strategy lease = settle strategy lease ResidencyOperation.offload (
    report_of
      (strategy_offload strategy (context_of lease ResidencyOperation.offload strategy.name)))

pub run_hydrate : Strategy → GpuLease → Action ResidencyResult
run_hydrate strategy lease = settle strategy lease ResidencyOperation.hydrate (
    report_of
      (strategy_hydrate strategy (context_of lease ResidencyOperation.hydrate strategy.name)))

-- `_hydrate_failure_from_offload`
abbrev pub failure_from_offload : ResidencyResult → List ResidencyTransitionRecord → ResidencyResult
failure_from_offload r transitions = record r { success = false; transitions = transitions }

-- The results that `enter_train` and `exit_train` build from the hydration.
abbrev pub final_result :
    Bool
    → Strategy
    → GpuLease
    → ResidencyState
    → ResidencyResult
    → List ResidencyTransitionRecord
    → ResidencyResult
final_result success strategy lease state hydrated transitions = record {
  success = success;
  gpu_id = lease.gpu_id;
  role = lease.role;
  holder_id = lease.holder_id;
  lease_epoch = lease.lease_epoch;
  state = state;
  strategy = strategy.name;
  reason = if success then none else hydrated.reason;
  event_type = if success then none else hydrated.event_type;
  duration_sec = hydrated.duration_sec;
  residual_gpu_memory_mb = hydrated.residual_gpu_memory_mb;
  lease = some lease;
  transitions = transitions;
  metadata = hydrated.metadata;
}

abbrev pub hydration_failed :
    Strategy → GpuLease → ResidencyResult → List ResidencyTransitionRecord → Action ResidencyResult
hydration_failed strategy lease hydrated transitions = do
  put lease.gpu_id ResidencyState.degraded
  pure (final_result false strategy lease ResidencyState.degraded hydrated transitions)

-- From the granted lease on, `enter_train` and `exit_train` do the same with other names: a move, the
-- hydration, a second move.
pub record Wake : Type 0 where
  pub strategy : Strategy
  pub first : ResidencyTransition
  pub from_state : ResidencyState
  pub mid_state : ResidencyState
  pub second : ResidencyTransition
  pub to_state : ResidencyState

abbrev pub enter_wake : ResidencyManager → Wake
enter_wake c = record {
  strategy = c.trainer_strategy;
  first = ResidencyTransition.trainer_hydrating;
  from_state = ResidencyState.rollout_offloaded;
  mid_state = ResidencyState.trainer_hydrating;
  second = ResidencyTransition.trainer_hydrated;
  to_state = ResidencyState.trainer_active;
}

abbrev pub exit_wake : ResidencyManager → Wake
exit_wake c = record {
  strategy = c.rollout_strategy;
  first = ResidencyTransition.trainer_offloaded;
  from_state = ResidencyState.trainer_offloaded;
  mid_state = ResidencyState.rollout_waking;
  second = ResidencyTransition.rollout_hydrated;
  to_state = ResidencyState.rollout_active;
}

abbrev pub finish_hydration :
    Wake → GpuLease → ResidencyResult → List ResidencyTransitionRecord → Action ResidencyResult
finish_hydration w lease hydrated transitions =
    if hydrated.success
    then (do
      all ← move transitions w.second lease w.mid_state w.to_state
      pure (final_result true w.strategy lease w.to_state hydrated all))
    else hydration_failed w.strategy lease hydrated transitions

pub wake_up : Wake → GpuLease → List ResidencyTransitionRecord → Action ResidencyResult
wake_up w lease moved = do
  transitions ← move moved w.first lease w.from_state w.mid_state
  hydrated ← run_hydrate w.strategy lease
  finish_hydration w lease hydrated transitions

-- `enter_train` from the finished offload on.
abbrev pub after_rollout_offload :
    GpuLease → String → ResidencyResult → List ResidencyTransitionRecord → Action ResidencyResult
after_rollout_offload rollout_lease trainer_holder_id offloaded moved =
    if offloaded.success
    then (do
      transitions ←
          move moved ResidencyTransition.rollout_offloaded rollout_lease
            ResidencyState.rollout_draining ResidencyState.rollout_offloaded
      trainer_lease ← on_lease (Lease.grant trainer rollout_lease.gpu_id trainer_holder_id)
      wake ← gets enter_wake
      wake_up wake trainer_lease transitions)
    else pure (failure_from_offload offloaded moved)

pub enter_train : GpuLease → String → Action ResidencyResult
enter_train rollout_lease trainer_holder_id = do
  assert_current_lease rollout_lease rollout
  assert_state rollout_lease.gpu_id ResidencyState.rollout_active
  transitions ←
      move [] ResidencyTransition.enter_train rollout_lease ResidencyState.rollout_active
        ResidencyState.rollout_draining
  strategy ← gets (λ c. c.rollout_strategy)
  offloaded ← run_offload strategy rollout_lease
  after_rollout_offload rollout_lease trainer_holder_id offloaded transitions

-- `exit_train` from the finished offload on.
abbrev pub after_trainer_offload :
    GpuLease → String → ResidencyResult → List ResidencyTransitionRecord → Action ResidencyResult
after_trainer_offload trainer_lease rollout_holder_id offloaded moved =
    if offloaded.success
    then (do
      rollout_lease ← on_lease (Lease.grant rollout trainer_lease.gpu_id rollout_holder_id)
      wake ← gets exit_wake
      wake_up wake rollout_lease moved)
    else pure (failure_from_offload offloaded moved)

pub exit_train : GpuLease → String → Action ResidencyResult
exit_train trainer_lease rollout_holder_id = do
  assert_current_lease trainer_lease trainer
  assert_state trainer_lease.gpu_id ResidencyState.trainer_active
  transitions ←
      move [] ResidencyTransition.exit_train trainer_lease ResidencyState.trainer_active
        ResidencyState.trainer_offloaded
  strategy ← gets (λ c. c.trainer_strategy)
  offloaded ← run_offload strategy trainer_lease
  after_trainer_offload trainer_lease rollout_holder_id offloaded transitions
