-- ===== src/Slot/Lease.antt =====
-- `GpuLeaseManagerCore` of nano_rl/runtime/slot.py: which role may use a GPU, at which epoch.
pub mod Invariant
pub mod Changes
pub mod Fencing
pub mod Granting
pub mod Refusals
pub mod Creation
pub mod Serving
pub mod Tests
use nano_rl.Prelude.{
  ℕ, ◌+◌, String, Bool, true, false, not, Option, none, some, List, [], ◌∷◌, if◌then◌else◌,
}
use nano_rl.Prelude.Equality.{◌==◌, nat_eq, string_eq, is_some_of, contains}
use nano_rl.Prelude.Exec.{Result, ok, err, Exec, pure, or_raise, raise_if, modify, ◌>>=◌, ◌>>◌}
use nano_rl.Prelude.Dict.{Dict, lookup, insert}
use nano_rl.Exceptions.{
  SlotError, role_unsupported, unknown_gpu, no_rollout_worker, gpu_failed, wrong_role, wrong_holder,
  wrong_epoch, no_holder,
}
use nano_rl.Slot.Names.{GpuTopology, RoleName, GpuLeasePhase, rollout, trainer, role_eq, is_failed}
use nano_rl.Slot.Types.{ResolvedGpuPlan, GpuLease, GpuLeaseState, rollout_worker_for_gpu}

pub record Manager : Type 0 where
  pub plan : ResolvedGpuPlan
  pub states : Dict ℕ GpuLeaseState
  pub supported_roles : Dict ℕ (List RoleName)

abbrev initial_state :
    ℕ → GpuTopology → GpuLeasePhase → Option RoleName → Option String → GpuLeaseState
initial_state gpu_id topology phase active_role holder_id = record {
  gpu_id = gpu_id;
  topology = topology;
  phase = phase;
  active_role = active_role;
  holder_id = holder_id;
  lease_epoch = 0;
  failed_reason = none;
}

-- One round of the loop in `__init__`: the roles of a GPU and its first state.
pub init_gpu : ResolvedGpuPlan → ℕ → Result SlotError (List RoleName × GpuLeaseState)
init_gpu plan gpu_id =
    let in_rollout =
      (if contains gpu_id plan.rollout_only_gpu_ids
        then true
        else contains gpu_id plan.shared_gpu_ids) in
    let in_shared = contains gpu_id plan.shared_gpu_ids in
    if in_rollout
    then elim (rollout_worker_for_gpu plan gpu_id) [
      | none ↦ err (no_rollout_worker gpu_id)
      | some worker ↦ ok (
        rollout ∷ (if in_shared then trainer ∷ [] else []),
        initial_state gpu_id (if in_shared then GpuTopology.shared else worker.topology)
            GpuLeasePhase.rollout_active (some rollout) (some worker.worker_id),
      )
    ]
    else ok ([], initial_state gpu_id GpuTopology.idle GpuLeasePhase.idle none none)

init_loop : ResolvedGpuPlan → List ℕ → Manager → Result SlotError Manager
init_loop plan [] m = ok m
init_loop plan (gpu_id ∷ gpu_ids) m = elim (init_gpu plan gpu_id) [
  | err e ↦ err e
  | ok (roles, state) ↦ init_loop plan gpu_ids (record m {
    states = insert gpu_id state m.states;
    supported_roles = insert gpu_id roles m.supported_roles;
  })
]

-- `__init__`
pub create : ResolvedGpuPlan → Result SlotError Manager
unfolding init_loop init_gpu
create plan =
    init_loop plan plan.physical_gpu_ids (record { plan = plan; states = []; supported_roles = [] })

abbrev pub Action : Type 0 → Type 0
Action A = Exec Manager SlotError A

pub get_state : ℕ → Action GpuLeaseState
get_state gpu_id m = or_raise (lookup gpu_id m.states) (unknown_gpu gpu_id) m

abbrev check_role : ℕ → RoleName → Option (List RoleName) → Result SlotError (Unit {0})
check_role gpu_id role none = err (unknown_gpu gpu_id)
check_role gpu_id role (some roles) =
    if contains role roles then ok tt else err (role_unsupported gpu_id role)

pub assert_role_supported : ℕ → RoleName → Action (Unit {0})
assert_role_supported gpu_id role m = (check_role gpu_id role (lookup gpu_id m.supported_roles), m)

-- `x is not None and y != x`, as a reason to raise
abbrev check_holder : Option String → GpuLeaseState → ℕ → Action (Unit {0})
check_holder none s gpu_id = pure tt
check_holder (some h) s gpu_id =
    raise_if (not (is_some_of s.holder_id h)) (wrong_holder gpu_id s.holder_id h)

abbrev check_epoch : Option ℕ → GpuLeaseState → ℕ → Action (Unit {0})
check_epoch none s gpu_id = pure tt
check_epoch (some e) s gpu_id =
    raise_if (not (s.lease_epoch == e)) (wrong_epoch gpu_id s.lease_epoch e)

pub assert_active : RoleName → ℕ → Option String → Option ℕ → Action (Unit {0})
unfolding get_state assert_role_supported
assert_active role gpu_id holder_id expected_epoch = do
  assert_role_supported gpu_id role
  state ← get_state gpu_id
  raise_if (is_failed state.phase) (gpu_failed gpu_id state.failed_reason)
  raise_if (not (is_some_of state.active_role role)) (wrong_role gpu_id state.active_role role)
  check_holder holder_id state gpu_id
  check_epoch expected_epoch state gpu_id

pub current_lease : RoleName → ℕ → Option String → Action GpuLease
unfolding assert_active
current_lease role gpu_id holder_id = do
  assert_active role gpu_id holder_id none
  state ← get_state gpu_id
  holder ← or_raise state.holder_id (no_holder gpu_id)
  pure
      (record { gpu_id = gpu_id; role = role; holder_id = holder; lease_epoch = state.lease_epoch })

abbrev pub phase_of : RoleName → GpuLeasePhase
phase_of RoleName.rollout = GpuLeasePhase.rollout_active
phase_of RoleName.trainer = GpuLeasePhase.trainer_active

abbrev put_state : ℕ → GpuLeaseState → Action (Unit {0})
put_state gpu_id state = modify (λ m. record m { states = insert gpu_id state m.states })

abbrev pub lease_of : ℕ → RoleName → String → ℕ → GpuLease
lease_of gpu_id role holder epoch = record {
  gpu_id = gpu_id;
  role = role;
  holder_id = holder;
  lease_epoch = epoch;
}

abbrev pub granted : GpuLeaseState → ℕ → RoleName → String → GpuLeaseState
granted state gpu_id role holder = record {
  gpu_id = gpu_id;
  topology = state.topology;
  phase = phase_of role;
  active_role = some role;
  holder_id = some holder;
  lease_epoch = state.lease_epoch + 1;
  failed_reason = none;
}

abbrev pub is_holder : GpuLeaseState → RoleName → String → Bool
is_holder state role holder =
    if is_some_of state.active_role role then is_some_of state.holder_id holder else false

-- The holder keeps its lease, and any other gets a new epoch.
abbrev regrant : GpuLeaseState → ℕ → RoleName → String → Action GpuLease
regrant state gpu_id role holder =
    if is_holder state role holder then pure (lease_of gpu_id role holder state.lease_epoch) else do
      put_state gpu_id (granted state gpu_id role holder)
      pure (lease_of gpu_id role holder (state.lease_epoch + 1))

pub grant : RoleName → ℕ → String → Action GpuLease
unfolding get_state assert_role_supported
grant role gpu_id holder = do
  assert_role_supported gpu_id role
  state ← get_state gpu_id
  raise_if (is_failed state.phase) (gpu_failed gpu_id state.failed_reason)
  regrant state gpu_id role holder

abbrev failed_state : GpuLeaseState → ℕ → String → GpuLeaseState
failed_state state gpu_id reason = record {
  gpu_id = gpu_id;
  topology = state.topology;
  phase = GpuLeasePhase.failed;
  active_role = none;
  holder_id = none;
  lease_epoch = state.lease_epoch + 1;
  failed_reason = some reason;
}

pub mark_failed : ℕ → String → Action (Unit {0})
unfolding get_state
mark_failed gpu_id reason = do
  state ← get_state gpu_id
  put_state gpu_id (failed_state state gpu_id reason)
