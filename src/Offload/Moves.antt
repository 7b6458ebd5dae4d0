-- ===== src/Offload/Moves.antt =====
-- The steps that `enter_train` and `exit_train` of nano_rl/runtime/offload.py share, on a GPU that is
-- where the caller expects it.
use nano_rl.Prelude.{ℕ, ◌≡◌, refl, none, some, List, [], ◌∷◌, ◌++◌, arith}
use nano_rl.Prelude.Equality.{nat_eq}
use nano_rl.Prelude.Exec.{ok}
use nano_rl.Prelude.Dict.{lookup, insert, lookup-insert_self}
use nano_rl.Slot.Names.{GpuTopology, RoleName, ResidencyState, role_eq, state_eq, state_beq_iff}
use nano_rl.Slot.Types.{GpuLease, GpuLeaseState}
use nano_rl.Slot.Lease.Granting.{get_state_found}
use nano_rl.Slot.Lease.Fencing.{Admits, assert_active_keeps}
use nano_rl.Offload.{
  ResidencyManager, assert_shared_gpu, assert_state, assert_current_lease, move, record_of,
  run_offload, run_hydrate, settle, hook_result, check_report, on_lease,
}
use nano_rl.Offload.Types.{
  ResidencyTransition, ResidencyTransitionRecord, ResidencyOperation, ResidencyHookReport, Strategy,
  OffloadEventType, Reason,
}

-- The GPU is shared, has this lease state, and this residency.
pub record IsAt (c : ResidencyManager) (gpu : ℕ) (s : GpuLeaseState) (state : ResidencyState)
    : Type 0 where
  pub leased : lookup gpu c.lease_manager.states ≡ some s
  pub shared : s.topology ≡ GpuTopology.shared
  pub resident : lookup gpu c.states ≡ some state

-- The manager with another residency of one GPU.
abbrev pub moved : ResidencyManager → ℕ → ResidencyState → ResidencyManager
moved c gpu state = record c { states = insert gpu state c.states }

pub moved-IsAt :
    (c : ResidencyManager) (gpu : ℕ) (s : GpuLeaseState) (from to : ResidencyState)
    → IsAt c gpu s from
    → IsAt (moved c gpu to) gpu s to
moved-IsAt c gpu s from to a = record {
  leased = a.leased;
  shared = a.shared;
  resident = lookup-insert_self _ _ _;
}

pub assert_state_passes :
    (c : ResidencyManager) (gpu : ℕ) (s : GpuLeaseState) (state : ResidencyState)
    → IsAt c gpu s state
    → assert_state gpu state c ≡ (ok tt, c)
unfolding assert_state nano_rl.Offload.get_state assert_shared_gpu
assert_state_passes c gpu s state a = ground (
  arith,
  get_state_found c.lease_manager gpu s a.leased,
  a.shared,
  a.resident,
  state_beq_iff state state,
)

pub move_passes :
    (c : ResidencyManager) (l : GpuLease) (s : GpuLeaseState) (from to : ResidencyState)
    (done : List ResidencyTransitionRecord) (t : ResidencyTransition)
    → IsAt c l.gpu_id s from
    → move done t l from to c ≡ (ok (done ++ (record_of t l from to ∷ [])), moved c l.gpu_id to)
unfolding move
move_passes c l s from to done t a = rw (assert_state_passes c l.gpu_id s from a) refl

pub settle_passes :
    (c : ResidencyManager) (l : GpuLease) (s : GpuLeaseState) (state : ResidencyState)
    (strategy : Strategy) (operation : ResidencyOperation) (report : ResidencyHookReport)
    → IsAt c l.gpu_id s state
    → check_report c report operation ≡ none
    → settle strategy l operation report c ≡ (ok (hook_result strategy l report none state), c)
settle_passes c l s state strategy operation report a e = rw (e, a.resident) refl

pub settle_degrades :
    (c : ResidencyManager) (l : GpuLease) (strategy : Strategy) (operation : ResidencyOperation)
    (report : ResidencyHookReport) (f : OffloadEventType × Reason)
    → check_report c report operation ≡ some f
    → settle strategy l operation report c ≡ (
      ok (hook_result strategy l report (some f) ResidencyState.degraded),
      moved c l.gpu_id ResidencyState.degraded,
    )
settle_degrades c l strategy operation report f e =
    rw (e, lookup-insert_self l.gpu_id ResidencyState.degraded c.states) refl

-- The lease is the one in force, on a shared GPU.
pub assert_current_lease_passes :
    (c : ResidencyManager) (l : GpuLease) (role : RoleName) (s : GpuLeaseState)
    (state : ResidencyState)
    → l.role ≡ role
    → IsAt c l.gpu_id s state
    → Admits c.lease_manager l
    → assert_current_lease l role c ≡ (ok tt, c)
unfolding assert_current_lease assert_shared_gpu
assert_current_lease_passes c l role s state same a adm = ground (
  arith,
  get_state_found c.lease_manager l.gpu_id s a.leased,
  a.shared,
  a.resident,
  role_eq.test_iff l.role role,
  assert_active_keeps l.role l.gpu_id (some l.holder_id) (some l.lease_epoch) c.lease_manager,
)
