-- ===== src/Offload/Toggling.antt =====
-- When a GPU is ready for `enter_train` or `exit_train` of nano_rl/runtime/offload.py, and what they
-- may make of it.
use nano_rl.Prelude.{◌+◌, String, ◌≡◌, ◌≢◌, ◌∙◌, true, false, Option, none, some, List, arith}
use nano_rl.Prelude.Equality.{nat_eq, contains}
use nano_rl.Prelude.Exec.{Result, ok, err}
use nano_rl.Prelude.Dict.{lookup}
use nano_rl.Exceptions.{SlotError}
use nano_rl.Slot.Names.{RoleName, ResidencyState, rollout, trainer, role_eq, is_failed}
use nano_rl.Slot.Types.{GpuLease, GpuLeaseState}
use nano_rl.Slot.Lease.{Manager, granted, lease_of, is_holder}
use nano_rl.Slot.Lease.Fencing.{Admits, admitted_state}
use nano_rl.Offload.{ResidencyManager}
use nano_rl.Offload.Types.{ResidencyResult, OffloadEventType, Reason}
use nano_rl.Offload.Outcomes.{Settled, Degraded, Elsewhere, Elsewhere-trans, with_lease}
use nano_rl.Offload.Moves.{IsAt}

-- The lease is in force on a shared GPU that both roles may use and that is in this residency.
pub record IsReady (c : ResidencyManager) (l : GpuLease) (state : ResidencyState)
    (s : GpuLeaseState) (roles : List RoleName) : Type 0 where
  pub at : IsAt c l.gpu_id s state
  pub admitted : Admits c.lease_manager l
  pub knows : lookup l.gpu_id c.lease_manager.supported_roles ≡ some roles
  pub for_rollout : contains rollout roles ≡ true
  pub for_trainer : contains trainer roles ≡ true

-- The offload fails and the lease stays where it is, or the lease goes over and the hydration decides.
abbrev pub Toggled :
    ResidencyState
    → ResidencyState
    → GpuLease
    → GpuLease
    → GpuLeaseState
    → ResidencyManager
    → Option (OffloadEventType × Reason)
    → Option (OffloadEventType × Reason)
    → Result SlotError ResidencyResult × ResidencyManager
    → Type 0
Toggled start target old new s c (some f) v (ok r, d) = Degraded f old c d r
Toggled start target old new s c none v x = Settled start target new (with_lease c new.gpu_id s) v x
Toggled start target old new s c _ v _ = ⊥

pub Settled-from :
    (start target : ResidencyState) (l : GpuLease) (b c : ResidencyManager)
    (v : Option (OffloadEventType × Reason))
    (x : Result SlotError ResidencyResult × ResidencyManager)
    → c.lease_manager ≡ b.lease_manager
    → Elsewhere l.gpu_id b c
    → Settled start target l c v x
    → Settled start target l b v x
Settled-from start target l b c none (ok r, d) e w h = record {
  succeeded = h.succeeded;
  says = h.says;
  resident = h.resident;
  hands_out = h.hands_out;
  path = h.path;
  manager = h.manager ∙ e;
  elsewhere = Elsewhere-trans l.gpu_id b c d w h.elsewhere;
}
Settled-from start target l b c (some f) (ok r, d) e w h = record {
  failed = h.failed;
  says = h.says;
  resident = h.resident;
  keeps = h.keeps;
  event = h.event;
  why = h.why;
  manager = h.manager ∙ e;
  elsewhere = Elsewhere-trans l.gpu_id b c d w h.elsewhere;
}
Settled-from start target l b c none (err x, d) e w h = h
Settled-from start target l b c (some f) (err x, d) e w h = h

-- A role that is not the active one does not hold the GPU.
pub other_role-free :
    (m : Manager) (l : GpuLease) (s : GpuLeaseState) (role : RoleName) (holder : String)
    → lookup l.gpu_id m.states ≡ some s
    → Admits m l
    → l.role ≢ role
    → (is_holder s role holder ≡ false) × (is_failed s.phase ≡ false)
other_role-free m l s role holder e a n =
    let (t, f, h) = admitted_state m l a in
    let same : s ≡ t = ground (arith, e, f) in
    ground (arith, same, h.has_role, h.is_active, role_eq.test_iff l.role role)

module _ (l : GpuLease) (holder : String) (s : GpuLeaseState) where
  abbrev pub new_lease : RoleName → GpuLease
  new_lease role = lease_of l.gpu_id role holder (s.lease_epoch + 1)

  abbrev pub new_state : RoleName → GpuLeaseState
  new_state role = granted s l.gpu_id role holder
