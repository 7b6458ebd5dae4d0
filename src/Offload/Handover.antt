-- ===== src/Offload/Handover.antt =====
-- Who holds the GPU after `enter_train` of nano_rl/runtime/offload.py.
use mathlib.Core.Path.{subst}
use nano_rl.Prelude.{String, ◌≡◌, refl, sym, true, Option, none, some, List, arith}
use nano_rl.Prelude.Equality.{nat_eq, contains}
use nano_rl.Prelude.Exec.{Result, ok, err}
use nano_rl.Prelude.Dict.{lookup-insert_self}
use nano_rl.Exceptions.{SlotError}
use nano_rl.Slot.Names.{RoleName, ResidencyState, rollout, trainer, role_eq, state_eq}
use nano_rl.Slot.Types.{GpuLease, GpuLeaseState}
use nano_rl.Slot.Lease.Fencing.{Admits, admitted_state, state-Admits}
use nano_rl.Slot.Lease.Granting.{phase_of-alive}
use nano_rl.Offload.{ResidencyManager, enter_train}
use nano_rl.Offload.Types.{ResidencyResult, OffloadEventType, Reason}
use nano_rl.Offload.Outcomes.{with_lease}
use nano_rl.Offload.Waking.{offload_verdict}
use nano_rl.Offload.Toggling.{IsReady, Toggled, new_lease, new_state}
use nano_rl.Offload.Entering.{enter_train_outcome}

new_lease-Admits :
    (c : ResidencyManager) (l : GpuLease) (holder : String) (s : GpuLeaseState)
    (roles : List RoleName) (start : ResidencyState) (role : RoleName)
    → IsReady c l start s roles
    → contains role roles ≡ true
    → Admits
        (with_lease c l.gpu_id (new_state l holder s role)).lease_manager
        (new_lease l holder s role)
new_lease-Admits c l holder s roles start role p k =
    state-Admits _ _ (new_state l holder s role) roles (lookup-insert_self _ _ _) p.knows k
      (record {
        is_active = phase_of-alive role;
        has_role = refl;
        has_holder = refl;
        has_epoch = refl;
      })

old_lease-refused :
    (c : ResidencyManager) (l : GpuLease) (holder : String) (s : GpuLeaseState)
    (roles : List RoleName) (start : ResidencyState) (role : RoleName)
    → IsReady c l start s roles
    → ¬ Admits (with_lease c l.gpu_id (new_state l holder s role)).lease_manager l
old_lease-refused c l holder s roles start role p a =
    let (t, e, h) = admitted_state c.lease_manager l p.admitted in
    let (u, f, k) = admitted_state _ l a in
    let same : s ≡ t = ground (arith, p.at.leased, e) in
    let new : new_state l holder s role ≡ u =
      ground (
        arith,
        f,
        lookup-insert_self l.gpu_id (new_state l holder s role) c.lease_manager.states,
      ) in
    ground (arith, h.has_epoch, k.has_epoch, same, new)

Toggled-manager :
    (c : ResidencyManager) (start target : ResidencyState) (old new : GpuLease) (s : GpuLeaseState)
    (u v : Option (OffloadEventType × Reason))
    (x : Result SlotError ResidencyResult × ResidencyManager)
    → u ≡ none
    → Toggled start target old new s c u v x
    → (with_lease c new.gpu_id s).lease_manager ≡ x.1.lease_manager
Toggled-manager c start target old new s none none (ok r, d) e y = sym y.manager
Toggled-manager c start target old new s none (some f) (ok r, d) e y = sym y.manager
Toggled-manager c start target old new s none none (err _, d) e y = absurd y
Toggled-manager c start target old new s none (some f) (err _, d) e y = absurd y
Toggled-manager c start target old new s (some f) v x e y = cc

-- With a rollout lease that is in force, on a shared GPU that both roles may use and that is
-- ROLLOUT_ACTIVE: when the rollout's offload passes its check, `enter_train` leaves the trainer's
-- new lease in force, whatever becomes of the hydration, and the rollout's lease is refused.
pub enter_train_fences_rollout :
    (c : ResidencyManager) (l : GpuLease) (holder : String) (s : GpuLeaseState)
    (roles : List RoleName)
    → l.role ≡ rollout
    → IsReady c l ResidencyState.rollout_active s roles
    → offload_verdict c c.rollout_strategy l ≡ none
    → Admits (enter_train l holder c).1.lease_manager (new_lease l holder s trainer)
      × ¬ Admits (enter_train l holder c).1.lease_manager l
enter_train_fences_rollout c l holder s roles same p e =
    subst (λ m. Admits m (new_lease l holder s trainer) × ¬ Admits m l)
      (Toggled-manager c _ _ l (new_lease l holder s trainer) _ _ _ _ e
        (enter_train_outcome c l holder s roles same p))
      (
        new_lease-Admits c l holder s roles _ trainer p p.for_trainer,
        old_lease-refused c l holder s roles _ trainer p,
      )
