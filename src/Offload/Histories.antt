-- ===== src/Offload/Histories.antt =====
-- Calls of `enter_train` and `exit_train` of nano_rl/runtime/offload.py one after another.
use nano_rl.Prelude.{
  ℕ, String, ◌≡◌, ◌≢◌, refl, ◌∙◌, Option, none, some, List, [], ◌∷◌, arith, inl, inr,
}
use nano_rl.Prelude.Equality.{nat_eq}
use nano_rl.Prelude.Exec.{Result, ok, err}
use nano_rl.Prelude.Dict.{lookup}
use nano_rl.Exceptions.{SlotError}
use nano_rl.Slot.Names.{RoleName, ResidencyState, rollout, trainer, role_eq, state_eq}
use nano_rl.Slot.Types.{GpuLease, GpuLeaseState}
use nano_rl.Offload.{ResidencyManager, enter_train, exit_train}
use nano_rl.Offload.Types.{ResidencyResult, OffloadEventType, Reason}
use nano_rl.Offload.Toggling.{Toggled, new_lease}
use nano_rl.Offload.Refusing.{IsOpen, enter_train_cases, exit_train_cases}
use nano_rl.Offload.Entering.{enter_train_outcome}
use nano_rl.Offload.Leaving.{exit_train_outcome}
use nano_rl.Offload.Coherence.{
  IsCoherent, open-IsReady, enter_train-IsCoherent, exit_train-IsCoherent,
}

-- The calls that change a residency manager, each with its lease and the id of the new holder.
pub data Toggle : Type 0 where
  enters : GpuLease → String → Toggle
  exits : GpuLease → String → Toggle

-- A call that raises counts as made.
unfoldable pub toggle : Toggle → ResidencyManager → ResidencyManager
toggle (enters l holder) c = (enter_train l holder c).1
toggle (exits l holder) c = (exit_train l holder c).1

unfoldable pub run_toggles : List Toggle → ResidencyManager → ResidencyManager
run_toggles [] c = c
run_toggles (t ∷ ts) c = run_toggles ts (toggle t c)

toggle-IsCoherent : (t : Toggle) (c : ResidencyManager) → IsCoherent c → IsCoherent (toggle t c)
unfolding toggle
toggle-IsCoherent (enters l holder) c h = enter_train-IsCoherent l holder c h
toggle-IsCoherent (exits l holder) c h = exit_train-IsCoherent l holder c h

-- From a manager on which residency and leases agree, whatever is called, in any order, with
-- current or stale leases, and whatever the hooks report, afterwards every shared GPU is active
-- for the very role that its lease names, or degraded: none is left half way.
pub run_toggles-IsCoherent :
    (ts : List Toggle) (c : ResidencyManager) → IsCoherent c → IsCoherent (run_toggles ts c)
unfolding run_toggles
run_toggles-IsCoherent [] c h = h
run_toggles-IsCoherent (t ∷ ts) c h =
    run_toggles-IsCoherent ts (toggle t c) (toggle-IsCoherent t c h)

Toggled-keeps :
    (c : ResidencyManager) (start target : ResidencyState) (old new : GpuLease) (s : GpuLeaseState)
    (u v : Option (OffloadEventType × Reason))
    (x : Result SlotError ResidencyResult × ResidencyManager) (g : ℕ)
    → new.gpu_id ≡ old.gpu_id
    → g ≢ old.gpu_id
    → Toggled start target old new s c u v x
    → lookup g x.1.states ≡ lookup g c.states
Toggled-keeps c start target old new s none none (ok r, d) g e n y =
    y.elsewhere.residency g (ground arith)
Toggled-keeps c start target old new s none (some f) (ok r, d) g e n y =
    y.elsewhere.residency g (ground arith)
Toggled-keeps c start target old new s none none (err _, d) g e n y = absurd y
Toggled-keeps c start target old new s none (some f) (err _, d) g e n y = absurd y
Toggled-keeps c start target old new s (some f) v (ok r, d) g e n y = y.elsewhere.residency g n
Toggled-keeps c start target old new s (some f) v (err _, d) g e n y = absurd y

apart :
    (c : ResidencyManager) (l : GpuLease) (role : RoleName) (state : ResidencyState)
    (s : GpuLeaseState) (g : ℕ)
    → lookup g c.states ≡ some ResidencyState.degraded
    → state ≢ ResidencyState.degraded
    → IsOpen c l role state s
    → g ≢ l.gpu_id
apart c l role state s g d n o = λ e. ground (arith, o.at.resident)

toggle-keeps_degraded :
    (t : Toggle) (c : ResidencyManager) (g : ℕ)
    → IsCoherent c
    → lookup g c.states ≡ some ResidencyState.degraded
    → lookup g (toggle t c).states ≡ some ResidencyState.degraded
unfolding toggle
toggle-keeps_degraded (enters l holder) c g h d = elim (enter_train_cases l holder c) [
  | inl (e, r) ↦ rw (toggle, r) d
  | inr (s, o) ↦
      let (roles, p) = open-IsReady c l rollout ResidencyState.rollout_active s h o in
      Toggled-keeps c _ _ l (new_lease l holder s trainer) _ _ _ _ g refl
        (apart c l rollout ResidencyState.rollout_active s g d (ground arith) o)
        (enter_train_outcome c l holder s roles o.same p)
      ∙ d
]
toggle-keeps_degraded (exits l holder) c g h d = elim (exit_train_cases l holder c) [
  | inl (e, r) ↦ rw (toggle, r) d
  | inr (s, o) ↦
      let (roles, p) = open-IsReady c l trainer ResidencyState.trainer_active s h o in
      Toggled-keeps c _ _ l (new_lease l holder s rollout) _ _ _ _ g refl
        (apart c l trainer ResidencyState.trainer_active s g d (ground arith) o)
        (exit_train_outcome c l holder s roles o.same p)
      ∙ d
]

-- On a manager on which residency and leases agree, no sequence of `enter_train` and `exit_train`
-- brings a degraded GPU back.
pub degraded_forever :
    (ts : List Toggle) (c : ResidencyManager) (g : ℕ)
    → IsCoherent c
    → lookup g c.states ≡ some ResidencyState.degraded
    → lookup g (run_toggles ts c).states ≡ some ResidencyState.degraded
unfolding run_toggles
degraded_forever [] c g h d = d
degraded_forever (t ∷ ts) c g h d =
    degraded_forever ts (toggle t c) g (toggle-IsCoherent t c h) (toggle-keeps_degraded t c g h d)
