-- ===== src/Offload/Coherence.antt =====
-- Between the calls of nano_rl/runtime/offload.py, residency and lease of a shared GPU agree.
use nano_rl.Prelude.{
  ℕ, String, ◌≡◌, ◌≢◌, refl, ◌∙◌, true, Option, none, some, List, arith, Option-cases, Bool-cases,
  inl, inr,
}
use nano_rl.Prelude.Equality.{nat_eq, ◌==◌, contains}
use nano_rl.Prelude.Exec.{Result, ok, err}
use nano_rl.Prelude.Dict.{lookup, lookup-insert_self}
use nano_rl.Exceptions.{SlotError}
use nano_rl.Slot.Names.{GpuTopology, RoleName, ResidencyState, role_eq, state_eq, rollout, trainer}
use nano_rl.Slot.Types.{GpuLease, GpuLeaseState}
use nano_rl.Offload.{ResidencyManager, enter_train, exit_train}
use nano_rl.Offload.Types.{ResidencyResult, OffloadEventType, Reason}
use nano_rl.Offload.Outcomes.{
  Elsewhere, Elsewhere-trans, Elsewhere-refl, with_lease, with_lease-Elsewhere, Settled,
}
use nano_rl.Offload.Toggling.{IsReady, Toggled, new_lease, new_state}
use nano_rl.Offload.Refusing.{IsOpen, enter_train_cases, exit_train_cases}
use nano_rl.Offload.Entering.{enter_train_outcome}
use nano_rl.Offload.Leaving.{exit_train_outcome}

-- Between calls a shared GPU has the residency of the role that its lease names, or is degraded, and
-- both roles may use it.
abbrev pub AtRest : ResidencyState → GpuLeaseState → Type 0
AtRest ResidencyState.rollout_active s = s.active_role ≡ some rollout
AtRest ResidencyState.trainer_active s = s.active_role ≡ some trainer
AtRest ResidencyState.degraded s = Unit
AtRest _ s = ⊥

abbrev pub GpuRests : Option ResidencyState → Option GpuLeaseState → Option (List RoleName) → Type 0
GpuRests none s roles = Unit
GpuRests (some state) (some s) (some roles) =
    (s.topology ≡ GpuTopology.shared)
    × (contains rollout roles ≡ true)
    × (contains trainer roles ≡ true)
    × AtRest state s
GpuRests (some state) _ _ = ⊥

pub record IsCoherent (c : ResidencyManager) : Type 0 where
  pub at :
      (g : ℕ)
      → GpuRests
          (lookup g c.states)
          (lookup g c.lease_manager.states)
          (lookup g c.lease_manager.supported_roles)

pub open-IsReady :
    (c : ResidencyManager) (l : GpuLease) (role : RoleName) (state : ResidencyState)
    (s : GpuLeaseState)
    → IsCoherent c
    → IsOpen c l role state s
    → (roles : List RoleName) × IsReady c l state s roles
open-IsReady c l role state s h o =
    elim (Option-cases (lookup l.gpu_id c.lease_manager.supported_roles)) [
      | inl e ↦ absurd (ground (arith, h.at l.gpu_id, o.at.leased, o.at.resident))
      | inr (roles, e) ↦ (
        roles,
        record {
          at = o.at;
          admitted = o.admitted;
          knows = e;
          for_rollout = ground (arith, h.at l.gpu_id, o.at.leased, o.at.resident);
          for_trainer = ground (arith, h.at l.gpu_id, o.at.leased, o.at.resident);
        },
      )
    ]

-- The lease state and the roles of a shared GPU.
record IsShared (c : ResidencyManager) (gpu : ℕ) (s : GpuLeaseState) (roles : List RoleName)
    : Type 0 where
  pub leased : lookup gpu c.lease_manager.states ≡ some s
  pub knows : lookup gpu c.lease_manager.supported_roles ≡ some roles
  pub shared : s.topology ≡ GpuTopology.shared
  pub for_rollout : contains rollout roles ≡ true
  pub for_trainer : contains trainer roles ≡ true

moved_on :
    {b d : ResidencyManager} {gpu : ℕ} {s : GpuLeaseState} {roles : List RoleName}
    → d.lease_manager ≡ b.lease_manager
    → IsShared b gpu s roles
    → IsShared d gpu s roles
moved_on e k = record {
  leased = rw e k.leased;
  knows = rw e k.knows;
  shared = k.shared;
  for_rollout = k.for_rollout;
  for_trainer = k.for_trainer;
}

toggled-IsCoherent :
    (c d : ResidencyManager) (gpu : ℕ) (state : ResidencyState) (s : GpuLeaseState)
    (roles : List RoleName)
    → IsCoherent c
    → Elsewhere gpu c d
    → IsShared d gpu s roles
    → lookup gpu d.states ≡ some state
    → AtRest state s
    → IsCoherent d
toggled-IsCoherent c d gpu state s roles h w k e a = record {
  at = λ g. elim (Bool-cases (g == gpu)) [
    | inl same ↦
        rw ((nat_eq.test_iff g gpu).0 same, e, k.leased, k.knows)
          (k.shared, k.for_rollout, k.for_trainer, a)
    | inr other ↦
        let apart : g ≢ gpu = ground (arith, nat_eq.test_iff g gpu) in
        rw (w.residency g apart, w.lease g apart, w.supported) (h.at g)
  ];
}

Settled-IsCoherent :
    (b c : ResidencyManager) (start target : ResidencyState) (l : GpuLease) (s : GpuLeaseState)
    (roles : List RoleName) (v : Option (OffloadEventType × Reason))
    (x : Result SlotError ResidencyResult × ResidencyManager)
    → IsCoherent c
    → Elsewhere l.gpu_id c b
    → IsShared b l.gpu_id s roles
    → AtRest target s
    → Settled start target l b v x
    → IsCoherent x.1
Settled-IsCoherent b c start target l s roles none (ok r, d) h w k a x =
    toggled-IsCoherent c d l.gpu_id target s roles h (Elsewhere-trans l.gpu_id c b d w x.elsewhere)
      (moved_on x.manager k) x.resident a
Settled-IsCoherent b c start target l s roles (some f) (ok r, d) h w k a x =
    toggled-IsCoherent c d l.gpu_id ResidencyState.degraded s roles h
      (Elsewhere-trans l.gpu_id c b d w x.elsewhere) (moved_on x.manager k) x.resident tt
Settled-IsCoherent b c start target l s roles none (err _, d) h w k a x = absurd x
Settled-IsCoherent b c start target l s roles (some _) (err _, d) h w k a x = absurd x

-- Whatever the two checks decide, the GPU rests again.
Toggled-IsCoherent :
    (c : ResidencyManager) (start target : ResidencyState) (old new : GpuLease)
    (s s' : GpuLeaseState) (roles : List RoleName) (u v : Option (OffloadEventType × Reason))
    (x : Result SlotError ResidencyResult × ResidencyManager)
    → IsCoherent c
    → IsReady c old start s roles
    → new.gpu_id ≡ old.gpu_id
    → s'.topology ≡ s.topology
    → AtRest target s'
    → Toggled start target old new s' c u v x
    → IsCoherent x.1
Toggled-IsCoherent c start target old new s s' roles none v x h p g t a y =
    Settled-IsCoherent (with_lease c new.gpu_id s') c start target new s' roles v x h
      (with_lease-Elsewhere new.gpu_id s' c c (Elsewhere-refl new.gpu_id c))
      (record {
        leased = lookup-insert_self _ _ _;
        knows = rw g p.knows;
        shared = t ∙ p.at.shared;
        for_rollout = p.for_rollout;
        for_trainer = p.for_trainer;
      })
      a y
Toggled-IsCoherent c start target old new s s' roles (some f) v (ok r, d) h p g t a y =
    toggled-IsCoherent c d old.gpu_id ResidencyState.degraded s roles h y.elsewhere
      (moved_on {b = c} y.manager (record {
        leased = p.at.leased;
        knows = p.knows;
        shared = p.at.shared;
        for_rollout = p.for_rollout;
        for_trainer = p.for_trainer;
      }))
      y.resident tt
Toggled-IsCoherent c start target old new s s' roles (some f) v (err e, d) h p g t a y = absurd y

pub enter_train-IsCoherent :
    (l : GpuLease) (holder : String) (c : ResidencyManager)
    → IsCoherent c
    → IsCoherent (enter_train l holder c).1
enter_train-IsCoherent l holder c h = elim (enter_train_cases l holder c) [
  | inl (e, r) ↦ rw r h
  | inr (s, o) ↦
      let (roles, p) = open-IsReady c l rollout ResidencyState.rollout_active s h o in
      Toggled-IsCoherent c _ ResidencyState.trainer_active l (new_lease l holder s trainer) s
        (new_state l holder s trainer) roles _ _ _ h p refl refl refl
        (enter_train_outcome c l holder s roles o.same p)
]

pub exit_train-IsCoherent :
    (l : GpuLease) (holder : String) (c : ResidencyManager)
    → IsCoherent c
    → IsCoherent (exit_train l holder c).1
exit_train-IsCoherent l holder c h = elim (exit_train_cases l holder c) [
  | inl (e, r) ↦ rw r h
  | inr (s, o) ↦
      let (roles, p) = open-IsReady c l trainer ResidencyState.trainer_active s h o in
      Toggled-IsCoherent c _ ResidencyState.rollout_active l (new_lease l holder s rollout) s
        (new_state l holder s rollout) roles _ _ _ h p refl refl refl
        (exit_train_outcome c l holder s roles o.same p)
]
