-- ===== src/Slot/Lease/Serving.antt =====
-- GPUs that `grant` of nano_rl/runtime/slot.py can hand to rollout, and who has them.
use nano_rl.Prelude.{
  ℕ, String, ◌≡◌, ◌≢◌, refl, sym, ap, ◌∙◌, ◌+◌, true, false, some, List, arith, Bool-cases, inl,
  inr,
}
use nano_rl.Prelude.Dict.{lookup, insert, lookup-insert}
use nano_rl.Prelude.Exec.{Result, ok, err}
use nano_rl.Prelude.Equality.{nat_eq, contains, ◌==◌}
use nano_rl.Exceptions.{SlotError}
use nano_rl.Slot.Names.{RoleName, role_eq, is_failed}
use nano_rl.Slot.Types.{GpuLeaseState, GpuLease}
use nano_rl.Slot.Lease.{Manager, grant, granted, is_holder, lease_of}
use nano_rl.Slot.Lease.Invariant.{grant_cases, grant-Change}
use nano_rl.Slot.Lease.Changes.{Change-supported}
use nano_rl.Slot.Lease.Fencing.{Admits, admitted_state, admitted_roles, state-Admits}
use nano_rl.Slot.Lease.Granting.{GrantOutcome, grant_outcome, phase_of-alive}

-- The GPU has not failed and may have the role.
abbrev pub CanServe : RoleName → Manager → ℕ → Type 0
CanServe role m gpu =
    (s : GpuLeaseState) × (lookup gpu m.states ≡ some s)
    × (roles : List RoleName) × (lookup gpu m.supported_roles ≡ some roles)
    × (contains role roles ≡ true)
    × (is_failed s.phase ≡ false)

pub grant-CanServe :
    (role other : RoleName) (gpu g : ℕ) (holder : String) (m : Manager)
    → CanServe role m g
    → CanServe role (grant other gpu holder m).1 g
grant-CanServe role other gpu g holder m can =
    grant_cases other gpu holder m (λ r. CanServe role r.1 g) (λ e why. can)
      λ s roles f e c k. elim (Bool-cases (is_holder s other holder)) [
        | inl held ↦ rw held can
        | inr free ↦ rw free (given s)
      ]
  where
    given :
        (s : GpuLeaseState)
        → CanServe role (record m { states = insert gpu (granted s gpu other holder) m.states }) g
    given s =
        let (t, found, roles, known, supported, alive) = can in
        elim (Bool-cases (gpu == g)) [
          | inl same ↦ (
            granted s gpu other holder,
            ground (arith, same, lookup-insert g gpu (granted s gpu other holder) m.states),
            roles,
            known,
            supported,
            phase_of-alive other,
          )
          | inr differs ↦ (
            t,
            ground
                (arith, differs, found, lookup-insert g gpu (granted s gpu other holder) m.states),
            roles,
            known,
            supported,
            alive,
          )
        ]

-- A grant of a role that the GPU can have goes through.
pub grant_goes_through :
    (role : RoleName) (gpu : ℕ) (holder : String) (m : Manager)
    → CanServe role m gpu
    → (l : GpuLease) × ((grant role gpu holder m).0 ≡ ok l)
unfolding grant
grant_goes_through role gpu holder m (s, found, roles, known, supported, alive) =
    elim (Bool-cases (is_holder s role holder)) [
      | inl held ↦
          (lease_of gpu role holder s.lease_epoch, rw (known, supported, found, alive, held) refl)
      | inr free ↦ (
        lease_of gpu role holder (s.lease_epoch + 1),
        rw (known, supported, found, alive, free) refl,
      )
    ]

-- A token of the role, the GPU and the holder is admitted.
abbrev pub HasLease : RoleName → ℕ → String → Manager → Type 0
HasLease role gpu holder m =
    (l : GpuLease) × (l.role ≡ role) × (l.gpu_id ≡ gpu) × (l.holder_id ≡ holder) × Admits m l

pub grant-HasLease :
    (role : RoleName) (gpu : ℕ) (holder : String) (m : Manager)
    → CanServe role m gpu
    → HasLease role gpu holder (grant role gpu holder m).1
grant-HasLease role gpu holder m can =
    let (l, went) = grant_goes_through role gpu holder m can in
    from (grant role gpu holder m) (grant_outcome role gpu holder m) (l, went)
  where
    from :
        (r : Result SlotError GpuLease × Manager)
        → GrantOutcome role gpu holder m r
        → (l : GpuLease) × (r.0 ≡ ok l)
        → HasLease role gpu holder r.1
    from (ok l, n) g _ = (l, g.for_role, g.for_gpu, g.for_holder, g.admitted)
    from (err e, n) g (l, h) = absurd (ground (arith, h))

grant_supported :
    (role : RoleName) (gpu : ℕ) (holder : String) (m : Manager)
    → (grant role gpu holder m).1.supported_roles ≡ m.supported_roles
grant_supported role gpu holder m = Change-supported (grant-Change role gpu holder m)

-- A grant on another GPU takes no lease away.
pub grant-HasLease_other :
    (role other : RoleName) (gpu g : ℕ) (holder mine : String) (m : Manager)
    → g ≢ gpu
    → HasLease role g mine m
    → HasLease role g mine (grant other gpu holder m).1
grant-HasLease_other role other gpu g holder mine m ne (l, r, i, h, a) =
    let (s, found, holds) = admitted_state m l a in
    let (roles, known, supported) = admitted_roles m l a in
    (
      l,
      r,
      i,
      h,
      state-Admits _ l s roles
          (others (grant other gpu holder m) (grant_outcome other gpu holder m) l.gpu_id
              (λ e. ne (sym i ∙ e))
            ∙ found)
          (ap (lookup l.gpu_id) (grant_supported other gpu holder m) ∙ known) supported holds,
    )
  where
    others :
        (r : Result SlotError GpuLease × Manager)
        → GrantOutcome other gpu holder m r
        → (k : ℕ) → k ≢ gpu
        → lookup k r.1.states ≡ lookup k m.states
    others (ok l, n) g k away = g.others k away
    others (err e, n) (same, why) k away = ap (λ (x : Manager). lookup k x.states) same
