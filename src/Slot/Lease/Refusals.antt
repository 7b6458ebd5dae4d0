-- ===== src/Slot/Lease/Refusals.antt =====
-- Refusals of nano_rl/runtime/slot.py that no later call lifts.
use nano_rl.Prelude.{
  ℕ, String, ◌≡◌, ◌≢◌, refl, ap, inl, inr, true, false, some, List, arith, Bool-cases,
}
use nano_rl.Prelude.Dict.{lookup, lookup-insert, lookup-insert_self}
use nano_rl.Prelude.Exec.{ok, err}
use nano_rl.Prelude.Equality.{◌==◌, nat_eq, contains}
use nano_rl.Exceptions.{role_unsupported}
use nano_rl.Slot.Names.{RoleName, role_eq, is_failed}
use nano_rl.Slot.Types.{GpuLeaseState, GpuLease}
use nano_rl.Slot.Lease.{Manager, grant, mark_failed, granted, failed_state}
use nano_rl.Slot.Lease.Invariant.{Change, keep, give, fail}
use nano_rl.Slot.Lease.Changes.{LeaseCall, run, run_induction, supported_roles-run}
use nano_rl.Slot.Lease.Fencing.{Admits, admitted_state}

-- The manager has the GPU as failed.
abbrev pub HasFailed : ℕ → Manager → Type 0
HasFailed g m = (s : GpuLeaseState) × (lookup g m.states ≡ some s) × (is_failed s.phase ≡ true)

Change-HasFailed : {m n : Manager} → Change m n → (g : ℕ) → HasFailed g m → HasFailed g n
Change-HasFailed (keep e) g (s, f, h) = (s, rw e f, h)
Change-HasFailed {m} (give gpu role holder s roles e f c k p) g (t, q, h) = (
  t,
  rw p (
      ground
        (arith, nat_eq.test_iff gpu g, lookup-insert g gpu (granted s gpu role holder) m.states)),
  h,
)
Change-HasFailed {m} (fail gpu reason s e p) g (t, q, h) = elim (Bool-cases (gpu == g)) [
  | inl same ↦ (failed_state s gpu reason, rw p (rw (lookup-insert, same) refl), refl)
  | inr other ↦ (t, rw p (rw (lookup-insert, other) q), h)
]

run-HasFailed : (cs : List LeaseCall) (m : Manager) (g : ℕ) → HasFailed g m → HasFailed g (run cs m)
run-HasFailed cs m g = run_induction (HasFailed g) (λ m n ch. Change-HasFailed ch g) cs m

grant-HasFailed :
    (role : RoleName) (g : ℕ) (holder : String) (m : Manager)
    → HasFailed g m
    → (l : GpuLease) → (grant role g holder m).0 ≢ ok l
unfolding grant
grant-HasFailed role g holder m (s, e, h) l = ground arith

marked :
    (gpu : ℕ) (reason : String) (m : Manager) (s : GpuLeaseState)
    → lookup gpu m.states ≡ some s
    → HasFailed gpu (mark_failed gpu reason m).1
unfolding mark_failed
marked gpu reason m s e = (failed_state s gpu reason, rw e (lookup-insert_self _ _ _), refl)

-- Once a known GPU is marked as failed, whatever is called later, no grant on it goes through and no
-- token for it is admitted.
pub failed_forever :
    (gpu : ℕ) (reason : String) (m : Manager) (s : GpuLeaseState)
    → lookup gpu m.states ≡ some s
    → (cs : List LeaseCall)
    → let n = run cs (mark_failed gpu reason m).1 in
      ((role : RoleName) (holder : String) (l : GpuLease) → (grant role gpu holder n).0 ≢ ok l)
      × ((l : GpuLease) → l.gpu_id ≡ gpu → ¬ Admits n l)
failed_forever gpu reason m s e cs =
    let n = run cs (mark_failed gpu reason m).1 in
    let dead = run-HasFailed cs (mark_failed gpu reason m).1 gpu (marked gpu reason m s e) in
    (
      λ role holder l. grant-HasFailed role gpu holder n dead l,
      λ l g a.
          let (t, f, v) = admitted_state n l a in
          let e' = ap (λ (x : ℕ). lookup x n.states) g in
          ground (arith, e', f, v.is_active, dead.1, dead.2),
    )

-- A role that a GPU does not support is refused for ever, and the refusal changes nothing.
pub unsupported_forever :
    (role : RoleName) (gpu : ℕ) (holder : String) (m : Manager) (roles : List RoleName)
    → lookup gpu m.supported_roles ≡ some roles
    → contains role roles ≡ false
    → (cs : List LeaseCall)
    → grant role gpu holder (run cs m) ≡ (err (role_unsupported gpu role), run cs m)
unfolding grant
unsupported_forever role gpu holder m roles e c cs = rw (supported_roles-run, e, c) refl
