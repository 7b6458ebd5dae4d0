-- ===== src/Roles/Leases.antt =====
-- Which leases `_assert_rollout_leases` of nano_rl/runtime/roles.py lets through.
use nano_rl.Prelude.{
  ℕ, String, ◌≡◌, false, some, List, [], ◌∷◌, length, arith, Option-cases, inl, inr,
}
use nano_rl.Prelude.Equality.{nat_eq, string_eq, contains}
use nano_rl.Prelude.Exec.{ok, Result-cases}
use nano_rl.Prelude.Dict.{Dict, lookup}
use nano_rl.Slot.Names.{rollout, role_eq}
use nano_rl.Slot.Types.{GpuLease}
use nano_rl.Roles.{ReplicaController, check_lease, check_leases, zip_dict, assert_rollout_leases}

-- Rollout leases of the expected holders, for GPUs that have not been seen.
abbrev pub Fit : List ℕ → Dict ℕ String → List GpuLease → Type 0
Fit seen expected [] = Unit
Fit seen expected (l ∷ ls) =
    (contains l.gpu_id seen ≡ false)
    × (l.role ≡ rollout)
    × (lookup l.gpu_id expected ≡ some l.holder_id)
    × Fit (l.gpu_id ∷ seen) expected ls

check_lease-ok :
    (seen : List ℕ) (expected : Dict ℕ String) (l : GpuLease)
    → check_lease seen expected l ≡ ok tt
    → (contains l.gpu_id seen ≡ false)
      × (l.role ≡ rollout)
      × (lookup l.gpu_id expected ≡ some l.holder_id)
unfolding check_lease
check_lease-ok seen expected l h = elim (Option-cases (lookup l.gpu_id expected)) [
  | inl e ↦ absurd (ground arith)
  | inr (w, e) ↦ ground (arith, role_eq.test_iff l.role rollout, string_eq.test_iff l.holder_id w)
]

check_leases-Fit :
    (seen : List ℕ) (expected : Dict ℕ String) (ls : List GpuLease)
    → check_leases seen expected ls ≡ ok tt
    → Fit seen expected ls
unfolding check_leases
check_leases-Fit seen expected [] h = tt
check_leases-Fit seen expected (l ∷ ls) h = elim (Result-cases (check_lease seen expected l)) [
  | inl (e, r) ↦ absurd (ground (arith, r))
  | inr (_, r) ↦
      let (a, b, c) = check_lease-ok seen expected l r in
      (a, b, c, check_leases-Fit (l.gpu_id ∷ seen) expected ls (ground (arith, r)))
]

-- When the leases pass, the replica's GPUs and workers pair up, there are as many leases as GPUs, no two
-- are for the same GPU, and each is a rollout lease of the worker on its GPU.
pub assert_rollout_leases-Fit :
    (c : ReplicaController) (ls : List GpuLease)
    → assert_rollout_leases c ls ≡ ok tt
    → (expected : Dict ℕ String) × (zip_dict c.gpu_ids c.worker_ids [] ≡ ok expected)
      × (length ls ≡ length expected)
      × Fit [] expected ls
unfolding assert_rollout_leases
assert_rollout_leases-Fit c ls h = elim (Result-cases (zip_dict c.gpu_ids c.worker_ids [])) [
  | inl (e, r) ↦ absurd (ground (arith, r))
  | inr (expected, r) ↦ (
    expected,
    r,
    ground (arith, r, nat_eq.test_iff (length ls) (length expected)),
    check_leases-Fit [] expected ls (ground (arith, r)),
  )
]
