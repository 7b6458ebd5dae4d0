-- ===== src/Offload/Refusing.antt =====
-- When `enter_train` and `exit_train` of nano_rl/runtime/offload.py raise: only at their two assertions.
use nano_rl.Prelude.{ℕ, String, ◌≡◌, refl, ◌∙◌, some, arith, inl, inr, ◌⊎◌}
use nano_rl.Prelude.Equality.{nat_eq}
use nano_rl.Prelude.Exec.{Result-cases, ok, err, Exec, ◌>>=◌}
use nano_rl.Prelude.Dict.{lookup}
use nano_rl.Exceptions.{SlotError}
use nano_rl.Slot.Names.{GpuTopology, RoleName, ResidencyState, role_eq, state_eq, rollout, trainer}
use nano_rl.Slot.Types.{GpuLease, GpuLeaseState}
use nano_rl.Slot.Lease.Granting.{get_state_keeps, get_state_cases}
use nano_rl.Slot.Lease.Fencing.{Admits, assert_active_keeps}
use nano_rl.Offload.{
  ResidencyManager, enter_train, exit_train, assert_shared_gpu, assert_state, assert_current_lease,
}
use nano_rl.Offload.Moves.{IsAt}

-- The lease has the role, is in force, and its GPU is shared and in this residency.
pub record IsOpen (c : ResidencyManager) (l : GpuLease) (role : RoleName) (state : ResidencyState)
    (s : GpuLeaseState) : Type 0 where
  pub same : l.role ≡ role
  pub at : IsAt c l.gpu_id s state
  pub admitted : Admits c.lease_manager l

-- A call that only reads either raises, or lets the rest run on the same object.
check_first :
    {S E A B : Type 0} (check : Exec S E A) (rest : A → Exec S E B) (s : S)
    → (check s).1 ≡ s
    → ((e : E) × ((check >>= rest) s ≡ (err e, s)))
      ⊎ ((a : A) × ((check s).0 ≡ ok a) × ((check >>= rest) s ≡ rest a s))
check_first check rest s k = elim (Result-cases (check s).0) [
  | inl (e, r) ↦ inl (e, rw (r, k) refl)
  | inr (a, r) ↦ inr (a, r, rw (r, k) refl)
]

assert_shared_gpu_keeps : (c : ResidencyManager) (gpu : ℕ) → (assert_shared_gpu gpu c).1 ≡ c
unfolding assert_shared_gpu
assert_shared_gpu_keeps c gpu = ground (arith, get_state_keeps c.lease_manager gpu)

assert_shared_gpu-IsShared :
    (c : ResidencyManager) (gpu : ℕ)
    → (assert_shared_gpu gpu c).0 ≡ ok tt
    → (s : GpuLeaseState) × (lookup gpu c.lease_manager.states ≡ some s)
      × (s.topology ≡ GpuTopology.shared)
unfolding assert_shared_gpu
assert_shared_gpu-IsShared c gpu h = elim (get_state_cases c.lease_manager gpu) [
  | inl e ↦ absurd (ground (arith, e))
  | inr (s, e, f) ↦ (s, e, ground (arith, f))
]

assert_state_keeps :
    (c : ResidencyManager) (gpu : ℕ) (state : ResidencyState) → (assert_state gpu state c).1 ≡ c
unfolding assert_state nano_rl.Offload.get_state
assert_state_keeps c gpu state = ground (arith, assert_shared_gpu_keeps c gpu)

assert_state-IsAt :
    (c : ResidencyManager) (gpu : ℕ) (state : ResidencyState)
    → (assert_state gpu state c).0 ≡ ok tt
    → (s : GpuLeaseState) × IsAt c gpu s state
unfolding assert_state nano_rl.Offload.get_state
assert_state-IsAt c gpu state h =
    let passed : (assert_shared_gpu gpu c).0 ≡ ok tt =
      elim (Result-cases (assert_shared_gpu gpu c).0) [
        | inl (e, r) ↦ absurd (ground (arith, r, assert_shared_gpu_keeps c gpu))
        | inr (a, r) ↦ r
      ] in
    let (s, e, t) = assert_shared_gpu-IsShared c gpu passed in
    (
      s,
      record {
        leased = e;
        shared = t;
        resident = ground (arith, assert_shared_gpu_keeps c gpu, state_eq.test_iff);
      },
    )

assert_current_lease_keeps :
    (c : ResidencyManager) (l : GpuLease) (role : RoleName) → (assert_current_lease l role c).1 ≡ c
unfolding assert_current_lease
assert_current_lease_keeps c l role = ground (
  arith,
  assert_shared_gpu_keeps c l.gpu_id,
  assert_active_keeps l.role l.gpu_id (some l.holder_id) (some l.lease_epoch) c.lease_manager,
)

assert_current_lease-Admits :
    (c : ResidencyManager) (l : GpuLease) (role : RoleName)
    → (assert_current_lease l role c).0 ≡ ok tt
    → (l.role ≡ role) × Admits c.lease_manager l
unfolding assert_current_lease
assert_current_lease-Admits c l role h =
    ground (arith, assert_shared_gpu_keeps c l.gpu_id, role_eq.test_iff l.role role)

module _ {A : Type 0} (c : ResidencyManager) (l : GpuLease) (role : RoleName)
    (state : ResidencyState) (rest : Exec ResidencyManager SlotError A) where
  abbrev pub guarded : Exec ResidencyManager SlotError A
  guarded = assert_current_lease l role >>= λ _. assert_state l.gpu_id state >>= λ _. rest

  -- Either an assertion raises and nothing has changed, or both pass and the GPU is open.
  pub guard_cases :
      ((e : SlotError) × (guarded c ≡ (err e, c))) ⊎ ((s : GpuLeaseState) × IsOpen c l role state s)
  guard_cases =
      elim (check_first (assert_current_lease l role)
        (λ _. assert_state l.gpu_id state >>= λ _. rest) c (assert_current_lease_keeps c l role)) [
          | inl raised ↦ inl raised
          | inr (_, p, q) ↦
              elim (check_first (assert_state l.gpu_id state) (λ _. rest) c
                (assert_state_keeps c l.gpu_id state)) [
                  | inl (e, r) ↦ inl (e, q ∙ r)
                  | inr (_, r, _) ↦
                      let (s, at) = assert_state-IsAt c l.gpu_id state r in
                      let (same, adm) = assert_current_lease-Admits c l role p in
                      inr (s, record { same = same; at = at; admitted = adm })
                ]
        ]

pub enter_train_cases :
    (l : GpuLease) (holder : String) (c : ResidencyManager)
    → ((e : SlotError) × (enter_train l holder c ≡ (err e, c)))
      ⊎ ((s : GpuLeaseState) × IsOpen c l rollout ResidencyState.rollout_active s)
unfolding enter_train
enter_train_cases l holder c = guard_cases c l rollout ResidencyState.rollout_active _

pub exit_train_cases :
    (l : GpuLease) (holder : String) (c : ResidencyManager)
    → ((e : SlotError) × (exit_train l holder c ≡ (err e, c)))
      ⊎ ((s : GpuLeaseState) × IsOpen c l trainer ResidencyState.trainer_active s)
unfolding exit_train
exit_train_cases l holder c = guard_cases c l trainer ResidencyState.trainer_active _
