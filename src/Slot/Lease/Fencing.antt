-- ===== src/Slot/Lease/Fencing.antt =====
-- Leases of nano_rl/runtime/slot.py as fencing tokens: who is admitted, and for how long.
use mathlib.Core.Path.{subst}
use nano_rl.Prelude.{
  ℕ, ◌≤◌, sym, ap, ◌∙◌, ◌<◌, String, ◌≡◌, inl, inr, true, false, Option, some, List, arith,
  Option-cases,
}
use nano_rl.Prelude.Dict.{lookup}
use nano_rl.Prelude.Exec.{ok}
use nano_rl.Prelude.Equality.{nat_eq, string_eq, contains, is_some_of-eq, is_some_of_refl}
use nano_rl.Slot.Names.{RoleName, role_eq, is_failed}
use nano_rl.Slot.Types.{GpuLeaseState, GpuLease}
use nano_rl.Slot.Lease.{Manager, assert_active}
use nano_rl.Slot.Lease.Changes.{LeaseCall, run, run-Advance, Advance}

-- `assert_active` never changes the manager.
pub assert_active_keeps :
    (role : RoleName) (gpu : ℕ) (holder : Option String) (epoch : Option ℕ) (m : Manager)
    → (assert_active role gpu holder epoch m).1 ≡ m
unfolding assert_active
assert_active_keeps role gpu holder epoch m = ground arith

-- The manager admits the holder of this token to its GPU.
abbrev pub Admits : Manager → GpuLease → Type 0
Admits m l = (assert_active l.role l.gpu_id (some l.holder_id) (some l.lease_epoch) m).0 ≡ ok tt

-- What the state of a GPU says when a token is admitted.
pub record Holds (s : GpuLeaseState) (l : GpuLease) : Type 0 where
  pub is_active : is_failed s.phase ≡ false
  pub has_role : s.active_role ≡ some l.role
  pub has_holder : s.holder_id ≡ some l.holder_id
  pub has_epoch : s.lease_epoch ≡ l.lease_epoch

pub admitted_state :
    (m : Manager) (l : GpuLease)
    → Admits m l
    → (s : GpuLeaseState) × (lookup l.gpu_id m.states ≡ some s) × Holds s l
unfolding assert_active
admitted_state m l h = elim (Option-cases (lookup l.gpu_id m.states)) [
  | inl e ↦ absurd (ground arith)
  | inr (s, e) ↦ (
    s,
    e,
    record {
      is_active = ground arith;
      has_role = ground (arith, is_some_of-eq s.active_role l.role);
      has_holder = ground (arith, is_some_of-eq s.holder_id l.holder_id);
      has_epoch = ground arith;
    },
  )
]

pub admitted_roles :
    (m : Manager) (l : GpuLease)
    → Admits m l
    → (roles : List RoleName) × (lookup l.gpu_id m.supported_roles ≡ some roles)
      × (contains l.role roles ≡ true)
unfolding assert_active
admitted_roles m l h = elim (Option-cases (lookup l.gpu_id m.supported_roles)) [
  | inl e ↦ absurd (ground arith)
  | inr (roles, e) ↦ (roles, e, ground arith)
]

pub state-Admits :
    (m : Manager) (l : GpuLease) (s : GpuLeaseState) (roles : List RoleName)
    → lookup l.gpu_id m.states ≡ some s
    → lookup l.gpu_id m.supported_roles ≡ some roles
    → contains l.role roles ≡ true
    → Holds s l
    → Admits m l
unfolding assert_active
state-Admits m l s roles e f c v = ground (
  arith,
  is_some_of_refl s.active_role l.role,
  is_some_of_refl s.holder_id l.holder_id,
  v.is_active,
  v.has_role,
  v.has_holder,
  v.has_epoch,
)

same_epoch :
    (a b : Option GpuLeaseState) (s t : GpuLeaseState)
    → Advance a b
    → a ≡ some s
    → b ≡ some t
    → s.lease_epoch ≡ t.lease_epoch
    → s ≡ t
same_epoch a b s t (inl p) e f q = cc
same_epoch a b s t (inr (s', t', e', f', l)) e f q = absurd (ground arith)

epoch-le :
    (a b : Option GpuLeaseState) (s t : GpuLeaseState)
    → Advance a b
    → a ≡ some s
    → b ≡ some t
    → s.lease_epoch ≤ t.lease_epoch
epoch-le a b s t (inl p) e f = ground arith
epoch-le a b s t (inr (s', t', e', f', l)) e f = ground arith

same_token :
    (s : GpuLeaseState) (l k : GpuLease) → l.gpu_id ≡ k.gpu_id → Holds s l → Holds s k → l ≡ k
same_token s l k g v w =
    ground (arith, v.has_role, w.has_role, v.has_holder, w.has_holder, v.has_epoch, w.has_epoch)

-- However long after one another two tokens of one GPU are admitted, if they carry the same epoch they
-- are the same token: at each moment one role and one holder may use the GPU.
pub admitted_once :
    (m : Manager) (cs : List LeaseCall) (l k : GpuLease)
    → l.gpu_id ≡ k.gpu_id
    → l.lease_epoch ≡ k.lease_epoch
    → Admits m l
    → Admits (run cs m) k
    → l ≡ k
admitted_once m cs l k g e a b =
    let (s, sl, sv) = admitted_state m l a in
    let (t, tl, tv) = admitted_state (run cs m) k b in
    let tl' = ap (λ (x : ℕ). lookup x (run cs m).states) g ∙ tl in
    let same : s ≡ t =
      same_epoch _ _ s t (run-Advance cs m l.gpu_id) sl tl' (sv.has_epoch ∙ e ∙ sym tv.has_epoch) in
    same_token t l k g (subst (λ x. Holds x l) same sv) tv

-- Once the GPU has moved on to a later epoch, no later call admits the token again.
pub stale_lease_rejected :
    (m : Manager) (cs : List LeaseCall) (l : GpuLease) (s : GpuLeaseState)
    → lookup l.gpu_id m.states ≡ some s
    → l.lease_epoch < s.lease_epoch
    → ¬ Admits (run cs m) l
stale_lease_rejected m cs l s e lt a =
    let (t, tl, tv) = admitted_state (run cs m) l a in
    omega (arith, epoch-le _ _ s t (run-Advance cs m l.gpu_id) e tl, tv.has_epoch)
