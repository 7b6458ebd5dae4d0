-- ===== src/Slot/Lease/Granting.antt =====
-- What `grant` and `mark_failed` of nano_rl/runtime/slot.py bring about, and what they refuse.
use nano_rl.Prelude.{
  ℕ, ◌+◌, String, ◌≡◌, ◌≢◌, refl, inl, inr, true, false, Option, none, some, List, arith,
  Bool-cases, Option-cases, ◌⊎◌,
}
use nano_rl.Prelude.Dict.{lookup, insert, lookup-insert, lookup-insert_self}
use nano_rl.Prelude.Exec.{Result, ok, err}
use nano_rl.Prelude.Equality.{nat_eq, string_eq, contains, is_some_of-eq, is_some_of_refl}
use nano_rl.Exceptions.{SlotError, unknown_gpu}
use nano_rl.Slot.Names.{RoleName, role_eq, is_failed}
use nano_rl.Slot.Types.{GpuLeaseState, GpuLease}
use nano_rl.Slot.Lease.{
  Manager, get_state, current_lease, grant, granted, is_holder, lease_of, phase_of,
}
use nano_rl.Slot.Lease.Invariant.{grant_cases, Refused}
use nano_rl.Slot.Lease.Fencing.{
  Admits, assert_active_keeps, state-Admits, admitted_state, admitted_roles,
}

-- What holds once a lease has been granted: its holder is admitted, and no other GPU has moved.
pub record Granted (role : RoleName) (gpu : ℕ) (holder : String) (m n : Manager) (l : GpuLease)
    : Type 0 where
  pub for_gpu : l.gpu_id ≡ gpu
  pub for_role : l.role ≡ role
  pub for_holder : l.holder_id ≡ holder
  pub admitted : Admits n l
  pub others : (g : ℕ) → g ≢ gpu → lookup g n.states ≡ lookup g m.states

-- What a call of `grant` leaves behind, by how it ended.
abbrev pub GrantOutcome :
    RoleName → ℕ → String → Manager → Result SlotError GpuLease × Manager → Type 0
GrantOutcome role gpu holder m (ok l, n) = Granted role gpu holder m n l
GrantOutcome role gpu holder m (err e, n) = (n ≡ m) × Refused role gpu m e

pub phase_of-alive : (role : RoleName) → is_failed (phase_of role) ≡ false
phase_of-alive role = ground arith

module _ (role : RoleName) (gpu : ℕ) (holder : String) (m : Manager) (s : GpuLeaseState)
    (roles : List RoleName) (found : lookup gpu m.states ≡ some s)
    (known : lookup gpu m.supported_roles ≡ some roles) (supported : contains role roles ≡ true)
    (alive : is_failed s.phase ≡ false) where
  held_outcome :
      is_holder s role holder ≡ true
      → Granted role gpu holder m m (lease_of gpu role holder s.lease_epoch)
  held_outcome held = record {
    for_gpu = refl;
    for_role = refl;
    for_holder = refl;
    admitted = state-Admits m _ s roles found known supported (record {
      is_active = alive;
      has_role = is_some_of-eq s.active_role role (ground arith);
      has_holder = is_some_of-eq s.holder_id holder (ground arith);
      has_epoch = refl;
    });
    others = λ g _. refl;
  }

  fresh_outcome :
      Granted role gpu holder m
        (record m { states = insert gpu (granted s gpu role holder) m.states })
        (lease_of gpu role holder (s.lease_epoch + 1))
  fresh_outcome = record {
    for_gpu = refl;
    for_role = refl;
    for_holder = refl;
    admitted =
        state-Admits _ _ (granted s gpu role holder) roles (lookup-insert_self _ _ _) known
          supported
          (record {
            is_active = phase_of-alive role;
            has_role = refl;
            has_holder = refl;
            has_epoch = refl;
          });
    others = λ g ne. ground (arith, lookup-insert g gpu (granted s gpu role holder) m.states);
  }

-- A grant that goes through hands out a token that is admitted at once, for the role, the GPU and the
-- holder that were asked for, and moves no other GPU; a grant that raises changes nothing, and
-- its error is true of the GPU.
pub grant_outcome :
    (role : RoleName) (gpu : ℕ) (holder : String) (m : Manager)
    → GrantOutcome role gpu holder m (grant role gpu holder m)
grant_outcome role gpu holder m =
    grant_cases role gpu holder m (GrantOutcome role gpu holder m) (λ e why. (refl, why))
      λ s roles f e c k. elim (Bool-cases (is_holder s role holder)) [
        | inl held ↦ rw held (held_outcome role gpu holder m s roles f e c k held)
        | inr free ↦ rw free (fresh_outcome role gpu holder m s roles f e c k)
      ]

-- A holder whose token is admitted may ask again: it gets the same token, and nothing changes.
pub grant_again :
    (m : Manager) (l : GpuLease) → Admits m l → grant l.role l.gpu_id l.holder_id m ≡ (ok l, m)
unfolding grant
grant_again m l a =
    let (s, e, v) = admitted_state m l a in
    let (roles, f, c) = admitted_roles m l a in
    ground (
      arith,
      is_some_of_refl s.active_role l.role v.has_role,
      is_some_of_refl s.holder_id l.holder_id v.has_holder,
      v.is_active,
      v.has_epoch,
    )

-- A GPU goes to a role that did not have it.
pub grant_fresh :
    (m : Manager) (role : RoleName) (gpu : ℕ) (holder : String) (s : GpuLeaseState)
    (roles : List RoleName)
    → lookup gpu m.states ≡ some s
    → lookup gpu m.supported_roles ≡ some roles
    → contains role roles ≡ true
    → is_failed s.phase ≡ false
    → is_holder s role holder ≡ false
    → grant role gpu holder m ≡ (
      ok (lease_of gpu role holder (s.lease_epoch + 1)),
      record m { states = insert gpu (granted s gpu role holder) m.states },
    )
unfolding grant
grant_fresh m role gpu holder s roles e f k alive free = rw (f, k, e, alive, free) refl

pub get_state_found :
    (m : Manager) (gpu : ℕ) (s : GpuLeaseState)
    → lookup gpu m.states ≡ some s
    → get_state gpu m ≡ (ok s, m)
unfolding get_state
get_state_found m gpu s e = rw e refl

pub get_state_keeps : (m : Manager) (gpu : ℕ) → (get_state gpu m).1 ≡ m
unfolding get_state
get_state_keeps m gpu = ground arith

pub get_state_cases :
    (m : Manager) (gpu : ℕ)
    → (get_state gpu m ≡ (err (unknown_gpu gpu), m))
      ⊎ ((s : GpuLeaseState) × (lookup gpu m.states ≡ some s) × (get_state gpu m ≡ (ok s, m)))
unfolding get_state
get_state_cases m gpu = elim (Option-cases (lookup gpu m.states)) [
  | inl e ↦ inl (rw e refl)
  | inr (s, e) ↦ inr (s, e, rw e refl)
]

pub current_lease_keeps :
    (role : RoleName) (gpu : ℕ) (holder : Option String) (m : Manager)
    → (current_lease role gpu holder m).1 ≡ m
unfolding current_lease
current_lease_keeps role gpu holder m =
    ground (arith, assert_active_keeps role gpu holder none m, get_state_keeps m gpu)
