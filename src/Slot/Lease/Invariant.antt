-- ===== src/Slot/Lease/Invariant.antt =====
-- What every reachable `GpuLeaseManagerCore` satisfies: phase, role and holder of each GPU agree.
use nano_rl.Prelude.{
  ℕ, String, ◌≡◌, refl, true, false, Option, none, some, List, arith, Option-cases, Bool-cases, ◌⊎◌,
  inl, inr,
}
use nano_rl.Prelude.Equality.{contains, nat_eq}
use nano_rl.Prelude.Exec.{Result, err}
use nano_rl.Prelude.Dict.{lookup, insert, lookup-insert}
use nano_rl.Exceptions.{SlotError, unknown_gpu, role_unsupported, gpu_failed}
use nano_rl.Slot.Names.{RoleName, GpuLeasePhase, rollout, trainer, role_eq, is_failed}
use nano_rl.Slot.Types.{GpuLease, GpuLeaseState}
use nano_rl.Slot.Lease.{Manager, grant, mark_failed, granted, failed_state, regrant, is_holder}

-- An active phase has its role, which the GPU supports, and a holder; any other phase has neither.
abbrev pub PhaseOk : GpuLeasePhase → Option RoleName → Option String → List RoleName → Type 0
PhaseOk GpuLeasePhase.idle none none roles = Unit
PhaseOk GpuLeasePhase.failed none none roles = Unit
PhaseOk GpuLeasePhase.rollout_active (some RoleName.rollout) (some h) roles =
    contains rollout roles ≡ true
PhaseOk GpuLeasePhase.trainer_active (some RoleName.trainer) (some h) roles =
    contains trainer roles ≡ true
PhaseOk _ _ _ _ = ⊥

-- A GPU has a set of roles exactly when it has a state, and the state fits.
abbrev pub GpuOk : ℕ → Option (List RoleName) → Option GpuLeaseState → Type 0
GpuOk g none none = Unit
GpuOk g (some roles) (some s) = (s.gpu_id ≡ g) × PhaseOk s.phase s.active_role s.holder_id roles
GpuOk g _ _ = ⊥

pub record IsWellFormed (m : Manager) : Type 0 where
  pub at : (g : ℕ) → GpuOk g (lookup g m.supported_roles) (lookup g m.states)

-- What an operation may do to the manager: nothing, give one GPU away at the next epoch, or fail it.
pub data Change (m n : Manager) : Type 0 where
  keep : n ≡ m → Change m n
  give :
      (gpu : ℕ) (role : RoleName) (holder : String) (s : GpuLeaseState) (roles : List RoleName)
      → lookup gpu m.states ≡ some s
      → lookup gpu m.supported_roles ≡ some roles
      → contains role roles ≡ true
      → is_failed s.phase ≡ false
      → n ≡ record m { states = insert gpu (granted s gpu role holder) m.states }
      → Change m n
  fail :
      (gpu : ℕ) (reason : String) (s : GpuLeaseState)
      → lookup gpu m.states ≡ some s
      → n ≡ record m { states = insert gpu (failed_state s gpu reason) m.states }
      → Change m n

-- Why a grant is refused: each error says what the manager has on the GPU.
abbrev pub Refused : RoleName → ℕ → Manager → SlotError → Type 0
Refused role gpu m (unknown_gpu g) =
    (g ≡ gpu) × ((lookup gpu m.supported_roles ≡ none) ⊎ (lookup gpu m.states ≡ none))
Refused role gpu m (role_unsupported g r) =
    (g ≡ gpu)
    × (r ≡ role)
    × ((roles : List RoleName) × (lookup gpu m.supported_roles ≡ some roles)
        × (contains role roles ≡ false))
Refused role gpu m (gpu_failed g reason) =
    (g ≡ gpu)
    × ((s : GpuLeaseState) × (lookup gpu m.states ≡ some s)
        × (is_failed s.phase ≡ true)
        × (reason ≡ s.failed_reason))
Refused role gpu m _ = ⊥

-- A fact about what `grant` returns holds if it holds where the call raises and changes nothing, and
-- where it goes beyond its checks.
pub grant_cases {ℓ} :
    (role : RoleName) (gpu : ℕ) (holder : String) (m : Manager)
    (P : Result SlotError GpuLease × Manager → Type ℓ)
    → ((e : SlotError) → Refused role gpu m e → P (err e, m))
    → ((s : GpuLeaseState) (roles : List RoleName)
        → lookup gpu m.states ≡ some s
        → lookup gpu m.supported_roles ≡ some roles
        → contains role roles ≡ true
        → is_failed s.phase ≡ false
        → P (regrant s gpu role holder m))
    → P (grant role gpu holder m)
unfolding grant
grant_cases role gpu holder m P refused passed =
    elim (Option-cases (lookup gpu m.supported_roles)) [
      | inl e ↦ rw e (refused (unknown_gpu gpu) (refl, inl e))
      | inr (roles, e) ↦ elim (Bool-cases (contains role roles)) [
        | inr c ↦ rw (e, c) (refused (role_unsupported gpu role) (refl, refl, (roles, e, c)))
        | inl c ↦ elim (Option-cases (lookup gpu m.states)) [
          | inl f ↦ rw (e, c, f) (refused (unknown_gpu gpu) (refl, inr f))
          | inr (s, f) ↦ elim (Bool-cases (is_failed s.phase)) [
            | inl k ↦
                rw (e, c, f, k) (refused (gpu_failed gpu s.failed_reason) (refl, (s, f, k, refl)))
            | inr k ↦ rw (e, c, f, k) (passed s roles f e c k)
          ]
        ]
      ]
    ]

pub grant-Change :
    (role : RoleName) (gpu : ℕ) (holder : String) (m : Manager)
    → Change m (grant role gpu holder m).1
grant-Change role gpu holder m =
    grant_cases role gpu holder m (λ r. Change m r.1) (λ _ _. keep refl)
      λ s roles f e c k. elim (Bool-cases (is_holder s role holder)) [
        | inl held ↦ keep (ground arith)
        | inr free ↦ give gpu role holder s roles f e c k (ground arith)
      ]

pub mark_failed-Change :
    (gpu : ℕ) (reason : String) (m : Manager) → Change m (mark_failed gpu reason m).1
unfolding mark_failed
mark_failed-Change gpu reason m = elim (Option-cases (lookup gpu m.states)) [
  | inl e ↦ keep (ground arith)
  | inr (s, e) ↦ fail gpu reason s e (ground arith)
]

pub Change-IsWellFormed : {m n : Manager} → Change m n → IsWellFormed m → IsWellFormed n
Change-IsWellFormed (keep e) v = rw e v
Change-IsWellFormed {m} {n} (give gpu RoleName.rollout holder s roles e f c k p) v = record {
  at = λ g. rw p (
      ground (
        arith,
        v.at g,
        v.at gpu,
        lookup-insert g gpu (granted s gpu RoleName.rollout holder) m.states,
      ));
}
Change-IsWellFormed {m} {n} (give gpu RoleName.trainer holder s roles e f c k p) v = record {
  at = λ g. rw p (
      ground (
        arith,
        v.at g,
        v.at gpu,
        lookup-insert g gpu (granted s gpu RoleName.trainer holder) m.states,
      ));
}
Change-IsWellFormed {m} {n} (fail gpu reason s e p) v = record {
  at = λ g.
      rw p (
        ground (arith, v.at g, v.at gpu, lookup-insert g gpu (failed_state s gpu reason) m.states));
}
