-- ===== src/WeightRegistry/Invariant.antt =====
-- What every reachable `WeightRegistryActorCore` of nano_rl/runtime/weight_registry.py satisfies.
use nano_rl.Prelude.{
  ℕ, String, ◌≡◌, ◌≢◌, ◌≤◌, refl, true, false, Option, none, some, List, [], arith, Option-cases,
  Bool-cases, inl, inr,
}
use nano_rl.Prelude.Equality.{◌==◌, nat_eq, string_eq, contains, add}
use nano_rl.Prelude.Dict.{lookup, insert}
use nano_rl.Protocols.{WeightMeta, registered, activating, active_global, failed}
use nano_rl.WeightRegistry.{
  WeightRegistry, ActivationState, with_status, register_new, is_failed, is_empty, all_in, same_set,
  cancel, register, begin_activation, ack_activation, mark_failed,
}

-- The version that an activation waits for exists and is being activated.
abbrev pub WaitsFor : Option ActivationState → ℕ → Option WeightMeta → Type 0
WaitsFor none v o = Unit
WaitsFor (some a) v none = a.version_id ≢ v
WaitsFor (some a) v (some m) = a.version_id ≡ v → m.status ≡ activating

-- A version that exists is filed under its own id and is not later than the latest registered one; one
-- that does not exist is neither the latest registered nor the latest active one.
abbrev pub VersionOk : ℕ → Option ℕ → Option ℕ → Option WeightMeta → Type 0
VersionOk v latest active none = (latest ≢ some v) × (active ≢ some v)
VersionOk v none active (some m) = ⊥
VersionOk v (some n) active (some m) = (m.version_id ≡ v) × (v ≤ n)

-- Only required workers have acknowledged, and one is missing.
abbrev pub StillWaits : Option ActivationState → Type 0
StillWaits none = Unit
StillWaits (some a) =
    (all_in a.acked_workers a.required_workers ≡ true)
    × (same_set a.acked_workers a.required_workers ≡ false)

pub record IsSound (r : WeightRegistry) : Type 0 where
  pub at : (v : ℕ) → VersionOk v r.latest_registered r.latest_active_global (lookup v r.versions)
  pub waits_for : (v : ℕ) → WaitsFor r.activation v (lookup v r.versions)
  pub still_waits : StillWaits r.activation

-- What a call may do: one constructor for each way through the five methods.
pub data Change (r n : WeightRegistry) : Type 0 where
  keep : n ≡ r → Change r n
  registers :
      (m : WeightMeta)
      → lookup m.version_id r.versions ≡ none
      → n ≡ register_new (with_status registered m) r
      → Change r n
  begins :
      (v : ℕ) (ws : List String) (m : WeightMeta)
      → lookup v r.versions ≡ some m
      → is_failed m.status ≡ false
      → is_empty ws ≡ false
      → n ≡ record r {
        versions = insert v (with_status activating m) r.versions;
        activation = some (record { version_id = v; required_workers = ws; acked_workers = [] });
      }
      → Change r n
  acks :
      (a : ActivationState) (w : String)
      → r.activation ≡ some a
      → contains w a.required_workers ≡ true
      → same_set (add w a.acked_workers) a.required_workers ≡ false
      → n ≡ record r { activation = some (record a { acked_workers = add w a.acked_workers }) }
      → Change r n
  finishes :
      (a : ActivationState) (w : String) (m : WeightMeta)
      → r.activation ≡ some a
      → contains w a.required_workers ≡ true
      → same_set (add w a.acked_workers) a.required_workers ≡ true
      → lookup a.version_id r.versions ≡ some m
      → n ≡ record r {
        versions = insert a.version_id (with_status active_global m) r.versions;
        latest_active_global = some a.version_id;
        activation = none;
      }
      → Change r n
  fails :
      (v : ℕ) (m : WeightMeta)
      → lookup v r.versions ≡ some m
      → n ≡ record r {
        versions = insert v (with_status failed m) r.versions;
        activation = cancel v r.activation;
      }
      → Change r n

pub register-Change : (m : WeightMeta) (r : WeightRegistry) → Change r (register m r).1
unfolding register
register-Change m r = elim (Option-cases (lookup m.version_id r.versions)) [
  | inl e ↦ registers m e (ground arith)
  | inr (x, e) ↦ keep (ground arith)
]

pub begin_activation-Change :
    (v : ℕ) (ws : List String) (r : WeightRegistry) → Change r (begin_activation v ws r).1
unfolding begin_activation
begin_activation-Change v ws r = elim (Option-cases (lookup v r.versions)) [
  | inl e ↦ keep (ground arith)
  | inr (m, e) ↦ elim (Bool-cases (is_failed m.status)) [
    | inl f ↦ keep (ground arith)
    | inr f ↦ elim (Bool-cases (is_empty ws)) [
      | inl x ↦ keep (ground arith)
      | inr x ↦ begins v ws m e f x (rw (x, e, f) refl)
    ]
  ]
]

pub waited-exists :
    (r : WeightRegistry) (a : ActivationState)
    → IsSound r
    → r.activation ≡ some a
    → (m : WeightMeta) × (lookup a.version_id r.versions ≡ some m)
waited-exists r a h e = elim (Option-cases (lookup a.version_id r.versions)) [
  | inl f ↦ absurd (ground (arith, h.waits_for a.version_id))
  | inr p ↦ p
]

pub ack_activation-Change :
    (v : ℕ) (w : String) (r : WeightRegistry) → IsSound r → Change r (ack_activation v w r).1
unfolding ack_activation
ack_activation-Change v w r h = elim (Option-cases r.activation) [
  | inl e ↦ keep (rw e refl)
  | inr (a, e) ↦ elim (Bool-cases (a.version_id == v)) [
    | inr f ↦ keep (rw (e, f) refl)
    | inl f ↦ elim (Bool-cases (contains w a.required_workers)) [
      | inr k ↦ keep (rw (e, f, k) refl)
      | inl k ↦
          let (m, g) = waited-exists r a h e in
          elim (Bool-cases (same_set (add w a.acked_workers) a.required_workers)) [
            | inl s ↦ finishes a w m e k s g (ground (arith, nat_eq.test_iff a.version_id v))
            | inr s ↦ acks a w e k s (ground (arith, nat_eq.test_iff a.version_id v))
          ]
    ]
  ]
]

pub mark_failed-Change : (v : ℕ) (r : WeightRegistry) → Change r (mark_failed v r).1
unfolding mark_failed
mark_failed-Change v r = elim (Option-cases (lookup v r.versions)) [
  | inl e ↦ keep (ground arith)
  | inr (m, e) ↦ fails v m e (ground arith)
]
