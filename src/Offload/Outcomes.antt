-- ===== src/Offload/Outcomes.antt =====
-- How a toggle of nano_rl/runtime/offload.py may end.
use nano_rl.Prelude.{
  ℕ, ◌≡◌, ◌≢◌, refl, ◌∙◌, true, false, Option, none, some, List, [], ◌∷◌, ◌++◌, arith,
}
use nano_rl.Prelude.Equality.{nat_eq}
use nano_rl.Prelude.Exec.{Result, ok, err}
use nano_rl.Prelude.Dict.{lookup, insert, lookup-insert, lookup-insert_self}
use nano_rl.Exceptions.{SlotError}
use nano_rl.Slot.Names.{ResidencyState}
use nano_rl.Slot.Types.{GpuLease, GpuLeaseState}
use nano_rl.Offload.{ResidencyManager, record_of, final_result, failure_from_offload}
use nano_rl.Offload.Types.{
  Strategy, ResidencyTransition, ResidencyTransitionRecord, ResidencyResult, OffloadEventType,
  Reason,
}
use nano_rl.Offload.Moves.{moved}

-- Each record of the list begins where the one before it ended.
abbrev pub Route : ResidencyState → ResidencyState → List ResidencyTransitionRecord → Type 0
Route a b [] = a ≡ b
Route a b (t ∷ ts) = (a ≡ t.from_state) × Route t.to_state b ts

pub Route-snoc :
    (a : ResidencyState) (t : ResidencyTransitionRecord) (ts : List ResidencyTransitionRecord)
    → Route a t.from_state ts
    → Route a t.to_state (ts ++ (t ∷ []))
Route-snoc a t [] p = (p, refl)
Route-snoc a t (x ∷ xs) p = (p.0, Route-snoc x.to_state t xs p.1)

-- Nothing has happened to any other GPU.
pub record Elsewhere (gpu : ℕ) (c d : ResidencyManager) : Type 0 where
  pub residency : (g : ℕ) → g ≢ gpu → lookup g d.states ≡ lookup g c.states
  pub lease : (g : ℕ) → g ≢ gpu → lookup g d.lease_manager.states ≡ lookup g c.lease_manager.states
  pub supported : d.lease_manager.supported_roles ≡ c.lease_manager.supported_roles

pub Elsewhere-refl : (gpu : ℕ) (c : ResidencyManager) → Elsewhere gpu c c
Elsewhere-refl gpu c = record { residency = λ _ _. refl; lease = λ _ _. refl; supported = refl }

pub Elsewhere-trans :
    (gpu : ℕ) (b c d : ResidencyManager) → Elsewhere gpu b c → Elsewhere gpu c d → Elsewhere gpu b d
Elsewhere-trans gpu b c d e f = record {
  residency = λ g n. f.residency g n ∙ e.residency g n;
  lease = λ g n. f.lease g n ∙ e.lease g n;
  supported = f.supported ∙ e.supported;
}

pub moved-Elsewhere :
    (gpu : ℕ) (state : ResidencyState) (b c : ResidencyManager)
    → Elsewhere gpu b c
    → Elsewhere gpu b (moved c gpu state)
moved-Elsewhere gpu state b c e = record {
  residency = λ g n. ground (arith, lookup-insert g gpu state c.states, e.residency g n);
  lease = e.lease;
  supported = e.supported;
}

-- The manager after a grant.
abbrev pub with_lease : ResidencyManager → ℕ → GpuLeaseState → ResidencyManager
with_lease c gpu s = record c {
  lease_manager = record c.lease_manager { states = insert gpu s c.lease_manager.states };
}

pub with_lease-Elsewhere :
    (gpu : ℕ) (s : GpuLeaseState) (b c : ResidencyManager)
    → Elsewhere gpu b c
    → Elsewhere gpu b (with_lease c gpu s)
with_lease-Elsewhere gpu s b c e = record {
  residency = e.residency;
  lease = λ g n. ground (arith, lookup-insert g gpu s c.lease_manager.states, e.lease g n);
  supported = e.supported;
}

-- The GPU has arrived: the result says so, holds the lease, and its records lead from `start` to
-- `target`.
pub record Arrived (start target : ResidencyState) (l : GpuLease) (c d : ResidencyManager)
    (r : ResidencyResult) : Type 0 where
  pub succeeded : r.success ≡ true
  pub says : r.state ≡ target
  pub resident : lookup l.gpu_id d.states ≡ some target
  pub hands_out : r.lease ≡ some l
  pub path : Route start target r.transitions
  pub manager : d.lease_manager ≡ c.lease_manager
  pub elsewhere : Elsewhere l.gpu_id c d

-- The GPU is degraded: the result says so, and why.
pub record Degraded (f : OffloadEventType × Reason) (l : GpuLease) (c d : ResidencyManager)
    (r : ResidencyResult) : Type 0 where
  pub failed : r.success ≡ false
  pub says : r.state ≡ ResidencyState.degraded
  pub resident : lookup l.gpu_id d.states ≡ some ResidencyState.degraded
  pub keeps : r.lease ≡ some l
  pub event : r.event_type ≡ some f.0
  pub why : r.reason ≡ some f.1
  pub manager : d.lease_manager ≡ c.lease_manager
  pub elsewhere : Elsewhere l.gpu_id c d

-- What the check of the last hook decides.
abbrev pub Settled :
    ResidencyState
    → ResidencyState
    → GpuLease
    → ResidencyManager
    → Option (OffloadEventType × Reason)
    → Result SlotError ResidencyResult × ResidencyManager
    → Type 0
Settled start target l c none (ok r, d) = Arrived start target l c d r
Settled start target l c (some f) (ok r, d) = Degraded f l c d r
Settled start target l c _ (err e, d) = ⊥

module _ (c : ResidencyManager) (l : GpuLease) (strategy : Strategy) (hydrated : ResidencyResult)
    (done : List ResidencyTransitionRecord) (start from mid target : ResidencyState)
    (t u : ResidencyTransition) (p : Route start from done) where
  pub final_result-Arrived :
      Arrived start target l c (moved (moved c l.gpu_id mid) l.gpu_id target) (
        final_result true strategy l target hydrated
          ((done ++ (record_of t l from mid ∷ [])) ++ (record_of u l mid target ∷ [])))
  final_result-Arrived = record {
    succeeded = refl;
    says = refl;
    resident = lookup-insert_self _ _ _;
    hands_out = refl;
    path =
        Route-snoc start (record_of u l mid target) _
          (Route-snoc start (record_of t l from mid) done p);
    manager = refl;
    elsewhere = moved-Elsewhere _ _ _ _ (moved-Elsewhere _ _ _ _ (Elsewhere-refl _ c));
  }

pub final_result-Degraded :
    (c : ResidencyManager) (l : GpuLease) (strategy : Strategy) (hydrated : ResidencyResult)
    (done : List ResidencyTransitionRecord) (mid : ResidencyState) (f : OffloadEventType × Reason)
    → hydrated.event_type ≡ some f.0
    → hydrated.reason ≡ some f.1
    → Degraded f l c
        (moved
          (moved (moved c l.gpu_id mid) l.gpu_id ResidencyState.degraded)
          l.gpu_id
          ResidencyState.degraded)
        (final_result false strategy l ResidencyState.degraded hydrated done)
final_result-Degraded c l strategy hydrated done mid f e r = record {
  failed = refl;
  says = refl;
  resident = lookup-insert_self _ _ _;
  keeps = refl;
  event = e;
  why = r;
  manager = refl;
  elsewhere =
      moved-Elsewhere _ _ _ _
        (moved-Elsewhere _ _ _ _ (moved-Elsewhere _ _ _ _ (Elsewhere-refl _ c)));
}

pub failure-Degraded :
    (c : ResidencyManager) (l : GpuLease) (r : ResidencyResult)
    (done : List ResidencyTransitionRecord) (mid : ResidencyState) (f : OffloadEventType × Reason)
    → r.state ≡ ResidencyState.degraded
    → r.lease ≡ some l
    → r.event_type ≡ some f.0
    → r.reason ≡ some f.1
    → Degraded f l c
        (moved (moved c l.gpu_id mid) l.gpu_id ResidencyState.degraded)
        (failure_from_offload r done)
failure-Degraded c l r done mid f s k e w = record {
  failed = refl;
  says = s;
  resident = lookup-insert_self _ _ _;
  keeps = k;
  event = e;
  why = w;
  manager = refl;
  elsewhere = moved-Elsewhere _ _ _ _ (moved-Elsewhere _ _ _ _ (Elsewhere-refl _ c));
}
