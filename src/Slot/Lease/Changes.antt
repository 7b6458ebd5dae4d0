-- ===== src/Slot/Lease/Changes.antt =====
-- Histories of calls on `GpuLeaseManagerCore`, and how the state of one GPU moves along them.
use nano_rl.Prelude.{
  ℕ, ◌<◌, String, ◌≡◌, refl, ◌∙◌, ◌⊎◌, inl, inr, Bool-cases, Option, some, List, [], ◌∷◌, arith,
}
use nano_rl.Prelude.Dict.{Dict, lookup, insert, lookup-insert}
use nano_rl.Prelude.Equality.{◌==◌, nat_eq}
use nano_rl.Slot.Names.{RoleName}
use nano_rl.Slot.Types.{GpuLeaseState}
use nano_rl.Slot.Lease.{Manager, grant, mark_failed, granted, failed_state}
use nano_rl.Slot.Lease.Invariant.{
  Change, keep, give, fail, grant-Change, mark_failed-Change, IsWellFormed, Change-IsWellFormed,
}

-- The calls that may change a manager; the others only read it.
pub data LeaseCall : Type 0 where
  grants : RoleName → ℕ → String → LeaseCall
  fails : ℕ → String → LeaseCall

-- A call that raises counts as made, with what it left behind.
unfoldable pub step : LeaseCall → Manager → Manager
step (grants role gpu holder) m = (grant role gpu holder m).1
step (fails gpu reason) m = (mark_failed gpu reason m).1

unfoldable pub run : List LeaseCall → Manager → Manager
run [] m = m
run (c ∷ cs) m = run cs (step c m)

pub step-Change : (c : LeaseCall) (m : Manager) → Change m (step c m)
unfolding step
step-Change (grants role gpu holder) m = grant-Change role gpu holder m
step-Change (fails gpu reason) m = mark_failed-Change gpu reason m

-- Either nothing moved, or a later epoch began.
abbrev pub Advance : Option GpuLeaseState → Option GpuLeaseState → Type 0
Advance a b =
    (b ≡ a)
    ⊎ ((s : GpuLeaseState) × (t : GpuLeaseState) × (a ≡ some s)
        × (b ≡ some t)
        × (s.lease_epoch < t.lease_epoch))

Advance-trans : (a b c : Option GpuLeaseState) → Advance a b → Advance b c → Advance a c
Advance-trans a b c (inl p) (inl q) = inl (q ∙ p)
Advance-trans a b c (inl p) (inr (s, t, e, f, l)) = inr (s, t, ground arith, f, l)
Advance-trans a b c (inr (s, t, e, f, l)) (inl q) = inr (s, t, e, ground arith, l)
Advance-trans a b c (inr (s, t, e, f, l)) (inr (s', t', e', f', l')) =
    inr (s, t', e, f', ground arith)

Advance-insert :
    (g gpu : ℕ) (d : Dict ℕ GpuLeaseState) (s t : GpuLeaseState)
    → lookup gpu d ≡ some s
    → s.lease_epoch < t.lease_epoch
    → Advance (lookup g d) (lookup g (insert gpu t d))
Advance-insert g gpu d s t e l = elim (Bool-cases (gpu == g)) [
  | inl same ↦
      inr (s, t, ground (arith, nat_eq.test_iff gpu g), ground (arith, lookup-insert g gpu t d), l)
  | inr other ↦ inl (ground (arith, lookup-insert g gpu t d))
]

Change-Advance :
    {m n : Manager} → Change m n → (g : ℕ) → Advance (lookup g m.states) (lookup g n.states)
Change-Advance (keep e) g = inl (ground arith)
Change-Advance {m} {n} (give gpu role holder s roles e f c k p) g =
    rw p (Advance-insert g gpu m.states s (granted s gpu role holder) e (omega arith))
Change-Advance {m} {n} (fail gpu reason s e p) g =
    rw p (Advance-insert g gpu m.states s (failed_state s gpu reason) e (omega arith))

pub run-Advance :
    (cs : List LeaseCall) (m : Manager) (g : ℕ)
    → Advance (lookup g m.states) (lookup g (run cs m).states)
unfolding run
run-Advance [] m g = inl refl
run-Advance (c ∷ cs) m g =
    Advance-trans _ _ _ (Change-Advance (step-Change c m) g) (run-Advance cs (step c m) g)

-- What every change keeps, every history keeps.
pub run_induction :
    (P : Manager → Type 0)
    → ((m n : Manager) → Change m n → P m → P n)
    → (cs : List LeaseCall) (m : Manager) → P m
    → P (run cs m)
unfolding run
run_induction P keeps [] m h = h
run_induction P keeps (c ∷ cs) m h =
    run_induction P keeps cs (step c m) (keeps m (step c m) (step-Change c m) h)

-- Whatever is called, also in vain, phase, role and holder of each GPU go on agreeing.
pub run-IsWellFormed :
    (cs : List LeaseCall) (m : Manager) → IsWellFormed m → IsWellFormed (run cs m)
run-IsWellFormed = run_induction IsWellFormed (λ m n. Change-IsWellFormed)

pub Change-supported : {m n : Manager} → Change m n → n.supported_roles ≡ m.supported_roles
Change-supported (keep e) = ground arith
Change-supported (give gpu role holder s roles e f c k p) = ground arith
Change-supported (fail gpu reason s e p) = ground arith

-- The roles of a GPU are settled when the manager is made.
pub supported_roles-run :
    (cs : List LeaseCall) (m : Manager) → (run cs m).supported_roles ≡ m.supported_roles
unfolding run
supported_roles-run [] m = refl
supported_roles-run (c ∷ cs) m =
    supported_roles-run cs (step c m) ∙ Change-supported (step-Change c m)
