-- ===== src/WeightRegistry/Keeping.antt =====
-- Histories of calls on `WeightRegistryActorCore` of nano_rl/runtime/weight_registry.py.
use mathlib.Core.Path.{subst}
use nano_rl.Prelude.{
  ◌++◌, ℕ, String, ◌≡◌, refl, true, false, Option, none, some, List, [], ◌∷◌, arith,
}
use nano_rl.Prelude.Equality.{nat_eq, string_eq, contains, add}
use nano_rl.Prelude.Dict.{Dict, lookup, insert, lookup-insert}
use nano_rl.Protocols.{WeightMeta, registered, activating, active_global, failed}
use nano_rl.WeightRegistry.{
  WeightRegistry, ActivationState, create, with_status, is_empty, all_in, cancel, register,
  begin_activation, ack_activation, mark_failed,
}
use nano_rl.WeightRegistry.Invariant.{
  IsSound, WaitsFor, StillWaits, Change, keep, registers, begins, acks, finishes, fails,
  register-Change, begin_activation-Change, ack_activation-Change, mark_failed-Change,
}

all_in-snoc :
    (w : String) (xs ys : List String)
    → all_in xs ys ≡ true
    → contains w ys ≡ true
    → all_in (xs ++ (w ∷ [])) ys ≡ true
all_in-snoc w [] ys h k = ground arith
all_in-snoc w (x ∷ xs) ys h k = ground (arith, all_in-snoc w xs ys)

pub all_in-add :
    (w : String) (xs ys : List String)
    → all_in xs ys ≡ true
    → contains w ys ≡ true
    → all_in (add w xs) ys ≡ true
all_in-add w xs ys h k = ground (arith, all_in-snoc w xs ys)

all_in-nil : (ws : List String) → is_empty ws ≡ false → all_in ws [] ≡ false
all_in-nil [] h = h
all_in-nil (x ∷ xs) h = refl

cancel-WaitsFor :
    (v u : ℕ) (o : Option ActivationState) (m : WeightMeta) (d : Dict ℕ WeightMeta)
    → WaitsFor o u (lookup u d)
    → WaitsFor (cancel v o) u (lookup u (insert v m d))
cancel-WaitsFor v u none m d h = tt
cancel-WaitsFor v u (some a) m d h =
    ground (arith, lookup-insert u v m d, nat_eq.test_iff a.version_id v, nat_eq.test_iff v u)

cancel-StillWaits : (v : ℕ) (o : Option ActivationState) → StillWaits o → StillWaits (cancel v o)
cancel-StillWaits v none h = tt
cancel-StillWaits v (some a) h = ground arith

-- The properties survive every change.
pub Change-IsSound : {r n : WeightRegistry} → Change r n → IsSound r → IsSound n
Change-IsSound (keep e) h = rw e h
Change-IsSound {r} {n} (registers m e p) h = record {
  at = λ v. rw p (
      ground (
        arith,
        h.at v,
        h.at m.version_id,
        lookup-insert v m.version_id (with_status registered m) r.versions,
        nat_eq.test_iff m.version_id v,
      ));
  waits_for = λ v. rw p (
      ground (
        arith,
        h.waits_for v,
        h.waits_for m.version_id,
        lookup-insert v m.version_id (with_status registered m) r.versions,
        nat_eq.test_iff m.version_id v,
      ));
  still_waits = rw p h.still_waits;
}
Change-IsSound {r} {n} (begins v ws m e f x p) h = record {
  at = λ u. rw p (
      ground (
        arith,
        h.at u,
        h.at v,
        lookup-insert u v (with_status activating m) r.versions,
        nat_eq.test_iff v u,
      ));
  waits_for = λ u. rw p (
      ground (
        arith,
        h.waits_for u,
        lookup-insert u v (with_status activating m) r.versions,
        nat_eq.test_iff v u,
      ));
  still_waits = rw p (refl, all_in-nil ws x);
}
Change-IsSound {r} {n} (acks a w e k s p) h = record {
  at = λ v. rw p (h.at v);
  waits_for = λ v. rw p (ground (arith, h.waits_for v));
  still_waits =
      rw p
        (all_in-add w a.acked_workers a.required_workers (subst StillWaits e h.still_waits).0 k, s);
}
Change-IsSound {r} {n} (finishes a w m e k s g p) h = record {
  at = λ v. rw p (
      ground (
        arith,
        h.at v,
        h.at a.version_id,
        lookup-insert v a.version_id (with_status active_global m) r.versions,
        nat_eq.test_iff a.version_id v,
      ));
  waits_for = λ v. rw p tt;
  still_waits = rw p tt;
}
Change-IsSound {r} {n} (fails v m e p) h = record {
  at = λ u. rw p (
      ground (
        arith,
        h.at u,
        h.at v,
        lookup-insert u v (with_status failed m) r.versions,
        nat_eq.test_iff v u,
      ));
  waits_for = λ u.
      rw p (cancel-WaitsFor v u r.activation (with_status failed m) r.versions (h.waits_for u));
  still_waits = rw p (cancel-StillWaits v r.activation h.still_waits);
}

create-IsSound : IsSound create
unfolding create lookup
create-IsSound = record {
  at = λ v. (ground arith, ground arith);
  waits_for = λ v. tt;
  still_waits = tt;
}

-- The calls that change a registry.
pub data RegistryCall : Type 0 where
  registers_meta : WeightMeta → RegistryCall
  begins_activation : ℕ → List String → RegistryCall
  acks_activation : ℕ → String → RegistryCall
  marks_failed : ℕ → RegistryCall

-- A call that raises counts as made.
unfoldable pub step : RegistryCall → WeightRegistry → WeightRegistry
step (registers_meta m) r = (register m r).1
step (begins_activation v ws) r = (begin_activation v ws r).1
step (acks_activation v w) r = (ack_activation v w r).1
step (marks_failed v) r = (mark_failed v r).1

unfoldable pub run : List RegistryCall → WeightRegistry → WeightRegistry
run [] r = r
run (c ∷ cs) r = run cs (step c r)

step-Change : (c : RegistryCall) (r : WeightRegistry) → IsSound r → Change r (step c r)
unfolding step
step-Change (registers_meta m) r h = register-Change m r
step-Change (begins_activation v ws) r h = begin_activation-Change v ws r
step-Change (acks_activation v w) r h = ack_activation-Change v w r h
step-Change (marks_failed v) r h = mark_failed-Change v r

-- What every change of a sound registry keeps, every history keeps.
pub run_induction :
    (P : WeightRegistry → Type 0)
    → ((r n : WeightRegistry) → IsSound r → Change r n → P r → P n)
    → (cs : List RegistryCall) (r : WeightRegistry) → IsSound r
    → P r
    → IsSound (run cs r) × P (run cs r)
unfolding run
run_induction P keeps [] r h p = (h, p)
run_induction P keeps (c ∷ cs) r h p =
    let x = step-Change c r h in
    run_induction P keeps cs (step c r) (Change-IsSound x h) (keeps r (step c r) h x p)

-- After any calls on a new registry: versions are filed under their ids, the latest registered one is
-- the greatest, the latest active one exists, and an activation waits for a version that is being
-- activated, with an acknowledgement missing.
pub history-IsSound : (cs : List RegistryCall) → IsSound (run cs create)
history-IsSound cs = (run_induction (λ _. Unit) (λ _ _ _ _ _. tt) cs create create-IsSound tt).0

-- The version exists and has failed.
abbrev pub HasFailed : Option WeightMeta → Type 0
HasFailed none = ⊥
HasFailed (some m) = m.status ≡ failed

Change-HasFailed :
    (v : ℕ) (r n : WeightRegistry)
    → IsSound r
    → Change r n
    → HasFailed (lookup v r.versions)
    → HasFailed (lookup v n.versions)
Change-HasFailed v r n h (keep e) f = rw e f
Change-HasFailed v r n h (registers m e p) f = rw p (
    ground (
      arith,
      lookup-insert v m.version_id (with_status registered m) r.versions,
      nat_eq.test_iff m.version_id v,
    ))
Change-HasFailed v r n h (begins u ws m e g x p) f =
    rw p
      (ground (arith, lookup-insert v u (with_status activating m) r.versions, nat_eq.test_iff u v))
Change-HasFailed v r n h (acks a w e k s p) f = rw p f
Change-HasFailed v r n h (finishes a w m e k s g p) f = rw p (
    ground (
      arith,
      h.waits_for v,
      lookup-insert v a.version_id (with_status active_global m) r.versions,
      nat_eq.test_iff a.version_id v,
    ))
Change-HasFailed v r n h (fails u m e p) f =
    rw p (ground (arith, lookup-insert v u (with_status failed m) r.versions, nat_eq.test_iff u v))

-- In a sound registry a version that has failed stays failed, whatever is called: it is not
-- activated again, and registering it again does not revive it.
pub failed_for_good :
    (cs : List RegistryCall) (r : WeightRegistry) (v : ℕ)
    → IsSound r
    → HasFailed (lookup v r.versions)
    → HasFailed (lookup v (run cs r).versions)
failed_for_good cs r v h f =
    (run_induction (λ s. HasFailed (lookup v s.versions)) (λ s n k x. Change-HasFailed v s n k x) cs
      r h f).1
