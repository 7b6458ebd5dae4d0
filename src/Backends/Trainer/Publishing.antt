-- ===== src/Backends/Trainer/Publishing.antt =====
-- What `MockTrainerBackend.export_weight` of nano_rl/runtime/backends/trainer_backend.py puts into its
-- weight store.
use mathlib.Core.Path.{subst}
use nano_rl.Prelude.{
  ℕ, ◌+◌, String, ◌≡◌, refl, sym, not, if◌then◌else◌, ap, ◌∙◌, true, false, Option, some, arith,
}
use nano_rl.Prelude.Equality.{◌==◌, nat_eq, beq_refl}
use nano_rl.Prelude.Exec.{Result, ok, err}
use nano_rl.Protocols.{WeightMeta}
use nano_rl.WeightStore.Manifests.{Texts, WeightPayload, build_meta}
use nano_rl.WeightStore.Building.{build_mock_weight_payload}
use nano_rl.WeightStore.Manifests.RoundTrip.{normal}
use nano_rl.WeightStore.Memory.{found}
use nano_rl.WeightStore.Interface.{StoreOps, StoreLaws, Versions, update, plain, plain_meta, on_ok}
use nano_rl.Backends.Trainer.{Backend, BackendError, export_weight, export_payload}

found_new :
    (n : ℕ) (o x : Option WeightPayload)
    → found (n + 1) (if (n + 1) == (n + 1) then o else x) ≡ found (n + 1) o
found_new n o x = rw (beq_refl (n + 1)) refl

module _ {S : Type 0} (t : Texts) (ops : StoreOps S) (Holds : S → Versions → Type 0)
    (laws : StoreLaws t ops Holds) (decimal : ℕ → String) where
  -- The version after the parent is in the store, with the payload that was made of the backend.
  abbrev pub Published :
      WeightMeta → Versions → Backend S → Result BackendError WeightMeta × Backend S → Type 0
  Published parent m b (ok meta, n) =
      let p = export_payload decimal parent b in
      (plain meta ≡ plain_meta t p)
      × (n.weight_version ≡ some (parent.version_id + 1))
      × (s : S) × (n.weight_store ≡ some s)
      × Holds s (update t p m)
      × (on_ok (normal t) (ops.load (parent.version_id + 1) s).0 ≡ ok (normal t p))
  Published parent m b (err e, n) = ⊥

  export_stores :
      (parent : WeightMeta) (digest : String) (now : ℕ) (b : Backend S) (s : S)
      → b.config.rank ≡ 0
      → b.weight_store ≡ some s
      → export_weight decimal ops parent true digest now b ≡ (
        ok (ops.store (export_payload decimal parent b) s).0,
        record b {
          weight_store = some (ops.store (export_payload decimal parent b) s).1;
          weight_version = some (ops.store (export_payload decimal parent b) s).0.version_id;
        },
      )
  unfolding export_weight
  export_stores parent digest now b s rank stored =
      let allowed : (if b.options.require_rank0_export then not (b.config.rank == 0) else false)
          ≡ false =
        ground (arith, rank) in
      simp (allowed, stored)

  -- On rank 0 and with a store that keeps its laws, publishing goes through: the metadata is that of the
  -- new payload, the backend's version is the parent's plus one, the store holds the payload under it
  -- beside what it held, and loading the version gives the payload back.
  pub export_weight-Published :
      (parent : WeightMeta) (digest : String) (now : ℕ) (b : Backend S) (s : S) (m : Versions)
      → b.config.rank ≡ 0
      → b.weight_store ≡ some s
      → Holds s m
      → Published parent m b (export_weight decimal ops parent true digest now b)
  unfolding build_meta build_mock_weight_payload
  export_weight-Published parent digest now b s m rank stored h =
      let p = export_payload decimal parent b in
      let version = ap (λ x. x.version_id) (laws.store_answer p s) in
      let held = laws.store_holds p s m h in
      subst (Published parent m b) (sym (export_stores parent digest now b s rank stored)) (
        laws.store_answer p s,
        ap some version,
        (ops.store p s).1,
        refl,
        held,
        laws.load_answer (parent.version_id + 1) (ops.store p s).1 (update t p m) held
            ∙ found_new parent.version_id (some (normal t p)) (m (parent.version_id + 1)),
      )
