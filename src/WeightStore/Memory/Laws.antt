-- ===== src/WeightStore/Memory/Laws.antt =====
-- `MockMemoryWeightStore` of nano_rl/runtime/weight_store.py keeps the promise of a store.
use nano_rl.Prelude.{ℕ, ◌≡◌, refl, ap, ◌∙◌, none, arith, Bool-cases, inl, inr}
use nano_rl.Prelude.Equality.{◌==◌, nat_eq}
use nano_rl.Prelude.Dict.{lookup, lookup-insert}
use nano_rl.WeightStore.Manifests.{Texts, WeightPayload, build_meta}
use nano_rl.WeightStore.Manifests.RoundTrip.{normal, build_meta-normal}
use nano_rl.WeightStore.Memory.{MemoryStore, store, load, meta, found}
use nano_rl.WeightStore.Interface.{
  StoreOps, StoreLaws, Versions, update, plain, plain_meta, on_some, on_ok-found,
}

abbrev pub memory_ops : Texts → StoreOps MemoryStore
memory_ops t = record { store = store t; load = λ v s. (load v s, s); meta = λ v s. (meta v s, s) }

pub record Holds (t : Texts) (s : MemoryStore) (m : Versions) : Type 0 where
  pub payload_at : (v : ℕ) → on_some (normal t) (lookup v s.payloads) ≡ m v
  pub meta_at : (v : ℕ) → on_some plain (lookup v s.metas) ≡ on_some (plain_meta t) (m v)

module _ (t : Texts) where
  store-Holds :
      (p : WeightPayload) (s : MemoryStore) (m : Versions)
      → Holds t s m
      → Holds t (store t p s).1 (update t p m)
  unfolding store
  store-Holds p s m h = record {
    payload_at = λ v. ground (arith, h.payload_at v, lookup-insert v p.version_id p s.payloads);
    meta_at = λ v.
        rw (lookup-insert v p.version_id (build_meta t p none none) s.metas)
          (elim (Bool-cases (p.version_id == v)) [
            | inl e ↦ rw (e, build_meta-normal t p none none) refl
            | inr e ↦ rw e (h.meta_at v)
          ]);
  }

  pub memory_laws : StoreLaws t (memory_ops t) (Holds t)
  unfolding store load meta
  memory_laws = record {
    store_answer = λ p s. refl;
    store_holds = store-Holds;
    load_answer =
        λ v s m h. on_ok-found (normal t) v (lookup v s.payloads) ∙ ap (found v) (h.payload_at v);
    load_holds = λ v s m h. h;
    meta_answer = λ v s m h. on_ok-found plain v (lookup v s.metas) ∙ ap (found v) (h.meta_at v);
    meta_holds = λ v s m h. h;
  }
