-- ===== src/WeightStore/Files/Laws.antt =====
-- `MockFilesystemWeightStore` of nano_rl/runtime/weight_store.py keeps the promise of a store, also
-- after it is opened again on what the disk holds.
use mathlib.Core.Path.{subst}
use nano_rl.Prelude.{
  ℕ, String, ◌≡◌, refl, false, ap, sym, ◌∙◌, Option, none, some, arith, Option-cases, inl, inr,
}
use nano_rl.Prelude.Equality.{nat_eq, string_eq, pair_eq}
use nano_rl.Prelude.Exec.{Result, ok, err, continue}
use nano_rl.Prelude.Dict.{lookup, has, insert, lookup-insert_self}
use nano_rl.Protocols.{WeightMeta}
use nano_rl.WeightStore.Manifests.{
  StoreError, unknown_weight_version, Texts, ReadsBack, WeightPayload, build_meta, read_manifest,
}
use nano_rl.WeightStore.Manifests.RoundTrip.{normal, build_meta-normal, read-write_manifest}
use nano_rl.WeightStore.Memory.{found}
use nano_rl.WeightStore.Files.{FileStore, store, load, meta, stored_meta, ensure_loaded}
use nano_rl.WeightStore.Interface.{StoreOps, StoreLaws, Versions, plain, plain_meta, on_ok, on_some}
use nano_rl.WeightStore.Files.Stored.{manifest_of, Cached, Holds, store-Holds, keep-Holds}

abbrev pub file_ops : Texts → StoreOps FileStore
file_ops t = record { store = store t; load = load t; meta = meta t }

-- How `_ensure_loaded` ends: the version is in memory, or it is not known.
abbrev pub Ensured :
    Texts → ℕ → String → Versions → Result StoreError (Unit {0}) × FileStore → Type 0
Ensured t v root m (ok _, s) =
    Holds t s m × (s.root_dir ≡ root) × (p : WeightPayload) × (lookup v s.payloads ≡ some p)
Ensured t v root m (err e, s) = Holds t s m × (m v ≡ none) × (e ≡ unknown_weight_version v)

module _ (t : Texts) (back : ReadsBack t) where
  pub read-of_manifest :
      (root : String) (q : WeightPayload)
      → read_manifest t (manifest_of t root q) ≡ ok (normal t q, stored_meta t root q)
  read-of_manifest root q = read-write_manifest t back q (stored_meta t root q)

  ensure-present :
      (v : ℕ) (s : FileStore) (p : WeightPayload)
      → lookup v s.payloads ≡ some p
      → ensure_loaded t v s ≡ (ok tt, s)
  unfolding ensure_loaded
  ensure-present v s p e = ground (arith, e)

  ensure-unknown :
      (v : ℕ) (s : FileStore)
      → lookup v s.payloads ≡ none
      → lookup (s.root_dir, v) s.disk ≡ none
      → ensure_loaded t v s ≡ (err (unknown_weight_version v), s)
  unfolding ensure_loaded
  ensure-unknown v s e f = ground (arith, e, f)

  ensure-reads :
      (v : ℕ) (s : FileStore) (q : WeightPayload)
      → lookup v s.payloads ≡ none
      → lookup (s.root_dir, v) s.disk ≡ some (manifest_of t s.root_dir q)
      → ensure_loaded t v s ≡ (
        ok tt,
        record s {
          payloads = insert v (normal t q) s.payloads;
          metas = insert v (stored_meta t s.root_dir q) s.metas;
        },
      )
  unfolding ensure_loaded
  ensure-reads v s q e f =
      let none_yet : has v s.payloads ≡ false = ground (arith, e) in
      rw (none_yet, f, read-of_manifest s.root_dir q) refl

  pub ensured :
      (v : ℕ) (s : FileStore) (m : Versions)
      → Holds t s m
      → Ensured t v s.root_dir m (ensure_loaded t v s)
  ensured v s m h = elim (Option-cases (lookup v s.payloads)) [
    | inr (p, e) ↦ subst (Ensured t v s.root_dir m) (sym (ensure-present v s p e)) (h, refl, p, e)
    | inl e ↦ elim (Option-cases (m v)) [
      | inl f ↦
          subst (Ensured t v s.root_dir m)
            (sym (ensure-unknown v s e (h.on_disk.manifest_at v ∙ ap (on_some _) f))) (h, f, refl)
      | inr (q, f) ↦
          subst (Ensured t v s.root_dir m)
            (sym (ensure-reads v s q e (h.on_disk.manifest_at v ∙ ap (on_some _) f)))
            (
              keep-Holds t v q s m f h,
              refl,
              normal t q,
              lookup-insert_self v (normal t q) s.payloads,
            )
    ]
  ]

  abbrev Loaded : ℕ → Versions → Result StoreError WeightPayload × FileStore → Type 0
  Loaded v m (r, s) = (on_ok (normal t) r ≡ found v (m v)) × Holds t s m

  abbrev Described : ℕ → Versions → Result StoreError WeightMeta × FileStore → Type 0
  Described v m (r, s) = (on_ok plain r ≡ found v (on_some (plain_meta t) (m v))) × Holds t s m

  payload_kept :
      (root : String) (v : ℕ) (p : WeightPayload) (k : Option WeightMeta) (q : Option WeightPayload)
      → Cached t root (some p) k q
      → ok (normal t p) ≡ found v q
  payload_kept root v p none q c = elim c [ ]
  payload_kept root v p (some k) none c = elim c [ ]
  payload_kept root v p (some k) (some q) c = ap ok (sym c.0)

  plain-stored_meta :
      (root : String) (p : WeightPayload) → plain (stored_meta t root p) ≡ plain_meta t p
  unfolding build_meta
  plain-stored_meta root p = refl

  pub known_kept :
      (root : String) (p : WeightPayload) (k : Option WeightMeta) (q : Option WeightPayload)
      → Cached t root (some p) k q
      → (x : WeightPayload) × (q ≡ some x)
  known_kept root p none q c = elim c [ ]
  known_kept root p (some k) none c = elim c [ ]
  known_kept root p (some k) (some q) c = (q, refl)

  meta_kept :
      (root : String) (v : ℕ) (p : WeightPayload) (k : Option WeightMeta) (q : Option WeightPayload)
      → Cached t root (some p) k q
      → on_ok plain (found v k) ≡ found v (on_some (plain_meta t) q)
  meta_kept root v p none q c = elim c [ ]
  meta_kept root v p (some k) none c = elim c [ ]
  meta_kept root v p (some k) (some q) c =
      ap (λ x. ok (plain x)) c.1
      ∙ ap ok (
          plain-stored_meta root p
          ∙ ap plain (sym (build_meta-normal t p _ _))
          ∙ ap (plain_meta t) (sym c.0))

  load-Loaded : (v : ℕ) (s : FileStore) (m : Versions) → Holds t s m → Loaded v m (load t v s)
  unfolding load
  load-Loaded v s m h = after (ensure_loaded t v s) (ensured v s m h)
    where
      after :
          (r : Result StoreError (Unit {0}) × FileStore)
          → Ensured t v s.root_dir m r
          → Loaded v m (continue r.0 (λ _ s. (found v (lookup v s.payloads), s)) r.1)
      after (ok _, s) (k, _, p, e) = (
        rw e (
            payload_kept s.root_dir v p (lookup v s.metas) (m v)
              (subst (λ o. Cached t s.root_dir o (lookup v s.metas) (m v)) e (k.cached v))),
        k,
      )
      after (err e, s) (k, f, u) = (rw (f, u) refl, k)

  meta-Described : (v : ℕ) (s : FileStore) (m : Versions) → Holds t s m → Described v m (meta t v s)
  unfolding meta
  meta-Described v s m h = after (ensure_loaded t v s) (ensured v s m h)
    where
      after :
          (r : Result StoreError (Unit {0}) × FileStore)
          → Ensured t v s.root_dir m r
          → Described v m (continue r.0 (λ _ s. (found v (lookup v s.metas), s)) r.1)
      after (ok _, s) (k, _, p, e) = (
        meta_kept s.root_dir v p (lookup v s.metas) (m v)
            (subst (λ o. Cached t s.root_dir o (lookup v s.metas) (m v)) e (k.cached v)),
        k,
      )
      after (err e, s) (k, f, u) = (rw (f, u) refl, k)

  pub file_laws : StoreLaws t (file_ops t) (Holds t)
  unfolding store
  file_laws = record {
    store_answer = λ p s. plain-stored_meta s.root_dir p;
    store_holds = store-Holds t;
    load_answer = λ v s m h. (load-Loaded v s m h).0;
    load_holds = λ v s m h. (load-Loaded v s m h).1;
    meta_answer = λ v s m h. (meta-Described v s m h).0;
    meta_holds = λ v s m h. (meta-Described v s m h).1;
  }
