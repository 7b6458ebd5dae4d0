-- ===== src/WeightStore/Files/Stored.antt =====
-- What the disk and the memory of `MockFilesystemWeightStore` of nano_rl/runtime/weight_store.py hold.
use nano_rl.Prelude.{
  ℕ, String, ◌≡◌, refl, ap, sym, ◌∙◌, Option, none, some, if◌then◌else◌, arith, Bool-cases, inl,
  inr,
}
use nano_rl.Prelude.Equality.{◌==◌, nat_eq, string_eq, pair_eq}
use nano_rl.Prelude.Dict.{lookup, insert, lookup-insert}
use nano_rl.Protocols.{WeightMeta}
use nano_rl.WeightStore.Values.{Entries}
use nano_rl.WeightStore.Manifests.{Texts, WeightPayload, write_manifest, Disk}
use nano_rl.WeightStore.Manifests.RoundTrip.{
  normal, normal-normal, build_meta-normal, write_manifest-normal,
}
use nano_rl.WeightStore.Files.{FileStore, store, stored_meta}
use nano_rl.WeightStore.Interface.{Versions, update, on_some}

-- The manifest of a version, as `store` writes it.
abbrev pub manifest_of : Texts → String → WeightPayload → Entries
manifest_of t root p = write_manifest t p (stored_meta t root p)

-- The disk holds the manifests of the versions and no other below the root.
pub record OnDisk (t : Texts) (root : String) (disk : Disk) (m : Versions) : Type 0 where
  pub manifest_at : (v : ℕ) → lookup (root, v) disk ≡ on_some (manifest_of t root) (m v)
  pub named : (v : ℕ) (p : WeightPayload) → m v ≡ some p → (p.version_id ≡ v) × (normal t p ≡ p)

-- What the store has in memory of a version is right, when it has it.
abbrev pub Cached :
    Texts → String → Option WeightPayload → Option WeightMeta → Option WeightPayload → Type 0
Cached t root none k q = Unit
Cached t root (some p) (some k) (some q) = (q ≡ normal t p) × (k ≡ stored_meta t root p)
Cached t root (some p) _ _ = ⊥

pub record Holds (t : Texts) (s : FileStore) (m : Versions) : Type 0 where
  pub on_disk : OnDisk t s.root_dir s.disk m
  pub cached : (v : ℕ) → Cached t s.root_dir (lookup v s.payloads) (lookup v s.metas) (m v)

module _ (t : Texts) where
  pub manifest_of-normal :
      (root : String) (p : WeightPayload) → manifest_of t root (normal t p) ≡ manifest_of t root p
  manifest_of-normal root p =
      write_manifest-normal t p (stored_meta t root (normal t p))
      ∙ ap (write_manifest t p) (build_meta-normal t p _ _)

  pub lookup-insert_at :
      (root : String) (v w : ℕ) (es : Entries) (disk : Disk)
      → lookup (root, v) (insert (root, w) es disk)
        ≡ (if w == v then some es else lookup (root, v) disk)
  lookup-insert_at root v w es disk =
      ground (arith, lookup-insert (root, v) (root, w) es disk, string_eq.test_iff root root)

  pub store-OnDisk :
      (p : WeightPayload) (root : String) (disk : Disk) (m : Versions)
      → OnDisk t root disk m
      → OnDisk t root (insert (root, p.version_id) (manifest_of t root p) disk) (update t p m)
  store-OnDisk p root disk m h = record {
    manifest_at = λ v.
        rw (lookup-insert_at root v p.version_id (manifest_of t root p) disk)
          (elim (Bool-cases (p.version_id == v)) [
            | inl e ↦ rw e (ap some (sym (manifest_of-normal root p)))
            | inr e ↦ rw e (h.manifest_at v)
          ]);
    named = λ v q e. elim (Bool-cases (p.version_id == v)) [
      | inl f ↦ ground (arith, e, f, normal-normal t p, nat_eq.test_iff p.version_id v)
      | inr f ↦ ground (arith, e, f, h.named v q)
    ];
  }

  pub store-Holds :
      (p : WeightPayload) (s : FileStore) (m : Versions)
      → Holds t s m
      → Holds t (store t p s).1 (update t p m)
  unfolding store
  store-Holds p s m h = record {
    on_disk = store-OnDisk p s.root_dir s.disk m h.on_disk;
    cached = λ v.
        rw
          (
            lookup-insert v p.version_id p s.payloads,
            lookup-insert v p.version_id (stored_meta t s.root_dir p) s.metas,
          )
          (elim (Bool-cases (p.version_id == v)) [
            | inl e ↦ rw e (refl, refl)
            | inr e ↦ rw e (h.cached v)
          ]);
  }

  -- Keeping what a manifest says, under the version it is of.
  pub keep-Holds :
      (v : ℕ) (q : WeightPayload) (s : FileStore) (m : Versions)
      → m v ≡ some q
      → Holds t s m
      → Holds t
          (record s {
            payloads = insert v (normal t q) s.payloads;
            metas = insert v (stored_meta t s.root_dir q) s.metas;
          })
          m
  keep-Holds v q s m e h = record {
    on_disk = h.on_disk;
    cached = λ w.
        rw
          (
            lookup-insert w v (normal t q) s.payloads,
            lookup-insert w v (stored_meta t s.root_dir q) s.metas,
          )
          (elim (Bool-cases (v == w)) [
            | inl f ↦
                rw (f, ap m (sym ((nat_eq.test_iff v w).0 f)) ∙ e)
                  (
                    sym (ap (normal t) (h.on_disk.named v q e).1 ∙ (h.on_disk.named v q e).1),
                    sym (build_meta-normal t q _ _),
                  )
            | inr f ↦ rw f (h.cached w)
          ]);
  }
