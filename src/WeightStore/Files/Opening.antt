-- ===== src/WeightStore/Files/Opening.antt =====
-- `MockFilesystemWeightStore.__init__` of nano_rl/runtime/weight_store.py, on a disk that another store
-- has written.
use mathlib.Core.Path.{subst}
use nano_rl.Prelude.{ℕ, String, sym, ap, ◌∙◌, List, [], ◌∷◌, Option-cases, inl, inr}
use nano_rl.Prelude.Equality.{nat_eq, string_eq, pair_eq}
use nano_rl.Prelude.Exec.{Result, ok, err, continue}
use nano_rl.Prelude.Dict.{lookup}
use nano_rl.WeightStore.Manifests.{StoreError, Texts, ReadsBack, Disk}
use nano_rl.WeightStore.Files.{
  FileStore, keep_own, read_own, load_manifests, versions_in, open_store,
}
use nano_rl.WeightStore.Files.Stored.{OnDisk, Holds, keep-Holds}
use nano_rl.WeightStore.Files.Laws.{read-of_manifest}
use nano_rl.WeightStore.Interface.{Versions, on_some}

-- The opening went through, and the store holds the versions.
abbrev pub Opened : Texts → Versions → Result StoreError (Unit {0}) × FileStore → Type 0
Opened t m (ok _, s) = Holds t s m
Opened t m (err e, s) = ⊥

module _ (t : Texts) (back : ReadsBack t) where
  read_own-Opened :
      (v : ℕ) (s : FileStore) (m : Versions)
      → Holds t s m
      → Opened t m (read_own t (lookup (s.root_dir, v) s.disk) s)
  read_own-Opened v s m h = elim (Option-cases (m v)) [
    | inl f ↦
        subst (λ o. Opened t m (read_own t o s)) (sym (h.on_disk.manifest_at v ∙ ap (on_some _) f))
          h
    | inr (q, f) ↦
        subst (λ o. Opened t m (read_own t o s)) (sym (h.on_disk.manifest_at v ∙ ap (on_some _) f))
          (subst (λ r. Opened t m (keep_own r s)) (sym (read-of_manifest t back s.root_dir q))
            (keep-Holds t q.version_id q s m (ap m (h.on_disk.named v q f).0 ∙ f) h))
  ]

  load_manifests-Opened :
      (vs : List ℕ) (s : FileStore) (m : Versions)
      → Holds t s m
      → Opened t m (load_manifests t vs s)
  unfolding load_manifests
  load_manifests-Opened [] s m h = h
  load_manifests-Opened (v ∷ vs) s m h =
      after (λ r k. load_manifests-Opened vs r m k) (read_own t (lookup (s.root_dir, v) s.disk) s)
        (read_own-Opened v s m h)
    where
      after :
          ((r : FileStore) → Holds t r m → Opened t m (load_manifests t vs r))
          → (r : Result StoreError (Unit {0}) × FileStore) → Opened t m r
          → Opened t m (continue r.0 (λ _. load_manifests t vs) r.1)
      after later (ok _, r) k = later r k
      after later (err e, r) k = elim k [ ]

  pub open_store-Opened :
      (root : String) (disk : Disk) (m : Versions)
      → OnDisk t root disk m
      → Opened t m (open_store t root disk)
  unfolding open_store lookup
  open_store-Opened root disk m h =
      load_manifests-Opened (versions_in root disk)
        (record { root_dir = root; disk = disk; payloads = []; metas = [] }) m
        (record { on_disk = h; cached = λ v. tt })
