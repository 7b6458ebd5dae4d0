-- ===== src/WeightStore/Files/Copying.antt =====
-- `MockFilesystemWeightStore.materialize` of nano_rl/runtime/weight_store.py.
use mathlib.Core.Path.{subst}
use nano_rl.Prelude.{
  ℕ, String, ◌≡◌, sym, ◌∙◌, refl, none, some, false, ◌⊎◌, arith, Bool-cases, inl, inr,
}
use nano_rl.Prelude.Equality.{◌==◌, nat_eq, string_eq, pair_eq}
use nano_rl.Prelude.Exec.{Result, ok, err, continue}
use nano_rl.Prelude.Dict.{lookup, insert, erase, lookup-insert, lookup-insert_self, lookup-erase}
use nano_rl.WeightStore.Values.{Entries}
use nano_rl.WeightStore.Manifests.{
  StoreError, unknown_weight_version, file_not_found, Texts, ReadsBack, WeightPayload, Disk,
}
use nano_rl.WeightStore.Files.{FileStore, ensure_loaded, materialize, copy_to, copy_from}
use nano_rl.WeightStore.Files.Stored.{Holds, Cached, manifest_of}
use nano_rl.WeightStore.Files.Laws.{Ensured, ensured, known_kept}
use nano_rl.WeightStore.Interface.{Versions}

-- How `materialize` into `dir` ends for a store below `root`.
abbrev pub Copied :
    Texts → ℕ → String → String → Versions → Result StoreError (String × ℕ) × FileStore → Type 0
Copied t v dir root m (ok path, r) =
    (path ≡ (dir, v))
    × ((dir == root) ≡ false)
    × Holds t r m
    × (q : WeightPayload) × (m v ≡ some q)
    × (lookup (dir, v) r.disk ≡ some (manifest_of t root q))
Copied t v dir root m (err e, r) =
    ((m v ≡ none) × (e ≡ unknown_weight_version v) × Holds t r m)
    ⊎ ((dir ≡ root) × (e ≡ file_not_found) × (lookup (root, v) r.disk ≡ none))

other_dir :
    (root dir : String) (v w : ℕ) (es : Entries) (disk : Disk)
    → (dir == root) ≡ false
    → lookup (root, w) (insert (dir, v) es (erase (dir, v) disk)) ≡ lookup (root, w) disk
other_dir root dir v w es disk ne = ground (
  arith,
  lookup-insert (root, w) (dir, v) es (erase (dir, v) disk),
  lookup-erase (root, w) (dir, v) disk,
)

module _ (t : Texts) where
  copy_elsewhere :
      (v : ℕ) (dir : String) (s : FileStore) (m : Versions) (q : WeightPayload)
      → Holds t s m
      → m v ≡ some q
      → (dir == s.root_dir) ≡ false
      → Copied t v dir s.root_dir m (copy_to (some dir) v s)
  copy_elsewhere v dir s m q h e ne =
      let es = manifest_of t s.root_dir q in
      let there : lookup (s.root_dir, v) (erase (dir, v) s.disk) ≡ some es =
        ground (arith, lookup-erase (s.root_dir, v) (dir, v) s.disk, h.on_disk.manifest_at v, e) in
      subst
        (λ o.
          Copied t v dir s.root_dir m
            (copy_from o dir v (record s { disk = erase (dir, v) s.disk })))
        (sym there)
        (
          refl,
          ne,
          record {
            on_disk = record {
              manifest_at =
                  λ w. other_dir s.root_dir dir v w es s.disk ne ∙ h.on_disk.manifest_at w;
              named = h.on_disk.named;
            };
            cached = h.cached;
          },
          q,
          e,
          lookup-insert_self (dir, v) es (erase (dir, v) s.disk),
        )

  copy_onto_itself :
      (v : ℕ) (s : FileStore) (m : Versions)
      → Copied t v s.root_dir s.root_dir m (copy_to (some s.root_dir) v s)
  copy_onto_itself v s m =
      let gone : lookup (s.root_dir, v) (erase (s.root_dir, v) s.disk) ≡ none = ground (
        arith,
        lookup-erase (s.root_dir, v) (s.root_dir, v) s.disk,
        string_eq.test_iff s.root_dir s.root_dir,
        nat_eq.test_iff v v,
      ) in
      subst
        (λ o.
          Copied t v s.root_dir s.root_dir m
            (copy_from o s.root_dir v (record s { disk = erase (s.root_dir, v) s.disk })))
        (sym gone) (inr (refl, refl, gone))

module _ (t : Texts) (back : ReadsBack t) where
  copy_known :
      (v : ℕ) (dir : String) (s : FileStore) (m : Versions) (q : WeightPayload)
      → Holds t s m
      → m v ≡ some q
      → Copied t v dir s.root_dir m (copy_to (some dir) v s)
  copy_known v dir s m q h e = elim (Bool-cases (dir == s.root_dir)) [
    | inl f ↦
        subst (λ d. Copied t v d s.root_dir m (copy_to (some d) v s))
          (sym ((string_eq.test_iff dir s.root_dir).0 f)) (copy_onto_itself t v s m)
    | inr f ↦ copy_elsewhere t v dir s m q h e f
  ]

  -- `materialize` of a version, for a filesystem store that holds the versions `m`. It raises an
  -- unknown version exactly when the store has none, and nothing is lost. Into another directory than
  -- the store's root it copies the manifest and the store holds what it held. Into the store's own root it
  -- raises `FileNotFoundError`, and the version's manifest is gone from the disk.
  pub materialize-Copied :
      (v : ℕ) (dir : String) (s : FileStore) (m : Versions)
      → Holds t s m
      → Copied t v dir s.root_dir m (materialize t v (some dir) s)
  unfolding materialize
  materialize-Copied v dir s m h = after (ensure_loaded t v s) (ensured t back v s m h)
    where
      after :
          (r : Result StoreError (Unit {0}) × FileStore)
          → Ensured t v s.root_dir m r
          → Copied t v dir s.root_dir m (continue r.0 (λ _. copy_to (some dir) v) r.1)
      after (ok _, r) (k, root, p, e) =
          let (q, f) =
            known_kept t back r.root_dir p (lookup v r.metas) (m v)
              (subst (λ o. Cached t r.root_dir o (lookup v r.metas) (m v)) e (k.cached v)) in
          subst (λ root. Copied t v dir root m (copy_to (some dir) v r)) root
            (copy_known v dir r m q k f)
      after (err e, r) (k, f, u) = inl (f, u, k)
