-- ===== src/WeightStore/Files.antt =====
-- `MockFilesystemWeightStore` of nano_rl/runtime/weight_store.py, with the disk that it writes.
pub mod Stored
pub mod Laws
pub mod Opening
pub mod Copying
use nano_rl.Prelude.{ℕ, String, Bool, Option, none, some, List, [], ◌∷◌, if◌then◌else◌}
use nano_rl.Prelude.Equality.{◌==◌, nat_eq, string_eq, pair_eq}
use nano_rl.Prelude.Exec.{Result, ok, err, Exec, pure, ◌>>=◌, ◌>>◌}
use nano_rl.Prelude.Dict.{Dict, lookup, has, insert, erase}
use nano_rl.Protocols.{WeightMeta}
use nano_rl.WeightStore.Values.{Entries}
use nano_rl.WeightStore.Manifests.{
  StoreError, unknown_weight_version, file_not_found, Texts, WeightPayload, Disk, build_meta,
  version_dir_name, write_manifest, read_manifest,
}
use nano_rl.WeightStore.Memory.{found}

pub record FileStore : Type 0 where
  pub root_dir : String
  pub disk : Disk
  pub payloads : Dict ℕ WeightPayload
  pub metas : Dict ℕ WeightMeta

abbrev pub Action : Type 0 → Type 0
Action A = Exec FileStore StoreError A

abbrev pub dir_of : Texts → String → ℕ → String
dir_of t root v = t.join root (version_dir_name t v)

-- The metadata that `store` builds.
abbrev pub stored_meta : Texts → String → WeightPayload → WeightMeta
stored_meta t root p =
    build_meta t p (some (dir_of t root p.version_id))
      (some (t.join (dir_of t root p.version_id) "manifest.json"))

unfoldable pub store : Texts → WeightPayload → FileStore → WeightMeta × FileStore
store t p s =
    let meta = stored_meta t s.root_dir p in
    (
      meta,
      record s {
        disk = insert (s.root_dir, p.version_id) (write_manifest t p meta) s.disk;
        payloads = insert p.version_id p s.payloads;
        metas = insert p.version_id meta s.metas;
      },
    )

-- What is read is kept under the given version.
abbrev pub keep : ℕ → Result StoreError (WeightPayload × WeightMeta) → Action (Unit {0})
keep v (err e) s = (err e, s)
keep v (ok (p, m)) s =
    (ok tt, record s { payloads = insert v p s.payloads; metas = insert v m s.metas })

abbrev read_found : Texts → ℕ → Option Entries → Action (Unit {0})
read_found t v none s = (err (unknown_weight_version v), s)
read_found t v (some manifest) s = keep v (read_manifest t manifest) s

pub ensure_loaded : Texts → ℕ → Action (Unit {0})
ensure_loaded t v s =
    if has v s.payloads then (ok tt, s) else read_found t v (lookup (s.root_dir, v) s.disk) s

pub load : Texts → ℕ → Action WeightPayload
unfolding ensure_loaded
load t v = do ensure_loaded t v; λ s. (found v (lookup v s.payloads), s)

pub meta : Texts → ℕ → Action WeightMeta
unfolding ensure_loaded
meta t v = do ensure_loaded t v; λ s. (found v (lookup v s.metas), s)

-- The versions with a manifest below the root. Each manifest is kept under its own version, so the
-- order in which `glob` gives them does not matter.
pub versions_in : String → Disk → List ℕ
versions_in root [] = []
versions_in root (((dir, v), m) ∷ disk) =
    let rest = versions_in root disk in if dir == root then v ∷ rest else rest

-- A manifest is kept under the version of its payload.
abbrev keep_own : Result StoreError (WeightPayload × WeightMeta) → Action (Unit {0})
keep_own (err e) = keep 0 (err e)
keep_own (ok (p, m)) = keep p.version_id (ok (p, m))

abbrev read_own : Texts → Option Entries → Action (Unit {0})
read_own t none = pure tt
read_own t (some manifest) = keep_own (read_manifest t manifest)

-- The loop of `_load_existing_manifests`.
pub load_manifests : Texts → List ℕ → Action (Unit {0})
load_manifests t [] = pure tt
load_manifests t (v ∷ vs) = do
  λ s. read_own t (lookup (s.root_dir, v) s.disk) s
  load_manifests t vs

-- `__init__`, on what the disk holds
pub open_store : Texts → String → Disk → Result StoreError (Unit {0}) × FileStore
unfolding versions_in load_manifests
open_store t root disk =
    load_manifests t (versions_in root disk)
      (record { root_dir = root; disk = disk; payloads = []; metas = [] })

-- `shutil.copytree`
abbrev copy_from : Option Entries → String → ℕ → Action (String × ℕ)
copy_from none dir v s = (err file_not_found, s)
copy_from (some manifest) dir v s =
    (ok (dir, v), record s { disk = insert (dir, v) manifest s.disk })

-- What follows `_ensure_loaded`: `shutil.rmtree` of the target, then the copy of the stored directory.
abbrev copy_to : Option String → ℕ → Action (String × ℕ)
copy_to none v s = (ok (s.root_dir, v), s)
copy_to (some dir) v s =
    copy_from (lookup (s.root_dir, v) (erase (dir, v) s.disk)) dir v
      (record s { disk = erase (dir, v) s.disk })

pub materialize : Texts → ℕ → Option String → Action (String × ℕ)
unfolding ensure_loaded
materialize t v target = do ensure_loaded t v; copy_to target v
