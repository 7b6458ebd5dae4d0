-- ===== src/WeightStore/Memory.antt =====
-- `MockMemoryWeightStore` of nano_rl/runtime/weight_store.py.
pub mod Laws
use nano_rl.Prelude.{ℕ, String, Option, none, some, []}
use nano_rl.Prelude.Equality.{nat_eq, string_eq, pair_eq}
use nano_rl.Prelude.Exec.{Result, ok, err}
use nano_rl.Prelude.Dict.{Dict, lookup, insert}
use nano_rl.Protocols.{WeightMeta}
use nano_rl.WeightStore.Manifests.{
  StoreError, unknown_weight_version, target_dir_required, Texts, WeightPayload, Disk, build_meta,
  write_manifest, ◌|>◌,
}

pub record MemoryStore : Type 0 where
  pub payloads : Dict ℕ WeightPayload
  pub metas : Dict ℕ WeightMeta

-- `__init__`
abbrev pub empty : MemoryStore
empty = record { payloads = []; metas = [] }

pub store : Texts → WeightPayload → MemoryStore → WeightMeta × MemoryStore
store t p s =
    let meta = build_meta t p none none in
    (
      meta,
      record {
        payloads = insert p.version_id p s.payloads;
        metas = insert p.version_id meta s.metas;
      },
    )

-- `self._payloads[version_id]` and `self._metas[version_id]`, with their `KeyError`
abbrev pub found : {A : Type 0} → ℕ → Option A → Result StoreError A
found v none = err (unknown_weight_version v)
found v (some a) = ok a

pub load : ℕ → MemoryStore → Result StoreError WeightPayload
load v s = found v (lookup v s.payloads)

pub meta : ℕ → MemoryStore → Result StoreError WeightMeta
meta v s = found v (lookup v s.metas)

abbrev written :
    Texts
    → ℕ
    → WeightPayload
    → WeightMeta
    → Option String
    → Disk
    → Result StoreError (String × ℕ) × Disk
written t v p m none disk = (err target_dir_required, disk)
written t v p m (some dir) disk = (ok (dir, v), insert (dir, v) (write_manifest t p m) disk)

abbrev with_meta :
    Texts
    → ℕ
    → WeightPayload
    → Result StoreError WeightMeta
    → Option String
    → Disk
    → Result StoreError (String × ℕ) × Disk
with_meta t v p (err e) target disk = (err e, disk)
with_meta t v p (ok m) target disk = written t v p m target disk

-- The directory is returned as its parent and the version that names it.
pub materialize :
    Texts → ℕ → Option String → MemoryStore → Disk → Result StoreError (String × ℕ) × Disk
unfolding load meta
materialize t v target s disk = elim (load v s) [
  | err e ↦ (err e, disk)
  | ok p ↦ with_meta t v p (meta v s) target disk
]
