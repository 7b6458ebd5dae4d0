-- ===== src/Backends/Trainer/Building.antt =====
-- `_build_optional_weight_store` of nano_rl/runtime/backends/trainer_backend.py.
use nano_rl.Prelude.{String, Option, none, some}
use nano_rl.Prelude.Exec.{Result, ok, err}
use nano_rl.WeightStore.Values.{Value, Entries, null, mapping, end, field}
use nano_rl.WeightStore.Manifests.{StoreError}
use nano_rl.WeightStore.Building.{StoreKind, options, build_weight_store}
use nano_rl.Backends.Trainer.{BackendError, store_refused, not_a_mapping}

-- The first store that the configuration names, or none: `_build_optional_weight_store`.
abbrev built : Result StoreError StoreKind → Result BackendError (Option StoreKind)
built (ok kind) = ok (some kind)
built (err e) = err (store_refused e)

abbrev store_at :
    (Value → String)
    → String
    → Option Value
    → Result BackendError (Option StoreKind)
    → Result BackendError (Option StoreKind)
store_at str key none later = later
store_at str key (some null) later = later
store_at str key (some (mapping es)) later = built (build_weight_store str (options es) end)
store_at str key (some _) later = err (not_a_mapping key)

pub build_optional_weight_store :
    (Value → String) → Entries → Result BackendError (Option StoreKind)
build_optional_weight_store str extra = store_at str "weight_store" (field "weight_store" extra) (
    store_at str "store" (field "store" extra)
      (store_at str "weight_transfer_store" (field "weight_transfer_store" extra) (ok none)))
