-- ===== src/WeightStore/Building.antt =====
-- `build_weight_store` and `build_mock_weight_payload` of nano_rl/runtime/weight_store.py.
use nano_rl.Prelude.{ℕ, zero, String, Bool, true, false, Option, none, some, if◌then◌else◌}
use nano_rl.Prelude.Equality.{◌==◌, string_eq}
use nano_rl.Prelude.Exec.{Result, ok, err}
use nano_rl.Protocols.{WeightFormat}
use nano_rl.WeightStore.Values.{
  Value, Entries, null, flag, number, text, array, tuple, mapping, nil, cons, end, entry, field,
}
use nano_rl.WeightStore.Manifests.{
  StoreError, WeightPayload, root_dir_required, unsupported_backend,
}

-- The argument `config`.
pub data StoreConfig : Type 0 where
  named : String → StoreConfig
  not_given : StoreConfig
  options : Entries → StoreConfig

-- Which store is built, and below which directory.
pub data StoreKind : Type 0 where
  memory_store : StoreKind
  filesystem_store : Value → StoreKind

-- The truth value that `or` reads.
abbrev pub truthy : Value → Bool
truthy null = false
truthy (flag b) = b
truthy (number zero) = false
truthy (text s) = if s == "" then false else true
truthy (array nil) = false
truthy (tuple nil) = false
truthy (mapping end) = false
truthy _ = true

abbrev pub or_value : Option Value → Option Value → Option Value
or_value none d = d
or_value (some v) d = if truthy v then some v else d

-- `values.get(key)`, for the two dicts that `values` joins
abbrev setting : Entries → Entries → String → Option Value
setting given kwargs key = elim (field key kwargs) [ none ↦ field key given | some v ↦ some v ]

-- `value is None` of what the chain of `or` leaves
abbrev root_of : Option Value → Result StoreError StoreKind
root_of none = err root_dir_required
root_of (some null) = err root_dir_required
root_of (some v) = ok (filesystem_store v)

abbrev store_for : String → Entries → Entries → Result StoreError StoreKind
store_for backend given kwargs =
    if (if backend == "mock_memory"
      then true
      else if backend == "memory"
      then true
      else backend == "in_memory")
    then ok memory_store
    else if (if backend == "mock_filesystem"
        then true
        else if backend == "filesystem"
        then true
        else backend == "fs")
    then root_of (
        or_value (setting given kwargs "root_dir") (
          or_value (setting given kwargs "manifest_dir")
            (or_value (setting given kwargs "path") (setting given kwargs "checkpoint_dir"))))
    else err (unsupported_backend backend)

abbrev text_or_default : (Value → String) → Option Value → Option Value → String
text_or_default str none none = "mock_memory"
text_or_default str none (some v) = str v
text_or_default str (some v) _ = str v

-- With Python's `str` of a value.
pub build_weight_store : (Value → String) → StoreConfig → Entries → Result StoreError StoreKind
build_weight_store str (named backend) kwargs = store_for backend end kwargs
build_weight_store str not_given kwargs =
    store_for (text_or_default str (field "backend" kwargs) none) end kwargs
build_weight_store str (options given) kwargs =
    store_for (text_or_default str (setting given kwargs "backend") (setting given kwargs "type"))
      given kwargs

-- `n or 0`
abbrev or_zero : Option ℕ → ℕ
or_zero none = 0
or_zero (some n) = n

abbrev triple : ℕ → ℕ → ℕ → Value
triple a b c = array (cons (number a) (cons (number b) (cons (number c) nil)))

abbrev mock_weights : ℕ → Option ℕ → Option ℕ → Option Entries → Entries
mock_weights version_id parent_version trainer_step (some weights) = weights
mock_weights version_id parent_version trainer_step none =
    entry "lm_head.weight" (triple version_id (or_zero trainer_step) 1) (
      entry "transformer.block.0.attn.qkv.weight" (triple (or_zero parent_version) version_id 3)
        end)

abbrev mock_metadata : ℕ → Option Entries → Entries
mock_metadata version_id (some metadata) = metadata
mock_metadata version_id none =
    entry "source" (text "mock") (entry "version_id" (number version_id) end)

unfoldable pub build_mock_weight_payload :
    ℕ
    → Option ℕ
    → Option ℕ
    → String
    → WeightFormat
    → Option Entries
    → Option Entries
    → Option String
    → Option String
    → Option String
    → Option String
    → String
    → WeightPayload
build_mock_weight_payload version_id parent_version trainer_step model_path format weights metadata
      tokenizer_path artifact_uri tokenizer_hash chat_template_hash created_by =
    record {
      version_id = version_id;
      model_path = model_path;
      format = format;
      weights = mock_weights version_id parent_version trainer_step weights;
      metadata = mock_metadata version_id metadata;
      parent_version = parent_version;
      trainer_step = trainer_step;
      tokenizer_path = tokenizer_path;
      artifact_uri = artifact_uri;
      tokenizer_hash = tokenizer_hash;
      chat_template_hash = chat_template_hash;
      created_by = created_by;
      created_at = 0;
    }
