-- ===== src/WeightStore/Manifests.antt =====
-- Payloads and manifests of nano_rl/runtime/weight_store.py.
pub mod RoundTrip
use nano_rl.Prelude.{ℕ, String, ◌≡◌, Option, none, some, List, [], ◌∷◌, map, if◌then◌else◌}
use nano_rl.Prelude.Equality.{◌==◌, nat_eq, string_eq}
use nano_rl.Prelude.Exec.{Result, ok, err}
use nano_rl.Prelude.Dict.{Dict, lookup}
use Prim.Native.String.{◌++◌ as str_append}
use nano_rl.WeightTransfer.{sorted}
use nano_rl.Protocols.{WeightMeta, WeightStatus, WeightFormat}
use nano_rl.WeightStore.Values.{
  Value, Entries, null, number, text, mapping, end, entry, field, jsonable_entries,
}

-- `KeyError` and `ValueError`, with one constructor for each message.
pub data StoreError : Type 0 where
  unknown_weight_version : ℕ → StoreError
  missing_key : String → StoreError
  bad_value : String → StoreError
  target_dir_required root_dir_required : StoreError
  unsupported_backend : String → StoreError
  -- the `FileNotFoundError` of `copytree`
  file_not_found : StoreError

-- What the standard library does with texts: `datetime.isoformat`, `datetime.fromisoformat`,
-- `sha256` of the JSON text of a value, the text of a number and the joining of paths.
pub record Texts : Type 0 where
  pub isoformat : ℕ → String
  pub fromisoformat : String → Option ℕ
  pub digest : Value → String
  pub decimal : ℕ → String
  -- `str(Path(a) / b)`
  pub join : String → String → String

-- `fromisoformat` inverts `isoformat`.
pub record ReadsBack (t : Texts) : Type 0 where
  pub iso : (n : ℕ) → t.fromisoformat (t.isoformat n) ≡ some n

pub record WeightPayload : Type 0 where
  pub version_id : ℕ
  pub model_path : String
  pub format : WeightFormat
  pub weights : Entries
  pub metadata : Entries
  pub parent_version : Option ℕ
  pub trainer_step : Option ℕ
  pub tokenizer_path : Option String
  pub artifact_uri : Option String
  pub tokenizer_hash : Option String
  pub chat_template_hash : Option String
  pub created_by : String
  pub created_at : ℕ

abbrev pub format_value : WeightFormat → String
format_value WeightFormat.hf = "hf"
format_value WeightFormat.safetensors = "safetensors"
format_value WeightFormat.vllm_compatible = "vllm_compatible"

abbrev pub status_value : WeightStatus → String
status_value WeightStatus.registered = "registered"
status_value WeightStatus.activating = "activating"
status_value WeightStatus.active_global = "active_global"
status_value WeightStatus.failed = "failed"
status_value WeightStatus.deprecated = "deprecated"

abbrev opt_number : Option ℕ → Value
opt_number none = null
opt_number (some n) = number n

abbrev opt_text : Option String → Value
opt_text none = null
opt_text (some s) = text s

-- The entries that the checksum and the manifest share, before what follows them.
abbrev common_entries : Texts → WeightPayload → Entries → Entries
common_entries t p rest = entry "version_id" (number p.version_id) (
    entry "model_path" (text p.model_path) (
      entry "format" (text (format_value p.format)) (
        entry "weights" (mapping (jsonable_entries t.isoformat p.weights)) (
          entry "metadata" (mapping (jsonable_entries t.isoformat p.metadata)) (
            entry "parent_version" (opt_number p.parent_version) (
              entry "trainer_step" (opt_number p.trainer_step) (
                entry "tokenizer_path" (opt_text p.tokenizer_path) (
                  entry "artifact_uri" (opt_text p.artifact_uri) (
                    entry "tokenizer_hash" (opt_text p.tokenizer_hash) (
                      entry "chat_template_hash" (opt_text p.chat_template_hash)
                        (entry "created_by" (text p.created_by) rest)))))))))))

pub to_checksum_dict : Texts → WeightPayload → Entries
to_checksum_dict t p = common_entries t p end

pub to_manifest_payload : Texts → WeightPayload → Entries
to_manifest_payload t p =
    common_entries t p (entry "created_at" (text (t.isoformat p.created_at)) end)

-- `_checksum(self.to_checksum_dict())`
pub checksum : Texts → WeightPayload → String
unfolding to_checksum_dict jsonable_entries
checksum t p = t.digest (mapping (jsonable_entries t.isoformat (to_checksum_dict t p)))

-- The readings of a value. A value of another type than the program writes is refused here.
abbrev as_number : String → Option Value → Result StoreError ℕ
as_number key none = err (missing_key key)
as_number key (some (number n)) = ok n
as_number key (some _) = err (bad_value key)

abbrev as_text : String → Option Value → Result StoreError String
as_text key none = err (missing_key key)
as_text key (some (text s)) = ok s
as_text key (some _) = err (bad_value key)

abbrev as_text_or : String → String → Option Value → Result StoreError String
as_text_or d key none = ok d
as_text_or d key (some (text s)) = ok s
as_text_or d key (some _) = err (bad_value key)

-- `dict(data.get(key) or {})`
abbrev as_entries : String → Option Value → Result StoreError Entries
as_entries key none = ok end
as_entries key (some null) = ok end
as_entries key (some (mapping es)) = ok es
as_entries key (some _) = err (bad_value key)

abbrev as_opt_number : String → Option Value → Result StoreError (Option ℕ)
as_opt_number key none = ok none
as_opt_number key (some null) = ok none
as_opt_number key (some (number n)) = ok (some n)
as_opt_number key (some _) = err (bad_value key)

abbrev as_opt_text : String → Option Value → Result StoreError (Option String)
as_opt_text key none = ok none
as_opt_text key (some null) = ok none
as_opt_text key (some (text s)) = ok (some s)
as_opt_text key (some _) = err (bad_value key)

abbrev format_named : String → Result StoreError WeightFormat
format_named s =
    if s == "hf"
    then ok WeightFormat.hf
    else if s == "safetensors"
    then ok WeightFormat.safetensors
    else if s == "vllm_compatible"
    then ok WeightFormat.vllm_compatible
    else err (bad_value "format")

abbrev status_named : String → Result StoreError WeightStatus
status_named s =
    if s == "registered"
    then ok WeightStatus.registered
    else if s == "activating"
    then ok WeightStatus.activating
    else if s == "active_global"
    then ok WeightStatus.active_global
    else if s == "failed"
    then ok WeightStatus.failed
    else if s == "deprecated"
    then ok WeightStatus.deprecated
    else err (bad_value "status")

abbrev instant_of : Option ℕ → Result StoreError ℕ
instant_of none = err (bad_value "created_at")
instant_of (some n) = ok n

-- `created_at` of a payload: the epoch when it is not a text.
abbrev created_or_epoch : Texts → Option Value → Result StoreError ℕ
created_or_epoch t (some (text s)) = instant_of (t.fromisoformat s)
created_or_epoch t _ = ok 0

infixl 5 ◌|>◌
-- The next reading, when the first went through.
abbrev pub ◌|>◌ :
    {A B : Type 0} → Result StoreError A → (A → Result StoreError B) → Result StoreError B
◌|>◌ (ok a) f = f a
◌|>◌ (err e) f = err e

pub from_manifest_payload : Texts → Entries → Result StoreError WeightPayload
from_manifest_payload t d = created_or_epoch t (field "created_at" d) |> λ created_at.
    as_number "version_id" (field "version_id" d) |> λ version_id.
    as_text_or "mock://model" "model_path" (field "model_path" d) |> λ model_path.
    as_text_or "vllm_compatible" "format" (field "format" d) |> λ format_text.
    format_named format_text |> λ format. as_entries "weights" (field "weights" d) |> λ weights.
    as_entries "metadata" (field "metadata" d) |> λ metadata.
    as_opt_number "parent_version" (field "parent_version" d) |> λ parent_version.
    as_opt_number "trainer_step" (field "trainer_step" d) |> λ trainer_step.
    as_opt_text "tokenizer_path" (field "tokenizer_path" d) |> λ tokenizer_path.
    as_opt_text "artifact_uri" (field "artifact_uri" d) |> λ artifact_uri.
    as_opt_text "tokenizer_hash" (field "tokenizer_hash" d) |> λ tokenizer_hash.
    as_opt_text "chat_template_hash" (field "chat_template_hash" d) |> λ chat_template_hash.
    as_text_or "mock_weight_store" "created_by" (field "created_by" d) |> λ created_by. ok (record {
      version_id = version_id;
      model_path = model_path;
      format = format;
      weights = weights;
      metadata = metadata;
      parent_version = parent_version;
      trainer_step = trainer_step;
      tokenizer_path = tokenizer_path;
      artifact_uri = artifact_uri;
      tokenizer_hash = tokenizer_hash;
      chat_template_hash = chat_template_hash;
      created_by = created_by;
      created_at = created_at;
    })

-- `artifact_uri or payload.artifact_uri`
abbrev or_given : Option String → Option String → Option String
or_given none d = d
or_given (some s) d = if s == "" then d else some s

unfoldable pub build_meta : Texts → WeightPayload → Option String → Option String → WeightMeta
unfolding checksum
build_meta t p artifact_uri manifest_uri = record {
  version_id = p.version_id;
  created_at = p.created_at;
  model_path = p.model_path;
  format = p.format;
  checksum = checksum t p;
  parent_version = p.parent_version;
  trainer_step = p.trainer_step;
  tokenizer_path = p.tokenizer_path;
  artifact_uri = or_given artifact_uri p.artifact_uri;
  manifest_uri = manifest_uri;
  tokenizer_hash = p.tokenizer_hash;
  chat_template_hash = p.chat_template_hash;
  created_by = some p.created_by;
  status = WeightStatus.registered;
}

-- `_dump_weight_meta`: the fields as pydantic's JSON mode writes them.
pub dump_weight_meta : Texts → WeightMeta → Entries
dump_weight_meta t m = entry "version_id" (number m.version_id) (
    entry "created_at" (text (t.isoformat m.created_at)) (
      entry "model_path" (text m.model_path) (
        entry "format" (text (format_value m.format)) (
          entry "checksum" (text m.checksum) (
            entry "parent_version" (opt_number m.parent_version) (
              entry "trainer_step" (opt_number m.trainer_step) (
                entry "tokenizer_path" (opt_text m.tokenizer_path) (
                  entry "artifact_uri" (opt_text m.artifact_uri) (
                    entry "manifest_uri" (opt_text m.manifest_uri) (
                      entry "tokenizer_hash" (opt_text m.tokenizer_hash) (
                        entry "chat_template_hash" (opt_text m.chat_template_hash) (
                          entry "created_by" (opt_text m.created_by)
                            (entry "status" (text (status_value m.status)) end)))))))))))))

-- The metadata that `_read_manifest` makes of `manifest["meta"]`.
pub read_meta : Texts → Entries → Result StoreError WeightMeta
read_meta t d = as_number "version_id" (field "version_id" d) |> λ version_id.
    as_text "created_at" (field "created_at" d) |> λ created_text.
    instant_of (t.fromisoformat created_text) |> λ created_at.
    as_text "model_path" (field "model_path" d) |> λ model_path.
    as_text "format" (field "format" d) |> λ format_text. format_named format_text |> λ format.
    as_text "checksum" (field "checksum" d) |> λ checksum_text.
    as_opt_number "parent_version" (field "parent_version" d) |> λ parent_version.
    as_opt_number "trainer_step" (field "trainer_step" d) |> λ trainer_step.
    as_opt_text "tokenizer_path" (field "tokenizer_path" d) |> λ tokenizer_path.
    as_opt_text "artifact_uri" (field "artifact_uri" d) |> λ artifact_uri.
    as_opt_text "manifest_uri" (field "manifest_uri" d) |> λ manifest_uri.
    as_opt_text "tokenizer_hash" (field "tokenizer_hash" d) |> λ tokenizer_hash.
    as_opt_text "chat_template_hash" (field "chat_template_hash" d) |> λ chat_template_hash.
    as_opt_text "created_by" (field "created_by" d) |> λ created_by.
    as_text_or "registered" "status" (field "status" d) |> λ status_text.
    status_named status_text |> λ status. ok (record {
      version_id = version_id;
      created_at = created_at;
      model_path = model_path;
      format = format;
      checksum = checksum_text;
      parent_version = parent_version;
      trainer_step = trainer_step;
      tokenizer_path = tokenizer_path;
      artifact_uri = artifact_uri;
      manifest_uri = manifest_uri;
      tokenizer_hash = tokenizer_hash;
      chat_template_hash = chat_template_hash;
      created_by = created_by;
      status = status;
    })

-- `_write_manifest`: what the file holds.
pub write_manifest : Texts → WeightPayload → WeightMeta → Entries
unfolding to_manifest_payload dump_weight_meta
write_manifest t p m = entry "schema_version" (number 1) (
    entry "payload" (mapping (to_manifest_payload t p))
      (entry "meta" (mapping (dump_weight_meta t m)) end))

-- `manifest[key]`
abbrev section : String → Entries → Result StoreError Entries
section key manifest = elim (field key manifest) [
  | none ↦ err (missing_key key)
  | some (mapping es) ↦ ok es
  | some _ ↦ err (bad_value key)
]

pub read_manifest : Texts → Entries → Result StoreError (WeightPayload × WeightMeta)
unfolding from_manifest_payload read_meta
read_manifest t manifest = section "payload" manifest |> λ payload_data.
    from_manifest_payload t payload_data |> λ payload.
    section "meta" manifest |> λ meta_data. read_meta t meta_data |> λ meta. ok (payload, meta)

abbrev pub version_dir_name : Texts → ℕ → String
version_dir_name t version_id = str_append "version-" (t.decimal version_id)

abbrev key_of : ℕ × WeightMeta → ℕ
key_of (version_id, meta) = version_id

metas_at : List ℕ → Dict ℕ WeightMeta → List WeightMeta
metas_at [] d = []
metas_at (v ∷ vs) d = elim (lookup v d) [ none ↦ metas_at vs d | some m ↦ m ∷ metas_at vs d ]

-- `list_versions`, on the dict of either store.
pub list_versions : Dict ℕ WeightMeta → List WeightMeta
unfolding metas_at
list_versions d = metas_at (sorted (map key_of d)) d

-- The files below all directories: the manifest of a version in a directory.
abbrev pub Disk : Type 0
Disk = Dict (String × ℕ) Entries
