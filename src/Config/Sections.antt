-- ===== src/Config/Sections.antt =====
-- The validators of single sections of nano_rl/config.py.
use nano_rl.Prelude.{
  ℕ, String, Bool, true, false, not, Option, none, some, List, [], ◌∷◌, ◌&&◌, ltb, leb,
  if◌then◌else◌,
}
use nano_rl.Prelude.Equality.{◌==◌, string_eq}
use nano_rl.Prelude.Exec.{Result, ok, err}
use nano_rl.Config.{
  SourceType, hdfs_uri, hdfs_fuse_path, local_csv, mock_inline, mock_generated, mock_jsonl,
  TrainerBackendName, fsdp2, mock, fake, ConfigError, Python, first_failing, data_path_required,
  prompts_empty, generated_required, fsdp2_required, sleep_level_required, mount_root_not_absolute,
  minimum_above_maximum, mean_above_maximum, maximum_too_large,
}

-- `_validate_mount_root`
pub validate_mount_root : Python → String → Result ConfigError (Unit {0})
unfolding first_failing
validate_mount_root py mount_root =
    first_failing ((not (py.startswith mount_root "/"), mount_root_not_absolute) ∷ [])

-- The fields of `ToggleOffloadConfig` that its validator reads.
pub record ToggleOffloadConfig : Type 0 where
  pub rollout_engine : String
  pub vllm_sleep_level : Option ℕ

abbrev is_none {ℓ} : {A : Type ℓ} → Option A → Bool
is_none none = true
is_none (some a) = false

pub validate_vllm_sleep : ToggleOffloadConfig → Result ConfigError (Unit {0})
unfolding first_failing
validate_vllm_sleep c =
    first_failing
      ((c.rollout_engine == "vllm_sleep" && is_none c.vllm_sleep_level, sleep_level_required) ∷ [])

pub record ModelConfig : Type 0 where
  pub model_path : String
  pub tokenizer_path : Option String

-- `_normalize_tokenizer_path`
pub normalize_tokenizer_path : ModelConfig → ModelConfig
normalize_tokenizer_path m =
    if is_none m.tokenizer_path then record m { tokenizer_path = some m.model_path } else m

pub record MockInlineDataConfig : Type 0 where
  pub prompts : List String
  pub repeat : ℕ

pub record MockGeneratedDataConfig : Type 0 where
  pub count : ℕ
  pub template : String
  pub start_index : ℕ

-- `MockJsonlDataConfig` and `LocalCsvDataConfig` have one field, which is their encoding.
pub record DataConfig : Type 0 where
  pub source_type : SourceType
  pub data_path : Option String
  pub local_csv : Option String
  pub mock_inline : Option MockInlineDataConfig
  pub mock_generated : Option MockGeneratedDataConfig
  pub mock_jsonl : Option String

-- `not self.data_path`
abbrev without_path : DataConfig → Bool
without_path c = elim c.data_path [ none ↦ true | some path ↦ path == "" ]

abbrev or_utf8 : Option String → Option String
or_utf8 none = some "utf-8"
or_utf8 (some encoding) = some encoding

abbrev with_prompts : DataConfig → Option MockInlineDataConfig → Result ConfigError DataConfig
with_prompts c none = err prompts_empty
with_prompts c (some inline) = elim inline.prompts [ [] ↦ err prompts_empty | p ∷ ps ↦ ok c ]

-- `_validate_source_fields`. A section without prompts is refused as the default one is.
pub validate_source_fields : DataConfig → Result ConfigError DataConfig
validate_source_fields c = elim c.source_type [
  | hdfs_uri ↦ if without_path c then err data_path_required else ok c
  | hdfs_fuse_path ↦ if without_path c then err data_path_required else ok c
  | local_csv ↦
      if without_path c
      then err data_path_required
      else ok (record c { local_csv = or_utf8 c.local_csv })
  | mock_inline ↦ with_prompts c c.mock_inline
  | mock_generated ↦ if is_none c.mock_generated then err generated_required else ok c
  | mock_jsonl ↦
      if without_path c
      then err data_path_required
      else ok (record c { mock_jsonl = or_utf8 c.mock_jsonl })
]

-- `_validate_backend_section`, on the backend and whether its section is there.
pub validate_backend_section : TrainerBackendName → Bool → Result ConfigError TrainerBackendName
validate_backend_section fsdp2 false = err fsdp2_required
validate_backend_section fsdp2 true = ok fsdp2
validate_backend_section mock given = ok mock
validate_backend_section fake given = ok mock

-- `_validate_lengths` of `MockDataProfileConfig`, on the smallest, mean and largest count of tokens.
pub validate_lengths : ℕ → ℕ → ℕ → Result ConfigError (Unit {0})
unfolding first_failing
validate_lengths minimum mean maximum =
    first_failing
      ((ltb maximum minimum, minimum_above_maximum) ∷ (ltb maximum mean, mean_above_maximum) ∷ [])

-- `_validate_mock_rollout_distribution`; the last number is `max_sequence_tokens`.
pub validate_mock_rollout_distribution : ℕ → ℕ → ℕ → ℕ → Result ConfigError (Unit {0})
unfolding first_failing
validate_mock_rollout_distribution minimum mean maximum sequence = first_failing (
    (ltb maximum minimum, minimum_above_maximum)
    ∷ (ltb maximum mean, mean_above_maximum)
    ∷ (leb sequence maximum, maximum_too_large)
    ∷ [])
