-- ===== src/Protocols.antt =====
-- The records of nano_rl/runtime/protocols.py that the queue and the trainers exchange.
-- Instants are microseconds, the resolution of Python's `datetime`. Text, log-probabilities, rewards
-- and advantages are carried by the source and read by no modelled code, so they have no field here.
use nano_rl.Prelude.{ℕ, ◌*◌, String, min, Option, List, [], ◌∷◌}
use nano_rl.Prelude.Dict.{Dict}

-- `timedelta(seconds=n)`
abbrev pub seconds : ℕ → ℕ
seconds n = n * 1_000_000

pub record PolicySegment : Type 0 where
  pub start_token : ℕ
  pub end_token : ℕ
  pub policy_version : ℕ

pub record SampleRecord : Type 0 where
  pub sample_id : String
  pub policy_version : ℕ
  pub tokens : List ℕ
  pub created_at : ℕ
  pub expires_at : Option ℕ
  pub response_tokens : Option ℕ
  pub policy_segments : Option (List PolicySegment)

-- `min` of the versions of a non-empty list
abbrev oldest : PolicySegment → List PolicySegment → ℕ
oldest s [] = s.policy_version
oldest s (t ∷ ts) = min s.policy_version (oldest t ts)

abbrev oldest_of : ℕ → Option (List PolicySegment) → ℕ
oldest_of version Option.none = version
oldest_of version (Option.some []) = version
oldest_of version (Option.some (s ∷ ss)) = oldest s ss

unfoldable pub oldest_behavior_policy_version : SampleRecord → ℕ
oldest_behavior_policy_version r = oldest_of r.policy_version r.policy_segments

-- `object_ref` is passed on and never read: a number stands for it.
pub record SampleRef : Type 0 where
  pub sample_id : String
  pub policy_version : ℕ
  pub created_at : ℕ
  pub expires_at : Option ℕ
  pub object_ref : Option ℕ
  pub num_tokens : ℕ

pub record TrainBatch : Type 0 where
  pub train_batch_id : String
  pub sample_refs : List SampleRef
  pub sample_ids : List String
  pub policy_version_min : ℕ
  pub policy_version_max : ℕ
  pub policy_version_histogram : Dict ℕ ℕ
  pub num_sequences : ℕ
  pub num_tokens : ℕ
  pub reserved_by : String
  pub reserved_at : ℕ
  pub expires_at : Option ℕ

pub data WeightStatus : Type 0 where
  registered activating active_global failed deprecated : WeightStatus

pub data WeightFormat : Type 0 where
  hf safetensors vllm_compatible : WeightFormat

pub record WeightMeta : Type 0 where
  pub version_id : ℕ
  pub created_at : ℕ
  pub model_path : String
  pub format : WeightFormat
  pub checksum : String
  pub parent_version : Option ℕ
  pub trainer_step : Option ℕ
  pub tokenizer_path : Option String
  pub artifact_uri : Option String
  pub manifest_uri : Option String
  pub tokenizer_hash : Option String
  pub chat_template_hash : Option String
  pub created_by : Option String
  pub status : WeightStatus
