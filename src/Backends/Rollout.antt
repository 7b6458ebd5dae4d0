-- ===== src/Backends/Rollout.antt =====
-- `MockRolloutBackend` of nano_rl/runtime/backends/mock_rollout_backend.py. Latencies and
-- log-probabilities are floats, and left out.
pub mod Leases
pub mod Sampling
pub mod Generating
pub mod Bounds
mod Tests
use nano_rl.Prelude.{
  ℕ, ◌+◌, String, Bool, true, false, not, Option, none, some, List, [], ◌∷◌, ◌&&◌, ◌||◌, length,
  ltb, leb, if◌then◌else◌,
}
use nano_rl.Prelude.Equality.{◌==◌, nat_eq, string_eq, contains, add}
use nano_rl.Prelude.Exec.{Result, ok, err, Exec, pure, modify, ◌>>=◌, ◌>>◌}
use nano_rl.Prelude.Dict.{Dict, insert}
use nano_rl.Slot.Names.{RoleName}
use nano_rl.Slot.Types.{GpuLease}
use nano_rl.Protocols.{WeightMeta}
use nano_rl.WeightTransfer.{WeightShardSource}

-- `SlotStateError`, `MockRolloutBackendError` and the `ValueError`s of the configuration.
pub data RolloutError : Type 0 where
  no_leases duplicate_leases : RolloutError
  other_gpus : List ℕ → RolloutError
  lease_role : RoleName → RolloutError
  wrong_holder : ℕ → String → RolloutError
  other_holders : List String → RolloutError
  not_active is_offloaded : RolloutError
  other_version : ℕ → ℕ → RolloutError
  max_tokens_not_integer max_tokens_below_one : RolloutError
  invalid_template : RolloutError
  -- another exception of `str.format`, which nothing catches
  format_raised : String → RolloutError
  gpu_ids_not_unique sizes_differ holders_differ unknown_distribution : RolloutError
  minimum_above_maximum mean_above_maximum maximum_too_large : RolloutError

-- `sampling_params["max_tokens"]`: an integer, or a value that is none.
pub data RawCount : Type 0 where
  integer : ℕ → RawCount
  no_integer : RawCount

-- The fields of `MockRolloutBackendConfig` that are not floats.
pub record RolloutConfig : Type 0 where
  pub tensor_parallel_size : ℕ
  pub sampling_max_tokens : Option RawCount
  pub gpu_ids : List ℕ
  pub holder_id : Option String
  pub holder_ids : List String
  pub response_template : Option String
  pub max_response_tokens : ℕ
  pub min_response_tokens : ℕ
  pub mean_response_tokens : ℕ
  pub response_length_distribution : String
  pub max_sequence_tokens : ℕ
  pub finish_reason : String
  pub include_policy_segments : Bool
  pub response_prefix : String

-- `set(xs)`
pub set_of {ℓ} : {A : Type ℓ} ⦃e : nano_rl.Prelude.Equality.HasEq A⦄ → List A → List A → List A
set_of [] s = s
set_of (x ∷ xs) s = set_of xs (add x s)

abbrev pub is_empty {ℓ} : {A : Type ℓ} → List A → Bool
is_empty [] = true
is_empty (x ∷ xs) = false

abbrev known_distribution : String → Bool
known_distribution s =
    if s == "fixed"
    then true
    else if s == "uniform"
    then true
    else if s == "lognormal"
    then true
    else s == "chat_mixture"

-- The conditions on the fields, then `_validate_gpu_binding`.
pub validate : RolloutConfig → Result RolloutError RolloutConfig
unfolding set_of
validate c =
    if not (length (set_of c.gpu_ids []) == length c.gpu_ids)
    then err gpu_ids_not_unique
    else if not (is_empty c.gpu_ids) && not (length c.gpu_ids == c.tensor_parallel_size)
    then err sizes_differ
    else if not (is_empty c.gpu_ids)
        && (not (is_empty c.holder_ids) && not (length c.holder_ids == length c.gpu_ids))
    then err holders_differ
    else if not (known_distribution c.response_length_distribution)
    then err unknown_distribution
    else if ltb c.max_response_tokens c.min_response_tokens
    then err minimum_above_maximum
    else if ltb c.max_response_tokens c.mean_response_tokens
    then err mean_above_maximum
    else if leb c.max_sequence_tokens c.max_response_tokens
    then err maximum_too_large
    else ok c

pub record RolloutBackend : Type 0 where
  pub config : RolloutConfig
  pub active_weight : Option WeightMeta
  pub active_weight_source : Option WeightShardSource
  pub activation_count : ℕ
  pub offloaded : Bool

-- `__init__`
abbrev pub create : RolloutConfig → RolloutBackend
create config = record {
  config = config;
  active_weight = none;
  active_weight_source = none;
  activation_count = 0;
  offloaded = false;
}

abbrev pub Action : Type 0 → Type 0
Action A = Exec RolloutBackend RolloutError A
