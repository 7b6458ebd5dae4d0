-- ===== src/Backends/Rollout/Tests.antt =====
-- Witness of the mock rollout backend: two GPUs with the rollout role, and weights of version 1.
use nano_rl.Prelude.{true, false, none, some, List, [], ◌∷◌}
use nano_rl.Prelude.Exec.{err}
use nano_rl.Slot.Names.{rollout}
use nano_rl.Slot.Types.{GpuLease}
use nano_rl.Protocols.{WeightMeta}
use nano_rl.Roles.Ranks.{bootstrap_weight_meta}
use nano_rl.Backends.Rollout.{RolloutConfig, RolloutBackend}
use nano_rl.Backends.Rollout.Sampling.{Draws, below_60}
use nano_rl.Backends.Rollout.Generating.{Texts, no_such_field}

abbrev config : RolloutConfig
config = record {
  tensor_parallel_size = 2;
  sampling_max_tokens = none;
  gpu_ids = 1 ∷ 2 ∷ [];
  holder_id = some "replica-0";
  holder_ids = [];
  response_template = none;
  max_response_tokens = 16;
  min_response_tokens = 2;
  mean_response_tokens = 8;
  response_length_distribution = "uniform";
  max_sequence_tokens = 64;
  finish_reason = "stop";
  include_policy_segments = true;
  response_prefix = "mock";
}

abbrev weight : WeightMeta
weight = bootstrap_weight_meta "mock://model" none "digest" 0

abbrev backend : RolloutBackend
backend = record {
  config = config;
  active_weight = some weight;
  active_weight_source = none;
  activation_count = 1;
  offloaded = false;
}

abbrev draws : Draws
draws = record {
  sha256 = λ bytes. 7 ∷ 11 ∷ 13 ∷ [];
  share = λ bytes. below_60;
  randint = λ bytes low high. low;
  lognormal = λ bytes mean. mean;
}

abbrev texts : Texts
texts = record {
  words = λ s. 3;
  payload = λ c w prompt n id. 1 ∷ 2 ∷ [];
  hexdigest = λ bytes. "070b0d";
  first = λ n s. s;
  decimal = λ n. "0";
  format = λ template prompt n count w id digest. err no_such_field;
}

abbrev leases : List GpuLease
leases =
    record { gpu_id = 1; role = rollout; holder_id = "replica-0"; lease_epoch = 4 }
    ∷ record { gpu_id = 2; role = rollout; holder_id = "replica-0"; lease_epoch = 4 }
    ∷ []
