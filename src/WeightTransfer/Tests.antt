-- ===== src/WeightTransfer/Tests.antt =====
-- The planner of nano_rl/runtime/weight_transfer.py for one replica on GPU 0 and one on GPU 1, of which
-- only GPU 1 has a trainer rank.
use nano_rl.Prelude.{ℕ, String, true, none, refl, [], ◌∷◌}
use nano_rl.Prelude.Dict.{Dict}
use nano_rl.Slot.Names.{GpuTopology}
use nano_rl.Slot.Types.{RolloutReplicaSpec, TrainerRankSpec}
use nano_rl.Protocols.{WeightMeta, WeightStatus, WeightFormat}
use nano_rl.WeightTransfer.{
  WeightTransferPlanner, WeightTransferMethod, locality_aware_source, build_plan,
}
use nano_rl.WeightTransfer.Routing.{in_dict, SourceOutcome, locality_aware_source-SourceOutcome}
use nano_rl.WeightTransfer.Planning.{PlanOutcome, build_plan-PlanOutcome}

abbrev replica : String → ℕ → RolloutReplicaSpec
replica id gpu = record {
  replica_id = id;
  dp_rank = gpu;
  topology = GpuTopology.shared;
  gpu_ids = gpu ∷ [];
  worker_ids = "w" ∷ [];
  controller_class = "controller";
  worker_class = "worker";
}

abbrev rank : TrainerRankSpec
rank = record { rank = 0; gpu_id = 1; trainer_class = "trainer"; ray_resource = "gpu" }

abbrev meta : WeightMeta
meta = record {
  version_id = 3;
  created_at = 0;
  model_path = "model";
  format = WeightFormat.hf;
  checksum = "sum";
  parent_version = none;
  trainer_step = none;
  tokenizer_path = none;
  artifact_uri = none;
  manifest_uri = none;
  tokenizer_hash = none;
  chat_template_hash = none;
  created_by = none;
  status = WeightStatus.registered;
}

abbrev planner : WeightTransferPlanner
planner = record {
  method = WeightTransferMethod.locality_aware_checkpoint;
  allow_rollout_only_artifact_pull = true;
}

abbrev ranks : Dict ℕ ℕ
ranks = (1, 0) ∷ []

locality_aware_source-SourceOutcome_example :
    SourceOutcome planner
      (replica "r1" 1)
      (in_dict ranks)
      "model"
      (locality_aware_source planner (replica "r1" 1) meta ranks "model")
locality_aware_source-SourceOutcome_example =
    locality_aware_source-SourceOutcome planner (replica "r1" 1) meta ranks "model"

build_plan-PlanOutcome_example :
    PlanOutcome planner meta
      (replica "r0" 0 ∷ replica "r1" 1 ∷ [])
      (rank ∷ [])
      (build_plan planner meta (replica "r0" 0 ∷ replica "r1" 1 ∷ []) (rank ∷ []))
build_plan-PlanOutcome_example =
    build_plan-PlanOutcome planner meta (replica "r0" 0 ∷ replica "r1" 1 ∷ []) (rank ∷ [])
      (refl, (refl, tt))
