-- ===== src/Controller/Tests.antt =====
-- A controller of nano_rl/runtime/controller.py with one shared GPU and two prompts.
use nano_rl.Prelude.{false, none, some, [], ◌∷◌}
use nano_rl.Slot.Names.{GpuTopology, GpuLeasePhase, rollout, trainer}
use nano_rl.Slot.Types.{ResolvedGpuPlan}
use nano_rl.Slot.Lease as Lease
use nano_rl.Protocols.{WeightMeta, active_global}
use nano_rl.SampleQueue as Queue
use nano_rl.WeightRegistry.{with_status}
use nano_rl.WeightTransfer.{WeightTransferMethod}
use nano_rl.Roles.Ranks.{bootstrap_weight_meta}
use nano_rl.Offload as Offload
use nano_rl.Controller.{World, Controller, LaunchConfig}
use nano_rl.Controller.Pumping.{pump_rollout_until_blocked}
use nano_rl.Controller.Finishing.{Finished, pump_until_blocked-Finished}

abbrev world : World
world = record {
  roles = record {
    sha256 = λ text. 1 ∷ 2 ∷ 3 ∷ 4 ∷ 5 ∷ 6 ∷ 7 ∷ 8 ∷ 9 ∷ 10 ∷ 11 ∷ 12 ∷ 13 ∷ 14 ∷ 15 ∷ 16 ∷ [];
    words = λ text. 3;
    decimal = λ n. "0";
  };
  clock = λ t. t;
  hexes = λ t n. "h";
  hexdigest = λ text. "digest";
}

abbrev plan : ResolvedGpuPlan
plan = record {
  physical_gpu_ids = 0 ∷ [];
  rollout_only_gpu_ids = [];
  shared_gpu_ids = 0 ∷ [];
  idle_gpu_ids = [];
  rollout_replicas =
      record {
        replica_id = "r0";
        dp_rank = 0;
        topology = GpuTopology.shared;
        gpu_ids = 0 ∷ [];
        worker_ids = "w0" ∷ [];
        controller_class = "controller";
        worker_class = "worker";
      }
      ∷ [];
  rollout_workers =
      record {
        worker_id = "w0";
        replica_id = "r0";
        dp_rank = 0;
        tp_rank = 0;
        gpu_id = 0;
        topology = GpuTopology.shared;
        worker_class = "worker";
        ray_resource = "rollout_gpu_0";
      }
      ∷ [];
  trainer_ranks =
      record { rank = 0; gpu_id = 0; trainer_class = "rank"; ray_resource = "train_gpu_0" } ∷ [];
}

abbrev config : LaunchConfig
config = record {
  gpu_plan = plan;
  max_policy_lag = 0;
  sample_ttl_sec = 60;
  queue_high_watermark = 8;
  max_pending_rollout_refs = 2;
  transfer_method = WeightTransferMethod.object_ref;
  allow_rollout_only_artifact_pull = false;
  cuda_quiesce_timeout_sec = 10;
  residual_gpu_memory_budget_mb = 100;
  model_path = "mock://model";
  tokenizer_path = none;
}

abbrev bootstrap : WeightMeta
bootstrap = bootstrap_weight_meta "mock://model" none "digest" 0

abbrev leases : Lease.Manager
leases = record {
  plan = plan;
  states =
      (
        0,
        record {
          gpu_id = 0;
          topology = GpuTopology.shared;
          phase = GpuLeasePhase.rollout_active;
          active_role = some rollout;
          holder_id = some "w0";
          lease_epoch = 0;
          failed_reason = none;
        },
      )
      ∷ [];
  supported_roles = (0, rollout ∷ trainer ∷ []) ∷ [];
}

-- The controller after the activation of version 0, with two prompts in the backlog.
abbrev controller : Controller
controller = record {
  launch_config = config;
  events = [];
  sample_queue = Queue.create 0 60 8;
  weight_registry = record {
    versions = (0, with_status active_global bootstrap) ∷ [];
    activation = none;
    latest_registered = some 0;
    latest_active_global = some 0;
  };
  weight_transfer = record {
    method = WeightTransferMethod.object_ref;
    allow_rollout_only_artifact_pull = false;
  };
  last_weight_transfer_plan = none;
  gpu_residency = Offload.create leases none none 10 10 100;
  rollout_manager = record {
    replica_ids = "r0" ∷ [];
    ahead = "r0" ∷ [];
    max_in_flight_per_replica = 2;
    input_backlog =
        record { prompt = "one"; metadata = [] } ∷ record { prompt = "two"; metadata = [] } ∷ [];
    paused_reason = none;
    in_flight = [];
  };
  trainer_coordinator = record {
    group_epoch = 0;
    rank_assignments =
        record { rank = 0; gpu_id = 0; trainer_class = "rank"; ray_resource = "train_gpu_0" } ∷ [];
  };
  rollout_roles =
      (
        "r0",
        record {
          replica_id = "r0";
          gpu_ids = 0 ∷ [];
          worker_ids = "w0" ∷ [];
          active_policy_version = some 0;
          active_weight_checksum = some "digest";
          active_lease_epochs = some ((0, 0) ∷ []);
          active_weight_source = none;
        },
      )
      ∷ [];
  trainer_ranks = (0, record { rank = 0; gpu_id = some 0; group_epoch = 0; train_step = 0 }) ∷ [];
  ticks = 0;
}

pump_until_blocked-Finished_example :
    Finished (some 1) 2 (pump_rollout_until_blocked world (some bootstrap) 0 (some 1) controller)
pump_until_blocked-Finished_example =
    pump_until_blocked-Finished world bootstrap 0 (some 1) controller
