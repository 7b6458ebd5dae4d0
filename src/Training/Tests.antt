-- ===== src/Training/Tests.antt =====
-- Witnesses for nano_rl/runtime/ray/training.py: one shared GPU, at first with an optimizer that fails.
use nano_rl.Prelude.{◌+◌, String, ℕ, zero, suc, List, refl, true, none, [], ◌∷◌, All}
use nano_rl.Prelude.Exec.{ok, err}
use nano_rl.Prelude.Dict.{lookup}
use nano_rl.Slot.Names.{GpuTopology, rollout, trainer}
use nano_rl.Slot.Types.{ResolvedGpuPlan, find_worker}
use nano_rl.Slot.Lease.Tests.{rollout_token, rollout_admitted, fresh, two_gpus, worker, state_of}
use nano_rl.Protocols.{WeightMeta, TrainBatch}
use nano_rl.Roles.Ranks.{bootstrap_weight_meta}
use nano_rl.WeightRegistry as Registry
use nano_rl.WeightTransfer.{object_ref}
use nano_rl.WeightStore.Values.{null, end}
use nano_rl.SampleQueue.Tests.{sample}
use nano_rl.DataSources.{PromptRecord}
use nano_rl.Training.Rollouts.{run_rollout_step}
use nano_rl.Training.Rolling.{Rolled, run_rollout_step-Rolled}
use nano_rl.Training.Serving.{IsReady, run-IsReady}
use nano_rl.Training.Runs.{run}
use nano_rl.Training.Completing.{Completed, run-Completed}
use nano_rl.Training.{World, Actors, Cluster, TrainingConfig}
use nano_rl.Training.Steps.{run_train_step}
use nano_rl.Training.Settling.{Settled, run_train_step-Settled}
use nano_rl.Training.Returning.{IsServed, IsUsable, run_train_step-IsServed}

abbrev plan : ResolvedGpuPlan
plan = record two_gpus {
  rollout_replicas =
      record {
        replica_id = "rollout-dp-0";
        dp_rank = 0;
        topology = GpuTopology.shared;
        gpu_ids = 1 ∷ [];
        worker_ids = "w1" ∷ [];
        controller_class = "controller";
        worker_class = "worker";
      }
      ∷ [];
  trainer_ranks =
      record { rank = 0; gpu_id = 1; trainer_class = "rank"; ray_resource = "train_gpu_1" } ∷ [];
}

abbrev config : TrainingConfig
config = record {
  gpu_plan = plan;
  planner = record { method = object_ref; allow_rollout_only_artifact_pull = true };
  model_path = "mock://model";
  tokenizer_path = none;
  rollout_backend = "mock";
  weight_sync_backend = "none";
  queue_high_watermark = 8;
  global_batch_size = 2;
  max_steps = 1;
}

abbrev world : World
world = record {
  decimal = λ n. "0";
  hexdigest = λ s. "digest";
  clock = λ n. n;
  hexes = λ n k. "a0";
  objects = record { object = λ v. 0; str = λ v. "text" };
}

abbrev weight : WeightMeta
weight = bootstrap_weight_meta "mock://model" none "digest" 0

-- All goes well but the optimizer.
abbrev actors : Actors (Unit {0})
actors = record {
  generate = λ id q ls x. (err "no sample", x);
  initialize_rank = λ r x. (ok none, x);
  hydrate = λ r s l x. (ok none, x);
  optimize = λ r b l x. (err "out of memory", x);
  export_weight = λ r m p x. (ok m, x);
  sync_weights_to_vllm = λ r id m s l t x. (ok null, x);
  rank_state = λ r x. (ok null, x);
  offload_trainer = λ r l x. (ok none, x);
  activate_weight = λ id m ls s x. (ok tt, x);
  offload_replica = λ id ls x. (ok none, x);
  wake_replica = λ id ls x. (ok none, x);
}

abbrev batch : TrainBatch
batch = record {
  train_batch_id = "train-1";
  sample_refs = [];
  sample_ids = [];
  policy_version_min = 0;
  policy_version_max = 0;
  policy_version_histogram = [];
  num_sequences = 2;
  num_tokens = 8;
  reserved_by = "trainer-group-0";
  reserved_at = 0;
  expires_at = none;
}

abbrev cluster : Cluster (Unit {0})
cluster = record {
  gpu_leases = record fresh { plan = plan };
  sample_queue = record {
    max_policy_lag = 0;
    sample_ttl_sec = 60;
    queue_high_watermark = 8;
    pending = [];
    reserved = ("train-1", batch) ∷ [];
    acked = [];
    dropped = [];
    seen = [];
  };
  handles = record {
    rollout_manager = record {
      replica_ids = "rollout-dp-0" ∷ [];
      ahead = [];
      max_in_flight_per_replica = 1;
      input_backlog = [];
      paused_reason = none;
      in_flight = [];
    };
    weight_registry = Registry.create;
    actors = tt;
    trainer_states = [];
    last_weight_transfer_plan = none;
    rollout_active_weight_version = none;
    ticks = 0;
  };
}

run_train_step-Settled_example :
    Settled actors world config batch weight cluster.sample_queue
      (run_train_step actors world config batch weight cluster)
run_train_step-Settled_example = run_train_step-Settled actors world config batch weight cluster

usable : All (IsUsable plan cluster.gpu_leases) (1 ∷ [])
unfolding lookup find_worker
usable = (
  (
    (state_of 1 GpuTopology.shared "w1", refl, rollout ∷ trainer ∷ [], refl, refl, refl),
    (worker "w1" 1 GpuTopology.shared, refl),
  ),
  tt,
)

run_train_step-IsServed_example :
    All
      (IsServed plan (run_train_step actors world config batch weight cluster).1.gpu_leases)
      (1 ∷ [])
run_train_step-IsServed_example =
    run_train_step-IsServed actors world config batch weight cluster usable

-- A cluster on which a run goes through: every call of an actor returns.
abbrev hex : ℕ → ℕ → String
hex t zero = "a0"
hex t (suc k) = "b1"

abbrev steady : World
steady = record world { hexes = hex }

abbrev generating : Actors (Unit {0})
generating = record actors {
  generate = λ id q ls x. (ok (record (sample q.request_id) { policy_version = 0 }), x);
  optimize = λ r b l x. (ok null, x);
  export_weight = λ r m p x. (ok (record m { version_id = m.version_id + 1 }), x);
}

abbrev ready : Cluster (Unit {0})
ready = record cluster {
  sample_queue = record cluster.sample_queue { reserved = [] };
  handles = record cluster.handles {
    rollout_manager = record cluster.handles.rollout_manager { max_in_flight_per_replica = 2 };
  };
}

abbrev prompts : List PromptRecord
prompts = record { prompt_id = "p0"; prompt = "hello"; metadata = end } ∷ []

run_rollout_step-Rolled_example :
    Rolled 1 1 (run_rollout_step generating steady config prompts weight 0 ready)
run_rollout_step-Rolled_example =
    run_rollout_step-Rolled generating steady config prompts weight 0 ready

run-Completed_example : Completed config (run generating steady config (ok prompts) ready)
run-Completed_example = run-Completed generating steady config (ok prompts) ready

serving : All (IsServed plan ready.gpu_leases) (1 ∷ [])
unfolding lookup find_worker
serving = (
  (
    worker "w1" 1 GpuTopology.shared,
    refl,
    (rollout_token, refl, refl, refl, rollout_admitted plan),
  ),
  tt,
)

run-IsReady_example :
    IsReady generating steady config (run generating steady config (ok prompts) ready).1.gpu_leases
run-IsReady_example = run-IsReady generating steady config (ok prompts) ready (usable, serving)
