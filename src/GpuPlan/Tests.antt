-- ===== src/GpuPlan/Tests.antt =====
-- A plan of nano_rl/config.py with five GPUs: two that only roll out, two shared, one idle.
use nano_rl.Prelude.{ℕ, zero, suc, String, ◌≡◌, ◌++◌, some, arith, map}
use nano_rl.GpuPlan.{PlanConfig, build_gpu_plan}
use nano_rl.GpuPlan.Covering.{gpu_of, build_gpu_plan-covers}

abbrev digit : ℕ → String
digit zero = "0"
digit (suc n) = "1"

abbrev five_gpus : PlanConfig
five_gpus = record {
  num_gpus = 5;
  rollout_only_gpus = 2;
  shared_gpus = 2;
  rollout_tp = 2;
  rollout_replica_controller = "controller";
  rollout_worker = "worker";
  trainer_rank = some "rank";
  decimal = digit;
}

build_gpu_plan-covers_example :
    (map gpu_of (build_gpu_plan five_gpus).rollout_workers
      ≡ (build_gpu_plan five_gpus).rollout_only_gpu_ids
        ++ (build_gpu_plan five_gpus).shared_gpu_ids)
    × (((build_gpu_plan five_gpus).rollout_only_gpu_ids
            ++ (build_gpu_plan five_gpus).shared_gpu_ids)
          ++ (build_gpu_plan five_gpus).idle_gpu_ids
        ≡ (build_gpu_plan five_gpus).physical_gpu_ids)
build_gpu_plan-covers_example = build_gpu_plan-covers five_gpus (omega arith)
