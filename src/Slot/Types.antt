-- ===== src/Slot/Types.antt =====
-- The records of nano_rl/runtime/slot.py and the lookups of `ResolvedGpuPlan`.
use nano_rl.Prelude.{ℕ, ◌+◌, String, Option, none, some, List, [], ◌∷◌, length, if◌then◌else◌}
use nano_rl.Prelude.Equality.{◌==◌, nat_eq}
use nano_rl.Slot.Names.{GpuTopology, RoleName, GpuLeasePhase}

pub record RolloutWorkerSpec : Type 0 where
  pub worker_id : String
  pub replica_id : String
  pub dp_rank : ℕ
  pub tp_rank : ℕ
  pub gpu_id : ℕ
  pub topology : GpuTopology
  pub worker_class : String
  pub ray_resource : String

pub record RolloutReplicaSpec : Type 0 where
  pub replica_id : String
  pub dp_rank : ℕ
  pub topology : GpuTopology
  pub gpu_ids : List ℕ
  pub worker_ids : List String
  pub controller_class : String
  pub worker_class : String

pub record TrainerRankSpec : Type 0 where
  pub rank : ℕ
  pub gpu_id : ℕ
  pub trainer_class : String
  pub ray_resource : String

pub record ResolvedGpuPlan : Type 0 where
  pub physical_gpu_ids : List ℕ
  pub rollout_only_gpu_ids : List ℕ
  pub shared_gpu_ids : List ℕ
  pub idle_gpu_ids : List ℕ
  pub rollout_replicas : List RolloutReplicaSpec
  pub rollout_workers : List RolloutWorkerSpec
  pub trainer_ranks : List TrainerRankSpec

abbrev pub total_gpus : ResolvedGpuPlan → ℕ
total_gpus p = length p.physical_gpu_ids

abbrev pub rollout_gpu_count : ResolvedGpuPlan → ℕ
rollout_gpu_count p = length p.rollout_only_gpu_ids + length p.shared_gpu_ids

abbrev pub shared_gpu_count : ResolvedGpuPlan → ℕ
shared_gpu_count p = length p.shared_gpu_ids

abbrev pub rollout_replica_count : ResolvedGpuPlan → ℕ
rollout_replica_count p = length p.rollout_replicas

abbrev pub rollout_worker_count : ResolvedGpuPlan → ℕ
rollout_worker_count p = length p.rollout_workers

abbrev pub trainer_rank_count : ResolvedGpuPlan → ℕ
trainer_rank_count p = length p.trainer_ranks

-- The first worker on the GPU; `none` stands for the exception.
unfoldable pub find_worker : ℕ → List RolloutWorkerSpec → Option RolloutWorkerSpec
find_worker gpu_id [] = none
find_worker gpu_id (w ∷ ws) = if w.gpu_id == gpu_id then some w else find_worker gpu_id ws

abbrev pub rollout_worker_for_gpu : ResolvedGpuPlan → ℕ → Option RolloutWorkerSpec
rollout_worker_for_gpu p gpu_id = find_worker gpu_id p.rollout_workers

pub record GpuLease : Type 0 where
  pub gpu_id : ℕ
  pub role : RoleName
  pub holder_id : String
  pub lease_epoch : ℕ

pub record GpuLeaseState : Type 0 where
  pub gpu_id : ℕ
  pub topology : GpuTopology
  pub phase : GpuLeasePhase
  pub active_role : Option RoleName
  pub holder_id : Option String
  pub lease_epoch : ℕ
  pub failed_reason : Option String
