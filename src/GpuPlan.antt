-- ===== src/GpuPlan.antt =====
-- `_build_gpu_plan` of nano_rl/config.py: which GPU serves which replica and which trainer rank.
pub mod Covering
mod Ranges
pub mod Blocks
mod Tests
use nano_rl.Prelude.{
  ℕ, zero, suc, ◌+◌, String, Bool, true, false, Option, none, some, List, [], ◌∷◌, ◌++◌, map,
  length, take, drop, if◌then◌else◌,
}
use nano_rl.Prelude.Equality.{nat_eq, contains}
use Prim.Native.String.{◌++◌ as str_append}
use nano_rl.Slot.Names.{GpuTopology}
use nano_rl.Slot.Types.{RolloutReplicaSpec, RolloutWorkerSpec, TrainerRankSpec, ResolvedGpuPlan}

-- What the plan reads of `RuntimeConfig`, and the decimal text of a number, as an f-string writes it.
pub record PlanConfig : Type 0 where
  pub num_gpus : ℕ
  pub rollout_only_gpus : ℕ
  pub shared_gpus : ℕ
  pub rollout_tp : ℕ
  pub rollout_replica_controller : String
  pub rollout_worker : String
  pub trainer_rank : Option String
  pub decimal : ℕ → String

-- `range(start, start + n)`
pub range_from : ℕ → ℕ → List ℕ
range_from start zero = []
range_from start (suc n) = start ∷ range_from (start + 1) n

abbrev all_in : List ℕ → List ℕ → Bool
all_in [] ys = true
all_in (x ∷ xs) ys = if contains x ys then all_in xs ys else false

abbrev topology_of : List ℕ → List ℕ → GpuTopology
topology_of gpu_ids shared =
    if all_in gpu_ids shared then GpuTopology.shared else GpuTopology.rollout_only

abbrev replica_id_of : PlanConfig → ℕ → String
replica_id_of c dp_rank = str_append "rollout-dp-" (c.decimal dp_rank)

abbrev worker_id_of : PlanConfig → ℕ → ℕ → String
worker_id_of c dp_rank tp_rank =
    str_append (replica_id_of c dp_rank) (str_append "-tp-" (c.decimal tp_rank))

-- The workers of one replica, one for each of its GPUs.
pub workers_of : PlanConfig → ℕ → GpuTopology → ℕ → List ℕ → List RolloutWorkerSpec
workers_of c dp_rank topology tp_rank [] = []
workers_of c dp_rank topology tp_rank (gpu_id ∷ gpu_ids) =
    record {
      worker_id = worker_id_of c dp_rank tp_rank;
      replica_id = replica_id_of c dp_rank;
      dp_rank = dp_rank;
      tp_rank = tp_rank;
      gpu_id = gpu_id;
      topology = topology;
      worker_class = c.rollout_worker;
      ray_resource = str_append "rollout_gpu_" (c.decimal gpu_id);
    }
    ∷ workers_of c dp_rank topology (tp_rank + 1) gpu_ids

abbrev worker_id : RolloutWorkerSpec → String
worker_id w = w.worker_id

abbrev replica_of :
    PlanConfig → ℕ → GpuTopology → List ℕ → List RolloutWorkerSpec → RolloutReplicaSpec
replica_of c dp_rank topology gpu_ids workers = record {
  replica_id = replica_id_of c dp_rank;
  dp_rank = dp_rank;
  topology = topology;
  gpu_ids = gpu_ids;
  worker_ids = map worker_id workers;
  controller_class = c.rollout_replica_controller;
  worker_class = c.rollout_worker;
}

-- The loop over `range(0, len(rollout_gpu_ids), rollout_tp)`, on what is left of the GPUs; as many
-- rounds as there are GPUs are enough.
pub replica_loop :
    PlanConfig → List ℕ → ℕ → ℕ → List ℕ → List RolloutReplicaSpec × List RolloutWorkerSpec
unfolding workers_of
replica_loop c shared zero dp_rank gpus = ([], [])
replica_loop c shared (suc rounds) dp_rank [] = ([], [])
replica_loop c shared (suc rounds) dp_rank (g ∷ gs) =
    let gpu_ids = take c.rollout_tp (g ∷ gs) in
    let topology = topology_of gpu_ids shared in
    let workers = workers_of c dp_rank topology 0 gpu_ids in
    let (replicas, later) =
      replica_loop c shared rounds (dp_rank + 1) (drop c.rollout_tp (g ∷ gs)) in
    (replica_of c dp_rank topology gpu_ids workers ∷ replicas, workers ++ later)

abbrev or_empty : Option String → String
or_empty none = ""
or_empty (some s) = s

pub trainer_ranks_of : PlanConfig → ℕ → List ℕ → List TrainerRankSpec
trainer_ranks_of c rank [] = []
trainer_ranks_of c rank (gpu_id ∷ gpu_ids) =
    record {
      rank = rank;
      gpu_id = gpu_id;
      trainer_class = or_empty c.trainer_rank;
      ray_resource = str_append "train_gpu_" (c.decimal gpu_id);
    }
    ∷ trainer_ranks_of c (rank + 1) gpu_ids

pub build_gpu_plan : PlanConfig → ResolvedGpuPlan
unfolding replica_loop trainer_ranks_of range_from
build_gpu_plan c =
    let physical = range_from 0 c.num_gpus in
    let rollout_only = take c.rollout_only_gpus physical in
    let shared = take c.shared_gpus (drop c.rollout_only_gpus physical) in
    let rollout_gpus = rollout_only ++ shared in
    let (replicas, workers) = replica_loop c shared (length rollout_gpus) 0 rollout_gpus in
    record {
      physical_gpu_ids = physical;
      rollout_only_gpu_ids = rollout_only;
      shared_gpu_ids = shared;
      idle_gpu_ids = drop (c.rollout_only_gpus + c.shared_gpus) physical;
      rollout_replicas = replicas;
      rollout_workers = workers;
      trainer_ranks = trainer_ranks_of c 0 shared;
    }
