-- ===== src/Config/Fitting.antt =====
-- What the validation of nano_rl/config.py gives the GPU plan.
use native.Mathlib.Nat.{div-add-mod'}
use mathlib.Core.Path.{subst}
use nano_rl.Prelude.{
  ℕ, suc, ◌+◌, ◌-◌, ◌*◌, ◌/◌, ◌%◌, ◌≤◌, String, ◌≡◌, sym, ap, ◌∙◌, false, not, length, arith,
}
use nano_rl.Prelude.Equality.{◌==◌, nat_eq}
use nano_rl.Prelude.Exec.{ok}
use nano_rl.GpuPlan.{PlanConfig, build_gpu_plan}
use nano_rl.GpuPlan.Blocks.{Blocks, build_gpu_plan-Blocks}
use nano_rl.Config.{
  Python, RuntimeConfig, total, rollout_capable, and_then-ok, first_failing, first_failing-passes,
}
use nano_rl.Config.CrossFields.{
  mode_checks, gpu_checks, class_checks, size_checks, validate_cross_fields,
}

-- What `_build_gpu_plan` reads of the configuration.
abbrev pub plan_config : (ℕ → String) → RuntimeConfig → PlanConfig
plan_config decimal c = record {
  num_gpus = c.num_gpus;
  rollout_only_gpus = c.topology.rollout_only_gpus;
  shared_gpus = c.topology.shared_gpus;
  rollout_tp = c.rollout_parallel.tensor_parallel_size;
  rollout_replica_controller = c.role_classes.rollout_replica_controller;
  rollout_worker = c.role_classes.rollout_worker;
  trainer_rank = c.role_classes.trainer_rank;
  decimal = decimal;
}

equal_of : (n m : ℕ) → not (n == m) ≡ false → n ≡ m
equal_of n m h = (nat_eq.test_iff n m).0 (ground (arith, h))

-- What the checks of the sizes leave.
abbrev Sizes : RuntimeConfig → Type 0
Sizes c =
    let tp = c.rollout_parallel.tensor_parallel_size in
    (c.trainer_placement.num_ranks ≡ c.topology.shared_gpus)
    × (c.rollout_placement.num_replicas * c.rollout_placement.gpus_per_replica
        ≡ rollout_capable c.topology)
    × (c.rollout_placement.gpus_per_replica ≡ tp)
    × (c.topology.rollout_only_gpus % tp ≡ 0)

sizes : (c : RuntimeConfig) → first_failing (size_checks c) ≡ ok tt → Sizes c
sizes c h =
    let (ranks, h) = first_failing-passes _ _ _ h in
    let (_, h) = first_failing-passes _ _ _ h in
    let (capable, h) = first_failing-passes _ _ _ h in
    let (_, h) = first_failing-passes _ _ _ h in
    let (per_replica, h) = first_failing-passes _ _ _ h in
    let (_, h) = first_failing-passes _ _ _ h in
    let (divisible, h) = first_failing-passes _ _ _ h in
    (equal_of _ _ ranks, equal_of _ _ capable, equal_of _ _ per_replica, equal_of _ _ divisible)

room : (c : RuntimeConfig) → first_failing (gpu_checks c) ≡ ok tt → total c.topology ≤ c.num_gpus
room c h = let (enough, _) = first_failing-passes _ _ _ h in ground (arith, enough)

-- The plan of a configuration: the replicas that the placement names, each of as many GPUs as it says
-- and all on one side of the boundary between rollout-only and shared GPUs, and the trainer ranks.
abbrev pub Planned : RuntimeConfig → PlanConfig → Type 0
Planned c p =
    Blocks p c.topology.rollout_only_gpus c.topology.shared_gpus
      c.rollout_placement.gpus_per_replica c.rollout_placement.num_replicas
      (build_gpu_plan p).rollout_replicas
    × (length (build_gpu_plan p).trainer_ranks ≡ c.trainer_placement.num_ranks)

planned :
    (decimal : ℕ → String) (c : RuntimeConfig) (t : ℕ)
    → c.rollout_parallel.tensor_parallel_size ≡ suc t
    → total c.topology ≤ c.num_gpus
    → Sizes c
    → Planned c (plan_config decimal c)
planned decimal c t size enough (ranks, capable, per_replica, divisible) =
    let p = plan_config decimal c in
    let ro = c.topology.rollout_only_gpus in
    let sh = c.topology.shared_gpus in
    let tp = c.rollout_parallel.tensor_parallel_size in
    let count = c.rollout_placement.num_replicas in
    let gpus : c.rollout_placement.gpus_per_replica ≡ suc t = per_replica ∙ size in
    let whole : count * suc t ≡ ro + sh = ap (λ n. count * n) (sym gpus) ∙ capable in
    let blocks : ro / tp * tp ≡ ro / tp * suc t = ap (λ n. ro / tp * n) size in
    let below : ro ≡ ro / tp * suc t = omega (arith, div-add-mod' ro tp, divisible, blocks) in
    let there : c.num_gpus ≡ ro + (sh + (c.num_gpus - (ro + sh))) = omega (arith, enough) in
    let (replicas, trainers) =
      build_gpu_plan-Blocks p count (ro / tp) (c.num_gpus - (ro + sh)) t size there whole below in
    (
      subst (λ n. Blocks p ro sh n count (build_gpu_plan p).rollout_replicas) (sym gpus) replicas,
      trainers ∙ sym ranks,
    )

-- When the cross-field validation accepts a configuration with a tensor-parallel size of at least 1,
-- its GPU plan has the replicas that the placement names, each of `gpus_per_replica` GPUs that are
-- all shared or all rollout-only, as its topology says, and `num_ranks` trainer ranks.
pub validate_cross_fields-Planned :
    (py : Python) (decimal : ℕ → String) (c : RuntimeConfig)
    → 1 ≤ c.rollout_parallel.tensor_parallel_size
    → validate_cross_fields py c ≡ ok tt
    → Planned c (plan_config decimal c)
unfolding validate_cross_fields
validate_cross_fields-Planned py decimal c positive accepted =
    let (_, after_mode) = and_then-ok (first_failing (mode_checks c)) _ accepted in
    let (gpus, after_gpus) = and_then-ok (first_failing (gpu_checks c)) _ after_mode in
    let (_, after_classes) = and_then-ok (class_checks py c.role_classes) _ after_gpus in
    let (fitting, _) = and_then-ok (first_failing (size_checks c)) _ after_classes in
    planned decimal c (c.rollout_parallel.tensor_parallel_size - 1) (omega arith) (room c gpus)
      (sizes c fitting)
