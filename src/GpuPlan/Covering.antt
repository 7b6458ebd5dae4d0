-- ===== src/GpuPlan/Covering.antt =====
-- Every GPU of the plan of nano_rl/config.py is used once.
use nano_rl.Prelude.{
  ℕ, zero, suc, ◌+◌, ◌≤◌, ◌≡◌, refl, ap, ◌∙◌, List, [], ◌∷◌, ◌++◌, map, length, take, drop, arith,
  length-drop,
}
use nano_rl.Slot.Names.{GpuTopology}
use nano_rl.Slot.Types.{RolloutWorkerSpec}
use nano_rl.GpuPlan.{PlanConfig, topology_of, workers_of, replica_loop, build_gpu_plan}

abbrev pub gpu_of : RolloutWorkerSpec → ℕ
gpu_of w = w.gpu_id

take-drop : (n : ℕ) (xs : List ℕ) → take n xs ++ drop n xs ≡ xs
take-drop zero xs = refl
take-drop (suc n) [] = refl
take-drop (suc n) (x ∷ xs) = ap (λ ys. x ∷ ys) (take-drop n xs)

take-nil : (n : ℕ) → take {A = ℕ} n [] ≡ []
take-nil zero = refl
take-nil (suc n) = refl

drop-nil : (n : ℕ) → drop {A = ℕ} n [] ≡ []
drop-nil zero = refl
drop-nil (suc n) = refl

three_parts : (n m : ℕ) (xs : List ℕ) → (take n xs ++ take m (drop n xs)) ++ drop (n + m) xs ≡ xs
three_parts zero m xs =
    let same : zero + m ≡ m = omega arith in ap (λ k. take m xs ++ drop k xs) same ∙ take-drop m xs
three_parts (suc n) m [] = rw (take-nil m, drop-nil (suc n + m)) refl
three_parts (suc n) m (x ∷ xs) =
    let same : suc n + m ≡ suc (n + m) = omega arith in
    ap (λ k. (take (suc n) (x ∷ xs) ++ take m (drop n xs)) ++ drop k (x ∷ xs)) same
    ∙ ap (λ ys. x ∷ ys) (three_parts n m xs)

workers_of-gpus :
    (c : PlanConfig) (dp : ℕ) (t : GpuTopology) (tp : ℕ) (gs : List ℕ)
    → map gpu_of (workers_of c dp t tp gs) ≡ gs
unfolding workers_of
workers_of-gpus c dp t tp [] = refl
workers_of-gpus c dp t tp (g ∷ gs) = ap (λ ys. g ∷ ys) (workers_of-gpus c dp t (tp + 1) gs)

map_append :
    (f : RolloutWorkerSpec → ℕ) (xs ys : List RolloutWorkerSpec)
    → map f (xs ++ ys) ≡ map f xs ++ map f ys
map_append f [] ys = refl
map_append f (x ∷ xs) ys = ap (λ zs. f x ∷ zs) (map_append f xs ys)

replica_loop-gpus :
    (c : PlanConfig) (shared : List ℕ) (rounds dp : ℕ) (gs : List ℕ)
    → 1 ≤ c.rollout_tp
    → length gs ≤ rounds
    → map gpu_of (replica_loop c shared rounds dp gs).1 ≡ gs
unfolding replica_loop
replica_loop-gpus c shared zero dp [] one enough = refl
replica_loop-gpus c shared zero dp (g ∷ gs) one enough = absurd (ground arith)
replica_loop-gpus c shared (suc rounds) dp [] one enough = refl
replica_loop-gpus c shared (suc rounds) dp (g ∷ gs) one enough =
    let gpu_ids = take c.rollout_tp (g ∷ gs) in
    let rest =
      replica_loop-gpus c shared rounds (dp + 1) (drop c.rollout_tp (g ∷ gs)) one
        (omega (arith, length-drop c.rollout_tp (g ∷ gs))) in
    map_append gpu_of _ _
    ∙ (ap (λ ys. map gpu_of (workers_of c dp (topology_of gpu_ids shared) 0 gpu_ids) ++ ys) rest
        ∙ (ap (λ ys. ys ++ drop c.rollout_tp (g ∷ gs))
              (workers_of-gpus c dp (topology_of gpu_ids shared) 0 gpu_ids)
            ∙ take-drop c.rollout_tp (g ∷ gs)))

-- With a tensor-parallel size of at least 1, the rollout workers of the plan stand on the rollout-only and
-- then the shared GPUs, one on each in order; and these with the idle ones are the physical GPUs.
pub build_gpu_plan-covers :
    (c : PlanConfig)
    → 1 ≤ c.rollout_tp
    → (map gpu_of (build_gpu_plan c).rollout_workers
        ≡ (build_gpu_plan c).rollout_only_gpu_ids ++ (build_gpu_plan c).shared_gpu_ids)
      × (((build_gpu_plan c).rollout_only_gpu_ids ++ (build_gpu_plan c).shared_gpu_ids)
            ++ (build_gpu_plan c).idle_gpu_ids
          ≡ (build_gpu_plan c).physical_gpu_ids)
unfolding build_gpu_plan
build_gpu_plan-covers c one =
    (replica_loop-gpus c _ _ 0 _ one (omega arith), three_parts c.rollout_only_gpus c.shared_gpus _)
