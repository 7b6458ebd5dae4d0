-- ===== src/GpuPlan/Blocks.antt =====
-- The replicas of the plan of nano_rl/config.py, when the sizes divide each other.
use nano_rl.Prelude.{
  ℕ, zero, suc, ◌+◌, ◌-◌, ◌*◌, ◌≤◌, ◌<◌, ◌≡◌, refl, sym, ap, ◌∙◌, ◌⊎◌, inl, inr, List, [], ◌∷◌,
  ◌++◌, length, take, drop, All, arith,
}
use mathlib.Core.Path.{subst}
use nano_rl.Prelude.Equality.{nat_eq}
use nano_rl.Slot.Names.{GpuTopology}
use nano_rl.Slot.Types.{RolloutReplicaSpec}
use nano_rl.GpuPlan.{
  PlanConfig, range_from, topology_of, workers_of, replica_of, replica_loop, trainer_ranks_of,
  build_gpu_plan,
}
use nano_rl.GpuPlan.Ranges.{
  length-range_from, range_from-append, take-range_from, drop-range_from, all_in-range_from,
  not_all_in-range_from, range_from-from, range_from-below, times_suc, count_fits,
}

-- A replica of that many GPUs that are all shared, from the boundary on, or all rollout-only, below
-- it; and its topology says which.
abbrev pub IsBlock : ℕ → ℕ → RolloutReplicaSpec → Type 0
IsBlock size boundary r =
    (length r.gpu_ids ≡ size)
    × (((r.topology ≡ GpuTopology.shared) × All (λ x. boundary ≤ x) r.gpu_ids)
        ⊎ ((r.topology ≡ GpuTopology.rollout_only) × All (λ x. x < boundary) r.gpu_ids))

module _ (c : PlanConfig) (boundary shared : ℕ) where
  abbrev first_replica : ℕ → ℕ → ℕ → RolloutReplicaSpec
  first_replica dp s t =
      let gpu_ids = range_from s (suc t) in
      let topology = topology_of gpu_ids (range_from boundary shared) in
      replica_of c dp topology gpu_ids (workers_of c dp topology 0 gpu_ids)

  shared-IsBlock :
      (dp s t : ℕ)
      → boundary ≤ s
      → s + suc t ≤ boundary + shared
      → IsBlock (suc t) boundary (first_replica dp s t)
  shared-IsBlock dp s t low high = (
    length-range_from s (suc t),
    inl (
      rw (all_in-range_from s (suc t) boundary shared low high) refl,
      range_from-from s (suc t) boundary low,
    ),
  )

  rollout_only-IsBlock :
      (dp s t : ℕ) → s + suc t ≤ boundary → IsBlock (suc t) boundary (first_replica dp s t)
  rollout_only-IsBlock dp s t high = (
    length-range_from s (suc t),
    inr (
      rw (not_all_in-range_from s t boundary shared (omega arith)) refl,
      range_from-below s (suc t) boundary high,
    ),
  )

  abbrev replica_with : ℕ → List ℕ → RolloutReplicaSpec
  replica_with dp gpu_ids =
      let topology = topology_of gpu_ids (range_from boundary shared) in
      replica_of c dp topology gpu_ids (workers_of c dp topology 0 gpu_ids)

  loop_unfold :
      (rounds dp : ℕ) (gs : List ℕ)
      → 1 ≤ length gs
      → (replica_loop c (range_from boundary shared) (suc rounds) dp gs).0
        ≡ replica_with dp (take c.rollout_tp gs)
          ∷ (replica_loop c (range_from boundary shared) rounds (dp + 1) (drop c.rollout_tp gs)).0
  unfolding replica_loop
  loop_unfold rounds dp [] h = absurd (omega arith)
  loop_unfold rounds dp (g ∷ gs) h = refl

  -- One round of the loop, on a range that begins with a whole replica.
  replica_loop-step :
      (rounds dp s t later : ℕ)
      → c.rollout_tp ≡ suc t
      → (replica_loop c
          (range_from boundary shared)
          (suc rounds)
          dp
          (range_from s (suc t + later))).0
        ≡ first_replica dp s t
          ∷ (replica_loop c
              (range_from boundary shared)
              rounds
              (dp + 1)
              (range_from (s + suc t) later)).0
  replica_loop-step rounds dp s t later size =
      let gs = range_from s (suc t + later) in
      let now : take c.rollout_tp gs ≡ range_from s (suc t) =
        ap (λ n. take n gs) size ∙ take-range_from s (suc t) later in
      let next : drop c.rollout_tp gs ≡ range_from (s + suc t) later =
        ap (λ n. drop n gs) size ∙ drop-range_from s (suc t) later in
      loop_unfold rounds dp gs (omega (arith, length-range_from s (suc t + later)))
      ∙ (ap
            (λ g.
              replica_with dp g
              ∷ (replica_loop c (range_from boundary shared) rounds (dp + 1)
                  (drop c.rollout_tp gs)).0)
            now
          ∙ ap
              (λ d.
                first_replica dp s t
                ∷ (replica_loop c (range_from boundary shared) rounds (dp + 1) d).0)
              next)

  no_replicas :
      (rounds dp s : ℕ)
      → (replica_loop c (range_from boundary shared) rounds dp (range_from s zero)).0 ≡ []
  unfolding replica_loop range_from
  no_replicas zero dp s = refl
  no_replicas (suc rounds) dp s = refl

  -- So many blocks, all of them one size and none across the boundary.
  abbrev pub Blocks : ℕ → ℕ → List RolloutReplicaSpec → Type 0
  Blocks size count rs = (length rs ≡ count) × All (IsBlock size boundary) rs

  -- From `s` on there are `count` blocks to come; `below` of them lie below the boundary, which may
  -- already be reached.
  replica_loop-Blocks :
      (count below rounds dp s t : ℕ)
      → c.rollout_tp ≡ suc t
      → count ≤ rounds
      → s + count * suc t ≡ boundary + shared
      → (boundary ≡ s + below * suc t) ⊎ (boundary ≤ s)
      → Blocks
          (suc t)
          count
          (replica_loop c (range_from boundary shared) rounds dp (range_from s (count * suc t))).0
  replica_loop-Blocks zero below rounds dp s t size enough all where_now =
      let none_left : zero * suc t ≡ zero = omega arith in
      subst
        (λ n.
          Blocks (suc t) zero
            (replica_loop c (range_from boundary shared) rounds dp (range_from s n)).0)
        (sym none_left) (subst (Blocks (suc t) zero) (sym (no_replicas rounds dp s)) (refl, tt))
  replica_loop-Blocks (suc count) below zero dp s t size enough all where_now = absurd (omega arith)
  replica_loop-Blocks (suc count) below (suc rounds) dp s t size enough all where_now =
      let more : suc count * suc t ≡ suc t + count * suc t = times_suc count (suc t) in
      let (block, where_next) = next below where_now in
      let (count_eq, blocks) =
        replica_loop-Blocks count (below - 1) rounds (dp + 1) (s + suc t) t size (omega arith)
          (omega (arith, all, more)) where_next in
      subst
        (λ n.
          Blocks (suc t) (suc count)
            (replica_loop c (range_from boundary shared) (suc rounds) dp (range_from s n)).0)
        (sym more)
        (subst (Blocks (suc t) (suc count))
          (sym (replica_loop-step rounds dp s t (count * suc t) size))
          (ap suc count_eq, (block, blocks)))
    where
      fits : s + suc t ≤ boundary + shared
      fits = omega (arith, all, times_suc count (suc t))

      next :
          (left : ℕ)
          → (boundary ≡ s + left * suc t) ⊎ (boundary ≤ s)
          → IsBlock (suc t) boundary (first_replica dp s t)
            × ((boundary ≡ (s + suc t) + (left - 1) * suc t) ⊎ (boundary ≤ s + suc t))
      next left (inr past) = (shared-IsBlock dp s t past fits, inr (omega arith))
      next zero (inl at) =
          let nothing : zero * suc t ≡ zero = omega arith in
          (
            shared-IsBlock dp s t (omega (arith, at, nothing)) fits,
            inr (omega (arith, at, nothing)),
          )
      next (suc left) (inl at) =
          let more = times_suc left (suc t) in
          let one_less : suc left - 1 ≡ left = omega arith in
          (
            rollout_only-IsBlock dp s t (omega (arith, at, more)),
            inl (
                subst (λ n. boundary ≡ (s + suc t) + n * suc t) (sym one_less)
                  (omega (arith, at, more))),
          )

trainer_ranks_of-length :
    (c : PlanConfig) (rank : ℕ) (gs : List ℕ) → length (trainer_ranks_of c rank gs) ≡ length gs
unfolding trainer_ranks_of
trainer_ranks_of-length c rank [] = refl
trainer_ranks_of-length c rank (g ∷ gs) = ap suc (trainer_ranks_of-length c (rank + 1) gs)

-- When the GPUs are there, the rollout-only ones make whole replicas, and all that can roll out make
-- `count` of them, the plan has these replicas, and a trainer rank on each shared GPU.
pub build_gpu_plan-Blocks :
    (c : PlanConfig) (count below idle t : ℕ)
    → c.rollout_tp ≡ suc t
    → c.num_gpus ≡ c.rollout_only_gpus + (c.shared_gpus + idle)
    → count * suc t ≡ c.rollout_only_gpus + c.shared_gpus
    → c.rollout_only_gpus ≡ below * suc t
    → Blocks c c.rollout_only_gpus c.shared_gpus (suc t) count (build_gpu_plan c).rollout_replicas
      × (length (build_gpu_plan c).trainer_ranks ≡ c.shared_gpus)
unfolding build_gpu_plan
build_gpu_plan-Blocks c count below idle t size there whole below_whole =
    let ro = c.rollout_only_gpus in
    let sh = c.shared_gpus in
    let physical = range_from 0 c.num_gpus in
    let all : physical ≡ range_from 0 (ro + (sh + idle)) = ap (range_from 0) there in
    let zero_plus : zero + ro ≡ ro = omega arith in
    let first : take ro physical ≡ range_from 0 ro =
      ap (take ro) all ∙ take-range_from 0 ro (sh + idle) in
    let rest : drop ro physical ≡ range_from ro (sh + idle) =
      ap (drop ro) all
      ∙ (drop-range_from 0 ro (sh + idle) ∙ ap (λ k. range_from k (sh + idle)) zero_plus) in
    let shared : take sh (drop ro physical) ≡ range_from ro sh =
      ap (take sh) rest ∙ take-range_from ro sh idle in
    let joined : range_from 0 ro ++ range_from ro sh ≡ range_from 0 (count * suc t) =
      ap (λ k. range_from 0 ro ++ range_from k sh) (sym zero_plus)
      ∙ (sym (range_from-append 0 ro sh) ∙ ap (range_from 0) (sym whole)) in
    let gpus : take ro physical ++ take sh (drop ro physical) ≡ range_from 0 (count * suc t) =
      ap (λ l. l ++ take sh (drop ro physical)) first
      ∙ (ap (λ l. range_from 0 ro ++ l) shared ∙ joined) in
    let rollout_gpus = take ro physical ++ take sh (drop ro physical) in
    let on_ranges =
      replica_loop-Blocks c ro sh count below (length rollout_gpus) 0 0 t size
        (omega (arith, ap length gpus, length-range_from 0 (count * suc t), count_fits count t))
        (omega (arith, whole)) (inl (omega (arith, below_whole))) in
    (
      subst
          (λ l.
            Blocks c ro sh (suc t) count (replica_loop c l (length rollout_gpus) 0 rollout_gpus).0)
          (sym shared)
          (subst
            (λ g.
              Blocks c ro sh (suc t) count
                (replica_loop c (range_from ro sh) (length rollout_gpus) 0 g).0)
            (sym gpus) on_ranges),
      trainer_ranks_of-length c 0 _ ∙ (ap length shared ∙ length-range_from ro sh),
    )
