-- ===== src/Training/Windows.antt =====
-- The leases of nano_rl/runtime/ray/training.py: the windows that are granted, and the replicas that
-- give up their GPUs and wake up.
use Prim.Native.String.{◌++◌ as str_append}
use nano_rl.Prelude.{ℕ, String, Bool, true, false, Option, some, List, [], ◌∷◌, if◌then◌else◌}
use nano_rl.Prelude.Equality.{nat_eq, contains}
use nano_rl.Prelude.Exec.{Result, pure, raise, ◌>>=◌, ◌>>◌}
use nano_rl.Prelude.Dict.{Dict, insert}
use nano_rl.Exceptions.{no_rollout_worker}
use nano_rl.Slot.Names.{rollout, trainer}
use nano_rl.Slot.Types.{
  GpuLease, ResolvedGpuPlan, RolloutReplicaSpec, TrainerRankSpec, rollout_worker_for_gpu,
}
use nano_rl.Slot.Lease as Lease
use nano_rl.WeightStore.Values.{Value}
use nano_rl.Training.{
  World, Action, on_leases, on_handles, start, get_all, or_error, of_slot, lengths_differ,
}

abbrev pub trainer_name : World → ℕ → String
trainer_name w rank = str_append "trainer-rank-" (w.decimal rank)

abbrev any_in : List ℕ → List ℕ → Bool
any_in [] ys = false
any_in (x ∷ xs) ys = if contains x ys then true else any_in xs ys

-- `_shared_rollout_replicas`
pub shared_replicas : List ℕ → List RolloutReplicaSpec → List RolloutReplicaSpec
shared_replicas shared [] = []
shared_replicas shared (r ∷ rs) =
    let rest = shared_replicas shared rs in if any_in r.gpu_ids shared then r ∷ rest else rest

module _ {X : Type 0} where
  -- `zip(replica.gpu_ids, replica.worker_ids, strict=True)`, with the lease of each pair
  unfoldable pub leases_of : List ℕ → List String → Action X (List GpuLease)
  leases_of [] [] = pure []
  leases_of (g ∷ gs) (h ∷ hs) = do
    lease ← on_leases (Lease.current_lease rollout g (some h))
    leases ← leases_of gs hs
    pure (lease ∷ leases)
  leases_of _ _ = raise lengths_differ

  -- `_rollout_leases_for_replica`
  abbrev pub leases_for_replica : RolloutReplicaSpec → Action X (List GpuLease)
  leases_for_replica r = leases_of r.gpu_ids r.worker_ids

  -- `{rank.rank: self._trainer_lease(rank) for rank in ...}`
  unfoldable pub trainer_leases :
      World → List TrainerRankSpec → Dict ℕ GpuLease → Action X (Dict ℕ GpuLease)
  trainer_leases w [] leases = pure leases
  trainer_leases w (r ∷ rs) leases = do
    lease ← on_leases (Lease.current_lease trainer r.gpu_id (some (trainer_name w r.rank)))
    trainer_leases w rs (insert r.rank lease leases)

  -- The loop of `_grant_train_window`.
  unfoldable pub grant_train_window : World → List TrainerRankSpec → Action X (Unit {0})
  grant_train_window w [] = pure tt
  grant_train_window w (r ∷ rs) = do
    on_leases (Lease.grant trainer r.gpu_id (trainer_name w r.rank))
    grant_train_window w rs

  -- The loop of `_grant_rollout_window`.
  unfoldable pub grant_rollout_window : ResolvedGpuPlan → List ℕ → Action X (Unit {0})
  grant_rollout_window plan [] = pure tt
  grant_rollout_window plan (gpu ∷ gpus) = do
    worker ← or_error (of_slot (no_rollout_worker gpu)) (rollout_worker_for_gpu plan gpu)
    on_leases (Lease.grant rollout gpu worker.worker_id)
    grant_rollout_window plan gpus

  -- The loop that starts a call on each of the replicas.
  unfoldable pub start_on_replicas :
      (String → List GpuLease → X → Result String (Option Value) × X)
      → List RolloutReplicaSpec
      → Action X (List (Result String (Option Value)))
  start_on_replicas call [] = pure []
  start_on_replicas call (r ∷ rs) = do
    leases ← leases_for_replica r
    started ← on_handles (start (call r.replica_id leases))
    later ← start_on_replicas call rs
    pure (started ∷ later)

  -- `_offload_shared_rollouts` and `_wake_shared_rollouts`
  unfoldable pub on_shared_replicas :
      (String → List GpuLease → X → Result String (Option Value) × X)
      → ResolvedGpuPlan
      → Action X (Unit {0})
  unfolding shared_replicas
  on_shared_replicas call plan = do
    refs ← start_on_replicas call (shared_replicas plan.shared_gpu_ids plan.rollout_replicas)
    on_handles (get_all refs)
    pure tt
