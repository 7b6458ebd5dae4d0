-- ===== src/Training/Kept.antt =====
-- What the calls of nano_rl/runtime/ray/training.py leave as it is: the samples, and the leases.
use nano_rl.Prelude.{ℕ, String, ◌≡◌, refl, ◌∙◌, Option, some, List, [], ◌∷◌, arith, inl, inr}
use nano_rl.Prelude.Exec.{Result, Result-cases, ◌>>=◌}
use nano_rl.Prelude.Dict.{Dict}
use nano_rl.Slot.Names.{rollout}
use nano_rl.Slot.Types.{GpuLease, ResolvedGpuPlan, RolloutReplicaSpec, TrainerRankSpec}
use nano_rl.Slot.Lease as Lease
use nano_rl.Slot.Lease.Granting.{current_lease_keeps}
use nano_rl.Protocols.{WeightMeta}
use nano_rl.WeightTransfer.{WeightTransferPlan}
use nano_rl.WeightStore.Values.{Value}
use nano_rl.Training.{Cluster, Actors, World, TrainingConfig, Action, Local, on_leases, on_handles}
use nano_rl.Training.Windows.{leases_of, trainer_leases, start_on_replicas, on_shared_replicas}
use nano_rl.Training.Weights.{
  activate_replicas, activate_all, try_activation, activate_planned, activate_weight_for_rollout,
}

-- The leases and the samples are as before.
abbrev pub Same : {X : Type 0} → Cluster X → Cluster X → Type 0
Same c d = (d.gpu_leases ≡ c.gpu_leases) × (d.sample_queue ≡ c.sample_queue)

pub on_handles-Same : {X A : Type 0} (act : Local X A) (c : Cluster X) → Same c (on_handles act c).1
on_handles-Same act c = elim (Result-cases (act c.handles).0) [
  | inl (e, h) ↦ rw h (refl, refl)
  | inr (a, h) ↦ rw h (refl, refl)
]

pub on_leases-Same :
    {X A : Type 0} (act : Lease.Action A) (c : Cluster X)
    → (act c.gpu_leases).1 ≡ c.gpu_leases
    → Same c (on_leases act c).1
on_leases-Same act c h = elim (Result-cases (act c.gpu_leases).0) [
  | inl (e, r) ↦ rw r (h, refl)
  | inr (a, r) ↦ rw r (h, refl)
]

pub bind-Same :
    {X A B : Type 0} (act : Action X A) (k : A → Action X B) (c : Cluster X)
    → Same c (act c).1
    → ((x : A) (d : Cluster X) → Same d (k x d).1)
    → Same c ((act >>= k) c).1
bind-Same act k c h g = elim (Result-cases (act c).0) [
  | inl (e, r) ↦ rw r h
  | inr (x, r) ↦ let (p, q) = g x (act c).1 in rw r (p ∙ h.0, q ∙ h.1)
]

module _ {X : Type 0} where
  pub leases_of-Same :
      (gs : List ℕ) (hs : List String) (c : Cluster X) → Same c (leases_of gs hs c).1
  unfolding leases_of
  leases_of-Same [] [] c = (refl, refl)
  leases_of-Same [] (h ∷ hs) c = (refl, refl)
  leases_of-Same (g ∷ gs) [] c = (refl, refl)
  leases_of-Same (g ∷ gs) (h ∷ hs) c =
      grind (arith, current_lease_keeps rollout g (some h), leases_of-Same gs hs)

  start_on_replicas-Same :
      (call : String → List GpuLease → X → Result String (Option Value) × X)
      (rs : List RolloutReplicaSpec) (c : Cluster X)
      → Same c (start_on_replicas call rs c).1
  unfolding start_on_replicas
  start_on_replicas-Same call [] c = (refl, refl)
  start_on_replicas-Same call (r ∷ rs) c =
      grind (arith, leases_of-Same r.gpu_ids r.worker_ids, start_on_replicas-Same call rs)

  pub on_shared_replicas-Same :
      (call : String → List GpuLease → X → Result String (Option Value) × X)
      (plan : ResolvedGpuPlan) (c : Cluster X)
      → Same c (on_shared_replicas call plan c).1
  unfolding on_shared_replicas
  on_shared_replicas-Same call plan c = grind (arith, start_on_replicas-Same call, on_handles-Same)

  pub trainer_leases-Same :
      (w : World) (rs : List TrainerRankSpec) (d : Dict ℕ GpuLease) (c : Cluster X)
      → Same c (trainer_leases w rs d c).1
  unfolding trainer_leases
  trainer_leases-Same w [] d c = (refl, refl)
  trainer_leases-Same w (r ∷ rs) d c = grind (arith, current_lease_keeps, trainer_leases-Same w rs)

  module _ (a : Actors X) (w : World) (config : TrainingConfig) where
    activate_replicas-Same :
        (meta : WeightMeta) (plan : WeightTransferPlan) (active : WeightMeta)
        (rs : List RolloutReplicaSpec) (c : Cluster X)
        → Same c (activate_replicas a w config meta plan active rs c).1
    unfolding activate_replicas
    activate_replicas-Same meta plan active [] c = (refl, refl)
    activate_replicas-Same meta plan active (r ∷ rs) c = grind (
      arith,
      leases_of-Same r.gpu_ids r.worker_ids,
      λ (next : WeightMeta). activate_replicas-Same meta plan next rs,
      on_handles-Same,
    )

    pub activate_weight_for_rollout-Same :
        (meta : WeightMeta) (c : Cluster X)
        → Same c (activate_weight_for_rollout a w config meta c).1
    unfolding activate_weight_for_rollout activate_planned try_activation activate_all
    activate_weight_for_rollout-Same meta c =
        grind (arith, activate_replicas-Same meta, on_handles-Same)
