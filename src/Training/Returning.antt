-- ===== src/Training/Returning.antt =====
-- That a train step of nano_rl/runtime/ray/training.py gives the shared GPUs back.
use mathlib.Core.Path.{subst}
use nano_rl.Prelude.{
  ℕ, ◌≡◌, refl, sym, some, List, [], ◌∷◌, All, All-map, arith, inl, inr, Bool-cases,
}
use nano_rl.Prelude.Equality.{nat_eq, ◌==◌}
use nano_rl.Prelude.Exec.{Result, ok, pure, Result-cases, ◌>>=◌}
use nano_rl.Slot.Names.{rollout, trainer}
use nano_rl.Slot.Types.{ResolvedGpuPlan, RolloutWorkerSpec, TrainerRankSpec, rollout_worker_for_gpu}
use nano_rl.Slot.Lease as Lease
use nano_rl.Slot.Lease.Serving.{
  CanServe, HasLease, grant-CanServe, grant_goes_through, grant-HasLease, grant-HasLease_other,
}
use nano_rl.Protocols.{WeightMeta, TrainBatch}
use nano_rl.Training.{
  Cluster, Actors, World, TrainingConfig, TrainingError, Action, on_leases, on_handles, give_back,
  finally_do,
}
use nano_rl.Training.Windows.{
  trainer_leases, grant_train_window, grant_rollout_window, on_shared_replicas, trainer_name,
}
use nano_rl.Training.Weights.{activate_weight_for_rollout}
use nano_rl.Training.Steps.{
  use_trainers, use_window, train_window, try_train_window, give_gpus_back, run_train_step,
}
use nano_rl.Training.Kept.{
  on_handles-Same, on_shared_replicas-Same, trainer_leases-Same, activate_weight_for_rollout-Same,
}

-- The worker of the GPU has a lease that is admitted.
abbrev pub IsServed : ResolvedGpuPlan → Lease.Manager → ℕ → Type 0
IsServed plan m gpu =
    (worker : RolloutWorkerSpec) × (rollout_worker_for_gpu plan gpu ≡ some worker)
    × HasLease rollout gpu worker.worker_id m

-- The GPU has a worker, and rollout may have it.
abbrev pub IsUsable : ResolvedGpuPlan → Lease.Manager → ℕ → Type 0
IsUsable plan m gpu =
    CanServe rollout m gpu
    × ((worker : RolloutWorkerSpec) × (rollout_worker_for_gpu plan gpu ≡ some worker))

-- A grant to the worker of a GPU leaves every GPU that is served served.
grant-IsServed :
    (plan : ResolvedGpuPlan) (gpu g : ℕ) (worker : RolloutWorkerSpec) (m : Lease.Manager)
    → rollout_worker_for_gpu plan gpu ≡ some worker
    → CanServe rollout m gpu
    → IsServed plan m g
    → IsServed plan (Lease.grant rollout gpu worker.worker_id m).1 g
grant-IsServed plan gpu g worker m mine can (other, its, has) = elim (Bool-cases (g == gpu)) [
  | inl same ↦
      let e : g ≡ gpu = (nat_eq.test_iff g gpu).0 same in
      subst (λ k. IsServed plan (Lease.grant rollout gpu worker.worker_id m).1 k) (sym e)
        (worker, mine, grant-HasLease rollout gpu worker.worker_id m can)
  | inr differs ↦ (
    other,
    its,
    grant-HasLease_other rollout rollout gpu g worker.worker_id other.worker_id m
        (λ e. let t = (nat_eq.test_iff g gpu).1 e in absurd (ground (arith, t, differs))) has,
  )
]

module _ {X : Type 0} where
  -- A predicate on the leases goes through a bind.
  pub bind_leases :
      {A B : Type 0} (P : Lease.Manager → Type 0) (act : Action X A) (k : A → Action X B)
      (c : Cluster X)
      → P (act c).1.gpu_leases
      → ((x : A) (d : Cluster X) → P d.gpu_leases → P (k x d).1.gpu_leases)
      → P ((act >>= k) c).1.gpu_leases
  bind_leases P act k c h g = elim (Result-cases (act c).0) [
    | inl (e, r) ↦ rw r h
    | inr (x, r) ↦ rw r (g x (act c).1 h)
  ]

  pub on_leases_1 :
      {A : Type 0} (act : Lease.Action A) (c : Cluster X)
      → (on_leases act c).1.gpu_leases ≡ (act c.gpu_leases).1
  on_leases_1 act c = elim (Result-cases (act c.gpu_leases).0) [
    | inl (e, h) ↦ rw h refl
    | inr (a, h) ↦ rw h refl
  ]

  pub grant_train_window-CanServe :
      (g : ℕ) (w : World) (rs : List TrainerRankSpec) (c : Cluster X)
      → CanServe rollout c.gpu_leases g
      → CanServe rollout (grant_train_window w rs c).1.gpu_leases g
  unfolding grant_train_window
  grant_train_window-CanServe g w [] c h = h
  grant_train_window-CanServe g w (r ∷ rs) c h =
      let act = Lease.grant trainer r.gpu_id (trainer_name w r.rank) in
      bind_leases (λ m. CanServe rollout m g) (on_leases act) (λ l. grant_train_window w rs) c
        (subst (λ m. CanServe rollout m g) (sym (on_leases_1 act c))
          (grant-CanServe rollout trainer r.gpu_id g (trainer_name w r.rank) c.gpu_leases h))
        (λ l d. grant_train_window-CanServe g w rs d)

  -- The window back goes through, and all of its GPUs are served.
  grant_rollout_window-IsServed :
      (plan : ResolvedGpuPlan) (gs : List ℕ) (c : Cluster X)
      → All (IsUsable plan c.gpu_leases) gs
      → ((grant_rollout_window plan gs c).0 ≡ ok tt)
        × All (IsServed plan (grant_rollout_window plan gs c).1.gpu_leases) gs
        × ((g : ℕ)
            → IsServed plan c.gpu_leases g
            → IsServed plan (grant_rollout_window plan gs c).1.gpu_leases g)
  unfolding grant_rollout_window
  grant_rollout_window-IsServed plan [] c h = (refl, tt, λ g s. s)
  grant_rollout_window-IsServed plan (g ∷ gs) c ((can, (worker, found)), hs) =
      let m = c.gpu_leases in
      let n = (Lease.grant rollout g worker.worker_id m).1 in
      let (l, went) = grant_goes_through rollout g worker.worker_id m can in
      let step : grant_rollout_window plan (g ∷ gs) c
          ≡ grant_rollout_window plan gs (record c { gpu_leases = n }) =
        rw (found, went) refl in
      let usable =
        All-map {P = IsUsable plan m} {Q = IsUsable plan n} gs
          (λ k (can_k, found_k).
            (grant-CanServe rollout rollout g k worker.worker_id m can_k, found_k))
          hs in
      let (ok_rest, served, kept) =
        grant_rollout_window-IsServed plan gs (record c { gpu_leases = n }) usable in
      subst
        (λ (r : Result TrainingError (Unit {0}) × Cluster X).
          (r.0 ≡ ok tt)
          × All (IsServed plan r.1.gpu_leases) (g ∷ gs)
          × ((k : ℕ) → IsServed plan m k → IsServed plan r.1.gpu_leases k))
        (sym step)
        (
          ok_rest,
          (kept g (worker, found, grant-HasLease rollout g worker.worker_id m can), served),
          λ k s. kept k (grant-IsServed plan g k worker m found can s),
        )

  module _ (a : Actors X) (w : World) (config : TrainingConfig) (batch : TrainBatch)
      (current : WeightMeta) where
    -- With the leases of the trainers.
    use_granted_leases :
        (c : Cluster X)
        → ((trainer_leases w config.gpu_plan.trainer_ranks [] >>= λ leases.
              on_handles (use_trainers a w config batch current leases))
            c).1.gpu_leases
          ≡ c.gpu_leases
    use_granted_leases c =
        grind (arith, trainer_leases-Same w config.gpu_plan.trainer_ranks [], on_handles-Same)

    pub use_window-CanServe :
        (g : ℕ) (c : Cluster X)
        → CanServe rollout c.gpu_leases g
        → CanServe rollout (use_window a w config batch current c).1.gpu_leases g
    unfolding use_window
    use_window-CanServe g c h =
        let P = λ (m : Lease.Manager). CanServe rollout m g in
        let ranks = config.gpu_plan.trainer_ranks in
        let last = λ (u : Unit {0}). trainer_leases w ranks [] >>= λ leases.
        on_handles (use_trainers a w config batch current leases) in
        let offload = on_shared_replicas a.offload_replica config.gpu_plan in
        bind_leases P offload (λ u. grant_train_window w ranks >>= last) c
          (subst P (sym (on_shared_replicas-Same a.offload_replica config.gpu_plan c).0) h)
          (λ u d hd.
            bind_leases P (grant_train_window w ranks) last d
              (grant_train_window-CanServe g w ranks d hd)
              (λ v e he. subst P (sym (use_granted_leases e)) he))

    pub try_train_window_leases :
        (c : Cluster X)
        → (try_train_window a w config batch current c).1.gpu_leases
          ≡ (use_window a w config batch current c).1.gpu_leases
    unfolding try_train_window train_window
    try_train_window_leases c = grind arith

    -- Back on rollout, whatever the waking does.
    give_gpus_back-IsServed :
        (c : Cluster X)
        → All (IsUsable config.gpu_plan c.gpu_leases) config.gpu_plan.shared_gpu_ids
        → All
            (IsServed config.gpu_plan (give_gpus_back a w config c).1.gpu_leases)
            config.gpu_plan.shared_gpu_ids
    unfolding give_gpus_back
    give_gpus_back-IsServed c usable =
        let plan = config.gpu_plan in
        let P = λ (m : Lease.Manager). All (IsServed plan m) plan.shared_gpu_ids in
        let (_, served, _) = grant_rollout_window-IsServed plan plan.shared_gpu_ids c usable in
        bind_leases P (grant_rollout_window plan plan.shared_gpu_ids)
          (λ u. on_shared_replicas a.wake_replica plan) c served
          (λ u d h. subst P (sym (on_shared_replicas-Same a.wake_replica plan d).0) h)

    -- Whatever the actors do, and whether the step returns or raises: when each shared GPU has a worker
    -- and its lease can be granted to rollout before a train step, then after the step the worker of
    -- each shared GPU holds a lease of the rollout role that is admitted.
    pub run_train_step-IsServed :
        (c : Cluster X)
        → All (IsUsable config.gpu_plan c.gpu_leases) config.gpu_plan.shared_gpu_ids
        → All
            (IsServed config.gpu_plan (run_train_step a w config batch current c).1.gpu_leases)
            config.gpu_plan.shared_gpu_ids
    unfolding run_train_step
    run_train_step-IsServed c usable =
        let plan = config.gpu_plan in
        let P = λ (m : Lease.Manager). All (IsServed plan m) plan.shared_gpu_ids in
        let tried = try_train_window a w config batch current in
        let still =
          All-map {P = IsUsable plan c.gpu_leases} {Q = IsUsable plan (tried c).1.gpu_leases}
            plan.shared_gpu_ids
            (λ g (can, found). (
              subst (λ m. CanServe rollout m g) (sym (try_train_window_leases c))
                  (use_window-CanServe g c can),
              found,
            ))
            usable in
        bind_leases P (finally_do tried (give_gpus_back a w config))
          (λ trained.
            activate_weight_for_rollout a w config trained.1 >>= λ active. pure (trained.0, active))
          c
          (bind_leases P (give_gpus_back a w config) (λ u. give_back (tried c).0) (tried c).1
            (give_gpus_back-IsServed (tried c).1 still) (λ u d h. h))
          (λ trained d h.
            bind_leases P (activate_weight_for_rollout a w config trained.1)
              (λ active. pure (trained.0, active)) d
              (subst P (sym (activate_weight_for_rollout-Same a w config trained.1 d).0) h)
              (λ active e k. k))
