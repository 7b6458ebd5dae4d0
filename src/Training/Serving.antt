-- ===== src/Training/Serving.antt =====
-- That a run of nano_rl/runtime/ray/training.py leaves the shared GPUs with rollout.
use mathlib.Core.Path.{subst}
use nano_rl.Prelude.{
  ℕ, zero, suc, ◌+◌, ◌*◌, ◌≡◌, refl, sym, Option, none, some, List, [], ◌∷◌, All, All-map, length,
  Bool, true, false, ltb, arith,
}
use nano_rl.Prelude.Exec.{Result, pure, raise_if, ◌>>=◌}
use nano_rl.Slot.Names.{rollout}
use nano_rl.Exceptions.{no_rollout_worker}
use nano_rl.Slot.Types.{rollout_worker_for_gpu}
use nano_rl.Slot.Lease as Lease
use nano_rl.Slot.Lease.Serving.{CanServe, grant-CanServe}
use nano_rl.Protocols.{WeightMeta, TrainBatch, SampleRecord}
use nano_rl.Coordinators.{GenerationRequest}
use nano_rl.DataSources.{PromptRecord}
use nano_rl.DataSources.Building.{BuildError}
use nano_rl.Training.{
  World, Actors, Cluster, TrainingConfig, TrainingError, Action, on_leases, on_handles, or_error,
  finally_do, give_back, of_slot, out_of_rounds, not_enough_samples, no_batch,
}
use nano_rl.Training.Windows.{grant_rollout_window, on_shared_replicas}
use nano_rl.Training.Weights.{of_result, bootstrap_initial_weight, activate_weight_for_rollout}
use nano_rl.Training.Kept.{
  on_handles-Same, leases_of-Same, on_shared_replicas-Same, activate_weight_for_rollout-Same,
}
use nano_rl.Training.Steps.{try_train_window, give_gpus_back, run_train_step}
use nano_rl.Training.Returning.{
  IsServed, IsUsable, bind_leases, on_leases_1, use_window-CanServe, try_train_window_leases,
  run_train_step-IsServed,
}
use nano_rl.Training.Batching.{PromptBatcher, from_config, next_records}
use nano_rl.Training.Rollouts.{
  start_requests, submit, finish_requests, serve_requests, rollout_loop, run_rollout_step,
  reserve_train_batch,
}
use nano_rl.Training.Runs.{train_on, train_step, train_steps, trainer_actor_states, run}

module _ {X : Type 0} where
  -- A predicate on the leases goes through what keeps the leases.
  bind_kept :
      {A B : Type 0} (P : Lease.Manager → Type 0) (act : Action X A) (k : A → Action X B)
      (c : Cluster X)
      → (act c).1.gpu_leases ≡ c.gpu_leases
      → P c.gpu_leases
      → ((x : A) (d : Cluster X) → P d.gpu_leases → P (k x d).1.gpu_leases)
      → P ((act >>= k) c).1.gpu_leases
  bind_kept P act k c same h = bind_leases P act k c (subst P (sym same) h)

  raise_if_leases :
      (b : Bool) (e : TrainingError) (c : Cluster X) → (raise_if b e c).1.gpu_leases ≡ c.gpu_leases
  raise_if_leases true e c = refl
  raise_if_leases false e c = refl

  or_error_leases :
      {A : Type 0} (e : TrainingError) (o : Option A) (c : Cluster X)
      → (or_error e o c).1.gpu_leases ≡ c.gpu_leases
  or_error_leases e none c = refl
  or_error_leases e (some x) c = refl

module _ {X : Type 0} (a : Actors X) (w : World) (config : TrainingConfig) where
  start_requests_leases :
      (requests : List GenerationRequest) (c : Cluster X)
      → (start_requests a w config requests c).1.gpu_leases ≡ c.gpu_leases
  unfolding start_requests
  start_requests_leases [] c = refl
  start_requests_leases (r ∷ rs) c = grind (arith, leases_of-Same, start_requests_leases rs)

  finish_requests_leases :
      (version : ℕ) (requests : List GenerationRequest) (samples : List SampleRecord)
      (c : Cluster X)
      → (finish_requests a w config version requests samples c).1.gpu_leases ≡ c.gpu_leases
  unfolding finish_requests submit
  finish_requests_leases version [] [] c = refl
  finish_requests_leases version [] (s ∷ ss) c = refl
  finish_requests_leases version (r ∷ rs) [] c = refl
  finish_requests_leases version (r ∷ rs) (s ∷ ss) c =
      grind (arith, on_handles-Same, finish_requests_leases version rs ss)

  serve_requests_leases :
      (version : ℕ) (requests : List GenerationRequest) (c : Cluster X)
      → (serve_requests a w config version requests c).1.gpu_leases ≡ c.gpu_leases
  unfolding serve_requests
  serve_requests_leases version requests c = grind (
    arith,
    start_requests_leases requests,
    finish_requests_leases version requests,
    on_handles-Same,
  )

  rollout_loop_leases :
      (rounds version step required accepts generated : ℕ) (c : Cluster X)
      → (rollout_loop a w config rounds version step required accepts generated c).1.gpu_leases
        ≡ c.gpu_leases
  unfolding rollout_loop
  rollout_loop_leases zero version step required accepts generated c = refl
  rollout_loop_leases (suc rounds) version step required accepts generated c = grind (
    arith,
    serve_requests_leases version,
    on_handles-Same,
    rollout_loop_leases rounds version step required,
  )

  run_rollout_step_leases :
      (records : List PromptRecord) (weight : WeightMeta) (step : ℕ) (c : Cluster X)
      → (run_rollout_step a w config records weight step c).1.gpu_leases ≡ c.gpu_leases
  unfolding run_rollout_step
  run_rollout_step_leases records weight step c = grind (
    arith,
    on_handles-Same,
    λ (n : ℕ). rollout_loop_leases n weight.version_id step (length records),
  )

  reserve_train_batch_leases :
      (weight : WeightMeta) (size : ℕ) (c : Cluster X)
      → (reserve_train_batch a w config weight size c).1.gpu_leases ≡ c.gpu_leases
  unfolding reserve_train_batch
  reserve_train_batch_leases weight size c = grind arith

  bootstrap_leases :
      (c : Cluster X) → (bootstrap_initial_weight a w config c).1.gpu_leases ≡ c.gpu_leases
  unfolding bootstrap_initial_weight
  bootstrap_leases c = grind (arith, on_handles-Same, activate_weight_for_rollout-Same a w config)

  grant_rollout_window-CanServe :
      (g : ℕ) (gs : List ℕ) (c : Cluster X)
      → CanServe rollout c.gpu_leases g
      → CanServe rollout (grant_rollout_window config.gpu_plan gs c).1.gpu_leases g
  unfolding grant_rollout_window
  grant_rollout_window-CanServe g [] c h = h
  grant_rollout_window-CanServe g (gpu ∷ gpus) c h =
      let P = λ (m : Lease.Manager). CanServe rollout m g in
      let e = of_slot (no_rollout_worker gpu) in
      let found = rollout_worker_for_gpu config.gpu_plan gpu in
      bind_kept P (or_error e found) _ c (or_error_leases e found c) h (λ worker d k.
        let act = Lease.grant rollout gpu worker.worker_id in
        bind_leases P (on_leases act) (λ l. grant_rollout_window config.gpu_plan gpus) d
          (subst P (sym (on_leases_1 act d))
            (grant-CanServe rollout rollout gpu g worker.worker_id d.gpu_leases k))
          (λ l e. grant_rollout_window-CanServe g gpus e))

  give_gpus_back-CanServe :
      (g : ℕ) (c : Cluster X)
      → CanServe rollout c.gpu_leases g
      → CanServe rollout (give_gpus_back a w config c).1.gpu_leases g
  unfolding give_gpus_back
  give_gpus_back-CanServe g c h =
      let P = λ (m : Lease.Manager). CanServe rollout m g in
      bind_leases P (grant_rollout_window config.gpu_plan config.gpu_plan.shared_gpu_ids)
        (λ u. on_shared_replicas a.wake_replica config.gpu_plan) c
        (grant_rollout_window-CanServe g config.gpu_plan.shared_gpu_ids c h)
        (λ u d. subst P (sym (on_shared_replicas-Same a.wake_replica config.gpu_plan d).0))

  run_train_step-CanServe :
      (batch : TrainBatch) (current : WeightMeta) (g : ℕ) (c : Cluster X)
      → CanServe rollout c.gpu_leases g
      → CanServe rollout (run_train_step a w config batch current c).1.gpu_leases g
  unfolding run_train_step
  run_train_step-CanServe batch current g c h =
      let P = λ (m : Lease.Manager). CanServe rollout m g in
      let tried = try_train_window a w config batch current in
      let still =
        subst P (sym (try_train_window_leases a w config batch current c))
          (use_window-CanServe a w config batch current g c h) in
      bind_leases P (finally_do tried (give_gpus_back a w config))
        (λ trained.
          activate_weight_for_rollout a w config trained.1 >>= λ active. pure (trained.0, active))
        c
        (bind_leases P (give_gpus_back a w config) (λ u. give_back (tried c).0) (tried c).1
          (give_gpus_back-CanServe g (tried c).1 still) (λ u d k. k))
        (λ trained d k.
          bind_kept P (activate_weight_for_rollout a w config trained.1)
            (λ active. pure (trained.0, active)) d
            (activate_weight_for_rollout-Same a w config trained.1 d).0 k (λ active e j. j))

  -- Each shared GPU has a worker, its lease can be granted to rollout, and the worker holds it.
  abbrev pub IsReady : Lease.Manager → Type 0
  IsReady m =
      All (IsUsable config.gpu_plan m) config.gpu_plan.shared_gpu_ids
      × All (IsServed config.gpu_plan m) config.gpu_plan.shared_gpu_ids

  run_train_step-IsReady :
      (batch : TrainBatch) (current : WeightMeta) (c : Cluster X)
      → IsReady c.gpu_leases
      → IsReady (run_train_step a w config batch current c).1.gpu_leases
  run_train_step-IsReady batch current c (usable, served) =
      let plan = config.gpu_plan in
      let n = (run_train_step a w config batch current c).1.gpu_leases in
      (
        All-map {P = IsUsable plan c.gpu_leases} {Q = IsUsable plan n} plan.shared_gpu_ids
            (λ g (can, found). (run_train_step-CanServe batch current g c can, found)) usable,
        run_train_step-IsServed a w config batch current c usable,
      )

  train_on-IsReady :
      (index : ℕ) (records : List PromptRecord) (current : WeightMeta) (counts : ℕ × ℕ)
      (batch : TrainBatch) (c : Cluster X)
      → IsReady c.gpu_leases
      → IsReady (train_on a w config index records current counts batch c).1.gpu_leases
  unfolding train_on
  train_on-IsReady index records current (accepts, generated) batch c h =
      bind_leases IsReady (run_train_step a w config batch current) _ c
        (run_train_step-IsReady batch current c h) (λ (stats, active) d k. k)

  train_step-IsReady :
      (index : ℕ) (records : List PromptRecord) (current : WeightMeta) (c : Cluster X)
      → IsReady c.gpu_leases
      → IsReady (train_step a w config index records current c).1.gpu_leases
  unfolding train_step
  train_step-IsReady index records current c h =
      let size = config.global_batch_size in
      bind_kept IsReady (run_rollout_step a w config records current index) _ c
        (run_rollout_step_leases records current index c) h
        (λ rolled d k.
          bind_kept IsReady (or_error out_of_rounds rolled) _ d
            (or_error_leases out_of_rounds rolled d) k
            (λ counts e l.
              bind_kept IsReady (raise_if (ltb counts.0 size) (not_enough_samples counts.0 size)) _
                e (raise_if_leases (ltb counts.0 size) (not_enough_samples counts.0 size) e) l
                (λ u f m.
                  bind_kept IsReady (reserve_train_batch a w config current size) _ f
                    (reserve_train_batch_leases current size f) m
                    (λ reserved g n.
                      bind_kept IsReady (or_error (no_batch index) reserved) _ g
                        (or_error_leases (no_batch index) reserved g) n
                        (λ batch. train_on-IsReady index records current counts batch)))))

  train_steps-IsReady :
      (left index : ℕ) (batcher : PromptBatcher) (current : WeightMeta) (c : Cluster X)
      → IsReady c.gpu_leases
      → IsReady (train_steps a w config left index batcher current c).1.gpu_leases
  unfolding train_steps
  train_steps-IsReady zero index batcher current c h = h
  train_steps-IsReady (suc left) index batcher current c h =
      let (dealt, next) = next_records config.global_batch_size batcher in
      bind_kept IsReady (of_result dealt) _ c refl h (λ records d k.
        bind_leases IsReady (train_step a w config index records current) _ d
          (train_step-IsReady index records current d k)
          (λ s e l.
            bind_leases IsReady (train_steps a w config left (index + 1) next s.published_weight) _
              e (train_steps-IsReady left (index + 1) next s.published_weight e l)
              (λ later f m. m)))

  -- Whatever the actors do and the source of the prompts gives, and whether a run returns or raises:
  -- when, for each shared GPU, there is a worker, its lease can be granted to rollout and the worker
  -- holds an admitted lease of it before the run, then all of this is so after the run, and another
  -- run may follow.
  pub run-IsReady :
      (source : Result BuildError (List PromptRecord)) (c : Cluster X)
      → IsReady c.gpu_leases
      → IsReady (run a w config source c).1.gpu_leases
  unfolding run
  run-IsReady source c h =
      bind_kept IsReady
        (of_result (from_config source (config.global_batch_size * config.max_steps))) _ c refl h
        (λ batcher d k.
          bind_kept IsReady (bootstrap_initial_weight a w config) _ d (bootstrap_leases d) k
            (λ initial e l.
              bind_leases IsReady (train_steps a w config config.max_steps 0 batcher initial) _ e
                (train_steps-IsReady config.max_steps 0 batcher initial e l)
                (λ steps f m.
                  let states =
                    on_handles (trainer_actor_states a w config config.gpu_plan.trainer_ranks) in
                  bind_kept IsReady states _ f
                    (on_handles-Same (trainer_actor_states a w config config.gpu_plan.trainer_ranks)
                      f).0
                    m (λ s g n. n))))
