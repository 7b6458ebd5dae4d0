-- ===== src/Training/Settling.antt =====
-- That a train step of nano_rl/runtime/ray/training.py acknowledges its batch or releases it.
use nano_rl.Prelude.{ℕ, ◌≡◌, refl, sym, ap, ◌∙◌, ◌⊎◌, List, [], ◌∷◌, arith, inl, inr}
use nano_rl.Prelude.Exec.{Result, ok, err, pure, raise, continue, Result-cases, ◌>>=◌, ◌>>◌}
use nano_rl.Slot.Types.{ResolvedGpuPlan, TrainerRankSpec}
use nano_rl.Protocols.{WeightMeta, TrainBatch}
use nano_rl.SampleQueue.{SampleQueue, ack_batch, release_batch}
use nano_rl.SampleQueue.Releasing.{ack_batch_refused}
use nano_rl.WeightStore.Values.{Value}
use nano_rl.Training.{
  Cluster, Actors, World, TrainingConfig, TrainingError, on_queue, failing, of_queue, give_back,
}
use nano_rl.Training.Windows.{grant_train_window, grant_rollout_window}
use nano_rl.Training.Weights.{activate_weight_for_rollout}
use nano_rl.Training.Steps.{
  use_window, train_window, try_train_window, give_gpus_back, run_train_step,
}
use nano_rl.Training.Kept.{
  on_handles-Same, on_shared_replicas-Same, trainer_leases-Same, activate_weight_for_rollout-Same,
}

module _ {X : Type 0} where
  grant_train_window_queue :
      (w : World) (rs : List TrainerRankSpec) (c : Cluster X)
      → (grant_train_window w rs c).1.sample_queue ≡ c.sample_queue
  unfolding grant_train_window
  grant_train_window_queue w [] c = refl
  grant_train_window_queue w (r ∷ rs) c = grind (arith, grant_train_window_queue w rs)

  grant_rollout_window_queue :
      (plan : ResolvedGpuPlan) (gs : List ℕ) (c : Cluster X)
      → (grant_rollout_window plan gs c).1.sample_queue ≡ c.sample_queue
  unfolding grant_rollout_window
  grant_rollout_window_queue plan [] c = refl
  grant_rollout_window_queue plan (g ∷ gs) c = grind (arith, grant_rollout_window_queue plan gs)

  module _ (a : Actors X) (w : World) (config : TrainingConfig) (batch : TrainBatch)
      (current : WeightMeta) where
    use_window_queue :
        (c : Cluster X) → (use_window a w config batch current c).1.sample_queue ≡ c.sample_queue
    unfolding use_window
    use_window_queue c = grind (
      arith,
      on_shared_replicas-Same a.offload_replica config.gpu_plan,
      grant_train_window_queue w config.gpu_plan.trainer_ranks,
      trainer_leases-Same w config.gpu_plan.trainer_ranks [],
      on_handles-Same,
    )

    give_gpus_back_queue :
        (c : Cluster X) → (give_gpus_back a w config c).1.sample_queue ≡ c.sample_queue
    unfolding give_gpus_back
    give_gpus_back_queue c = grind (
      arith,
      on_shared_replicas-Same a.wake_replica config.gpu_plan,
      grant_rollout_window_queue config.gpu_plan config.gpu_plan.shared_gpu_ids,
    )

    -- The batch is acknowledged once, or it is released.
    abbrev Acked : SampleQueue → SampleQueue → Type 0
    Acked q r =
        ((ack_batch batch.train_batch_id q).0 ≡ ok tt) × (r ≡ (ack_batch batch.train_batch_id q).1)

    abbrev Released : SampleQueue → SampleQueue → Type 0
    Released q r = r ≡ (release_batch batch.train_batch_id q).1

    -- How the `try` ends.
    abbrev TryOutcome :
        SampleQueue → Result TrainingError (List Value × WeightMeta) × Cluster X → Type 0
    TryOutcome q (ok trained, d) = Acked q d.sample_queue
    TryOutcome q (err e, d) = Released q d.sample_queue

    released :
        (q : SampleQueue) (e : TrainingError) (d : Cluster X)
        → d.sample_queue ≡ q
        → TryOutcome q ((on_queue (release_batch batch.train_batch_id) >> raise e) d)
    released q e d p =
        let same = ap (λ s. (release_batch batch.train_batch_id s).1) p in
        elim (Result-cases (release_batch batch.train_batch_id d.sample_queue).0) [
          | inl (f, h) ↦ rw h same
          | inr (u, h) ↦ rw h same
        ]

    acknowledged :
        (q : SampleQueue) (trained : List Value × WeightMeta) (d : Cluster X)
        → d.sample_queue ≡ q
        → TryOutcome q (
            failing
              (λ e. on_queue (release_batch batch.train_batch_id))
              ((on_queue (ack_batch batch.train_batch_id) >> pure trained) d))
    acknowledged q trained d p =
        elim (Result-cases (ack_batch batch.train_batch_id d.sample_queue).0) [
          | inl (f, h) ↦ rw h (
              released q (of_queue f) _
                (ack_batch_refused batch.train_batch_id d.sample_queue f h ∙ p))
          | inr (u, h) ↦ rw h (
            ap (λ s. (ack_batch batch.train_batch_id s).0) (sym p) ∙ h,
            ap (λ s. (ack_batch batch.train_batch_id s).1) p,
          )
        ]

    try_train_window_outcome :
        (c : Cluster X) → TryOutcome c.sample_queue (try_train_window a w config batch current c)
    unfolding try_train_window train_window
    try_train_window_outcome c = elim (Result-cases (use_window a w config batch current c).0) [
      | inl (e, h) ↦ rw h (released c.sample_queue e _ (use_window_queue c))
      | inr (t, h) ↦ rw h (acknowledged c.sample_queue t _ (use_window_queue c))
    ]

    -- How a train step ends.
    abbrev pub Settled :
        SampleQueue → Result TrainingError (List Value × WeightMeta) × Cluster X → Type 0
    Settled q (ok trained, d) = Acked q d.sample_queue
    Settled q (err e, d) = Acked q d.sample_queue ⊎ Released q d.sample_queue

    activated :
        (q : SampleQueue) (trained : List Value × WeightMeta) (d : Cluster X)
        → Acked q d.sample_queue
        → Settled q (
            (activate_weight_for_rollout a w config trained.1 >>= λ active.
            pure (trained.0, active))
              d)
    activated q trained d acked =
        let (_, same) = activate_weight_for_rollout-Same a w config trained.1 d in
        elim (Result-cases (activate_weight_for_rollout a w config trained.1 d).0) [
          | inl (e, h) ↦ rw h (inl (acked.0, same ∙ acked.1))
          | inr (m, h) ↦ rw h (acked.0, same ∙ acked.1)
        ]

    -- What follows the `try`, by what it gave.
    after_try :
        (q : SampleQueue) (r : Result TrainingError (List Value × WeightMeta)) (d : Cluster X)
        → TryOutcome q (r, d)
        → Settled q (
            ((give_gpus_back a w config >> give_back r) >>= λ trained.
            activate_weight_for_rollout a w config trained.1 >>= λ active. pure (trained.0, active))
              d)
    after_try q r d outcome = elim (Result-cases (give_gpus_back a w config d).0) [
      | inl (e, h) ↦ rw h (failed r outcome)
      | inr (u, h) ↦ rw h (passed r outcome)
    ]
      where
        same : (give_gpus_back a w config d).1.sample_queue ≡ d.sample_queue
        same = give_gpus_back_queue d

        failed :
            (r : Result TrainingError (List Value × WeightMeta))
            → TryOutcome q (r, d)
            → Acked q (give_gpus_back a w config d).1.sample_queue
              ⊎ Released q (give_gpus_back a w config d).1.sample_queue
        failed (ok t) (went, p) = inl (went, same ∙ p)
        failed (err e) p = inr (same ∙ p)

        passed :
            (r : Result TrainingError (List Value × WeightMeta))
            → TryOutcome q (r, d)
            → Settled q (
                continue r
                  (λ trained. activate_weight_for_rollout a w config trained.1 >>= λ active.
                    pure (trained.0, active))
                  (give_gpus_back a w config d).1)
        passed (ok t) (went, p) = activated q t _ (went, same ∙ p)
        passed (err e) p = inr (same ∙ p)

    -- Whatever the actors do, after a train step the queue is what it was before, but for the step's
    -- batch: when the step goes through, the batch has been acknowledged, once and with success; when
    -- the step fails, either that or the batch has been released, once.
    pub run_train_step-Settled :
        (c : Cluster X) → Settled c.sample_queue (run_train_step a w config batch current c)
    unfolding run_train_step
    run_train_step-Settled c =
        after_try c.sample_queue (try_train_window a w config batch current c).0
          (try_train_window a w config batch current c).1 (try_train_window_outcome c)
