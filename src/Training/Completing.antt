-- ===== src/Training/Completing.antt =====
-- What the steps of `run` of nano_rl/runtime/ray/training.py report.
use mathlib.Core.Path.{subst}
use nano_rl.Prelude.{
  ℕ, zero, suc, ◌+◌, ◌*◌, ◌≤◌, ◌≡◌, refl, ap, Option, none, some, List, [], ◌∷◌, length, ltb,
  Bool-cases, arith, inl, inr,
}
use nano_rl.Prelude.Exec.{Result, ok, err, pure, raise_if, continue, ◌>>=◌, ◌>>◌}
use nano_rl.Protocols.{WeightMeta, TrainBatch}
use nano_rl.DataSources.{PromptRecord}
use nano_rl.DataSources.Building.{BuildError}
use nano_rl.Training.{
  World, Actors, Cluster, TrainingConfig, TrainingError, on_handles, or_error, out_of_rounds,
  not_enough_samples, no_batch,
}
use nano_rl.Training.Weights.{of_result, bootstrap_initial_weight}
use nano_rl.Training.Batching.{PromptBatcher, from_config, next_records}
use nano_rl.Training.Batching.Dealing.{IsFilled, Dealt, Made, from_config-Made, next_records-Dealt}
use nano_rl.Training.Rollouts.{run_rollout_step, reserve_train_batch}
use nano_rl.Training.Counting.{backlog, bind_outcome}
use nano_rl.Training.Rolling.{Rolled, run_rollout_step-Rolled}
use nano_rl.Training.Steps.{run_train_step}
use nano_rl.Training.Runs.{
  TrainStep, Report, last_weight, train_on, train_step, train_steps, trainer_actor_states, run,
}

-- A step of this index, on the weights that it begins with.
abbrev pub Reported : ℕ → ℕ → WeightMeta → TrainStep → Type 0
Reported size index current s =
    (s.step ≡ index + 1)
    × (s.policy_version_before ≡ current.version_id)
    × (s.prompts_submitted ≡ size)
    × (s.samples_accepted ≡ size)
    × (size ≤ s.samples_generated)

-- The steps from this index on: each begins with the weights that the one before it published.
abbrev pub Chained : ℕ → ℕ → WeightMeta → List TrainStep → Type 0
Chained size index current [] = Unit
Chained size index current (s ∷ ss) =
    Reported size index current s × Chained size (index + 1) s.published_weight ss

abbrev pub StepReported :
    {X : Type 0} → ℕ → ℕ → WeightMeta → Result TrainingError TrainStep × Cluster X → Type 0
StepReported size index current (ok s, d) = Reported size index current s
StepReported size index current (err e, d) = Unit

abbrev pub StepsChained :
    {X : Type 0}
    → ℕ
    → ℕ
    → ℕ
    → WeightMeta
    → Result TrainingError (List TrainStep) × Cluster X
    → Type 0
StepsChained size left index current (ok ss, d) = (length ss ≡ left) × Chained size index current ss
StepsChained size left index current (err e, d) = Unit

abbrev pub Completed :
    {X : Type 0} → TrainingConfig → Result TrainingError Report × Cluster X → Type 0
Completed config (ok r, d) =
    (length r.steps ≡ config.max_steps)
    × (r.final_weight ≡ last_weight r.initial_weight r.steps)
    × Chained config.global_batch_size 0 r.initial_weight r.steps
Completed config (err e, d) = Unit

module _ {X : Type 0} (a : Actors X) (w : World) (config : TrainingConfig) where
  train_on-StepReported :
      (size index : ℕ) (records : List PromptRecord) (current : WeightMeta) (counts : ℕ × ℕ)
      (batch : TrainBatch) (c : Cluster X)
      → length records ≡ size
      → counts.0 ≡ size
      → size ≤ counts.1
      → StepReported size index current (train_on a w config index records current counts batch c)
  unfolding train_on
  train_on-StepReported size index records current (accepts, generated) batch c l e g =
      bind_outcome (StepReported size index current) (run_train_step a w config batch current) _ c
        (λ e d. tt) (λ (stats, active) d _. (refl, refl, l, e, g))

  -- What follows the rollout of a step.
  after_rollout :
      (index b : ℕ) (records : List PromptRecord) (current : WeightMeta) (rolled : Option (ℕ × ℕ))
      (d : Cluster X)
      → length records ≡ config.global_batch_size
      → Rolled (length records) b (ok rolled, d)
      → StepReported config.global_batch_size index current (
          (do
            counts ← or_error out_of_rounds rolled
            raise_if
                (ltb counts.0 config.global_batch_size)
                (not_enough_samples counts.0 config.global_batch_size)
            reserved ← reserve_train_batch a w config current config.global_batch_size
            batch ← or_error (no_batch index) reserved
            train_on a w config index records current counts batch)
            d)
  after_rollout index b records current none d l h = absurd h
  after_rollout index b records current (some (accepts, generated)) d l (e, le, few) =
      let size = config.global_batch_size in
      let P = StepReported {X = X} size index current in
      elim (Bool-cases (ltb accepts size)) [
        | inl short ↦ rw short tt
        | inr enough ↦
            let at_least : size ≤ accepts = ground (arith, enough) in
            let reported =
              bind_outcome P (reserve_train_batch a w config current size) _ d (λ e f. tt)
                (λ reserved f _.
                  bind_outcome P (or_error (no_batch index) reserved) _ f (λ e g. tt)
                    (λ batch g _.
                      train_on-StepReported size index records current (accepts, generated) batch g
                        l (omega (arith, l, few, at_least)) (omega (arith, le, at_least)))) in
            rw enough reported
      ]

  train_step-StepReported :
      (index : ℕ) (records : List PromptRecord) (current : WeightMeta) (c : Cluster X)
      → length records ≡ config.global_batch_size
      → StepReported config.global_batch_size index current
          (train_step a w config index records current c)
  unfolding train_step
  train_step-StepReported index records current c l =
      let b = length records + length (backlog c) in
      bind_outcome (StepReported config.global_batch_size index current)
        (run_rollout_step a w config records current index) _ c (λ e d. tt)
        (λ rolled d h. after_rollout index b records current rolled d l (
          subst (Rolled (length records) b) h
            (run_rollout_step-Rolled a w config records current index c)))

  one_more_step :
      (left index : ℕ) (current : WeightMeta) (s : TrainStep)
      (x : Result TrainingError (List TrainStep) × Cluster X)
      → Reported config.global_batch_size index current s
      → StepsChained config.global_batch_size left (index + 1) s.published_weight x
      → StepsChained config.global_batch_size
          (suc left)
          index
          current
          (continue x.0 (λ later. pure (s ∷ later)) x.1)
  one_more_step left index current s (ok ss, d) r (l, chained) = (ap suc l, (r, chained))
  one_more_step left index current s (err e, d) r h = tt

  -- A step on the records that are dealt, when the steps that are left report rightly.
  Dealt-StepsChained :
      (left index : ℕ) (current : WeightMeta) (c : Cluster X)
      (x : Result TrainingError (List PromptRecord) × PromptBatcher)
      → Dealt config.global_batch_size x
      → ((b : PromptBatcher) (next : WeightMeta) (d : Cluster X)
          → IsFilled b
          → StepsChained config.global_batch_size left
              (index + 1)
              next
              (train_steps a w config left (index + 1) b next d))
      → StepsChained config.global_batch_size (suc left) index current (
          (do
            records ← of_result x.0
            step ← train_step a w config index records current
            later ← train_steps a w config left (index + 1) x.1 step.published_weight
            pure (step ∷ later))
            c)
  Dealt-StepsChained left index current c (err e, b) h ends = tt
  Dealt-StepsChained left index current c (ok records, b) (l, still) ends =
      let size = config.global_batch_size in
      bind_outcome (StepsChained size (suc left) index current)
        (train_step a w config index records current) _ c (λ e d. tt)
        (λ s d h.
          one_more_step left index current s
            (train_steps a w config left (index + 1) b s.published_weight d)
            (subst (StepReported size index current) h
              (train_step-StepReported index records current c l))
            (ends b s.published_weight d still))

  train_steps-StepsChained :
      (left index : ℕ) (batcher : PromptBatcher) (current : WeightMeta) (c : Cluster X)
      → IsFilled batcher
      → StepsChained config.global_batch_size left index current
          (train_steps a w config left index batcher current c)
  unfolding train_steps
  train_steps-StepsChained zero index batcher current c filled = (refl, tt)
  train_steps-StepsChained (suc left) index batcher current c filled =
      Dealt-StepsChained left index current c (next_records config.global_batch_size batcher)
        (next_records-Dealt config.global_batch_size batcher filled)
        (λ b next d. train_steps-StepsChained left (index + 1) b next d)

  completed :
      (initial : WeightMeta) (x : Result TrainingError (List TrainStep) × Cluster X)
      → StepsChained config.global_batch_size config.max_steps 0 initial x
      → Completed config (
          continue x.0
            (λ steps.
              on_handles (trainer_actor_states a w config config.gpu_plan.trainer_ranks)
              >>= λ states. pure (record {
                initial_weight = initial;
                final_weight = last_weight initial steps;
                steps = steps;
                trainer_states = states;
              }))
            x.1)
  completed initial (ok steps, d) (l, chained) =
      bind_outcome (Completed config)
        (on_handles (trainer_actor_states a w config config.gpu_plan.trainer_ranks)) _ d (λ e f. tt)
        (λ states f _. (l, refl, chained))
  completed initial (err e, d) h = tt

  -- Whatever the actors do and the source of the prompts gives: a run that does not raise has made
  -- `max_steps` steps, numbered from 1. In each of them as many prompts are submitted as
  -- `global_batch_size` says, exactly so many samples are accepted and no fewer generated, and its
  -- policy version is that of the weights the step before it published, at first of the initial
  -- weights. The final weights are those of the last step, or without a step the initial ones.
  pub run-Completed :
      (source : Result BuildError (List PromptRecord)) (c : Cluster X)
      → Completed config (run a w config source c)
  unfolding run
  run-Completed source c = made (from_config source total) (from_config-Made source total)
    where
      total : ℕ
      total = config.global_batch_size * config.max_steps

      made :
          (r : Result TrainingError PromptBatcher)
          → Made r
          → Completed config (
              (do
                batcher ← of_result r
                initial ← bootstrap_initial_weight a w config
                steps ← train_steps a w config config.max_steps 0 batcher initial
                states ← on_handles (trainer_actor_states a w config config.gpu_plan.trainer_ranks)
                pure (record {
                  initial_weight = initial;
                  final_weight = last_weight initial steps;
                  steps = steps;
                  trainer_states = states;
                }))
                c)
      made (err e) h = tt
      made (ok batcher) filled =
          bind_outcome (Completed config) (bootstrap_initial_weight a w config) _ c (λ e d. tt)
            (λ initial d _.
              completed initial (train_steps a w config config.max_steps 0 batcher initial d)
                (train_steps-StepsChained config.max_steps 0 batcher initial d filled))
