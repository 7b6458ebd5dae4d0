-- ===== src/Training/Runs.antt =====
-- `run` of nano_rl/runtime/ray/training.py. Of the report, the dumps of the actors' tables are left out.
use nano_rl.Prelude.{ℕ, zero, suc, ◌+◌, ◌*◌, String, Option, List, [], ◌∷◌, length, ltb}
use nano_rl.Prelude.Exec.{Result, pure, gets, raise_if, ◌>>=◌, ◌>>◌}
use nano_rl.Slot.Types.{TrainerRankSpec}
use nano_rl.Protocols.{WeightMeta, TrainBatch}
use nano_rl.WeightTransfer.{WeightTransferPlan}
use nano_rl.WeightStore.Values.{Value}
use nano_rl.DataSources.{PromptRecord}
use nano_rl.DataSources.Building.{BuildError}
use nano_rl.Training.{
  World, Actors, TrainingConfig, Action, Local, on_handles, start, get_all, or_error, out_of_rounds,
  no_batch, not_enough_samples,
}
use nano_rl.Training.Trainers.{start_on_ranks}
use nano_rl.Training.Weights.{of_result, bootstrap_initial_weight}
use nano_rl.Training.Batching.{PromptBatcher, from_config, next_records}
use nano_rl.Training.Rollouts.{run_rollout_step, reserve_train_batch}
use nano_rl.Training.Steps.{run_train_step}

-- An entry of `steps`.
pub record TrainStep : Type 0 where
  pub step : ℕ
  pub policy_version_before : ℕ
  pub prompts_submitted : ℕ
  pub samples_generated : ℕ
  pub samples_accepted : ℕ
  pub train_batch_id : String
  pub train_batch_sequences : ℕ
  pub train_batch_tokens : ℕ
  pub train_stats : List Value
  pub published_weight : WeightMeta
  pub weight_transfer_plan : Option WeightTransferPlan

pub record Report : Type 0 where
  pub initial_weight : WeightMeta
  pub final_weight : WeightMeta
  pub steps : List TrainStep
  pub trainer_states : List Value

-- `current_weight` after the steps.
abbrev pub last_weight : WeightMeta → List TrainStep → WeightMeta
last_weight current [] = current
last_weight current (s ∷ ss) = last_weight s.published_weight ss

module _ {X : Type 0} (a : Actors X) (w : World) (config : TrainingConfig) where
  -- From the batch on.
  unfoldable pub train_on :
      ℕ → List PromptRecord → WeightMeta → ℕ × ℕ → TrainBatch → Action X TrainStep
  train_on index records current (accepts, generated) batch = do
    (train_stats, active) ← run_train_step a w config batch current
    plan ← on_handles (gets (λ h. h.last_weight_transfer_plan))
    pure (record {
      step = index + 1;
      policy_version_before = current.version_id;
      prompts_submitted = length records;
      samples_generated = generated;
      samples_accepted = accepts;
      train_batch_id = batch.train_batch_id;
      train_batch_sequences = batch.num_sequences;
      train_batch_tokens = batch.num_tokens;
      train_stats = train_stats;
      published_weight = active;
      weight_transfer_plan = plan;
    })

  -- The body of the loop, after the prompts.
  unfoldable pub train_step : ℕ → List PromptRecord → WeightMeta → Action X TrainStep
  unfolding train_on
  train_step index records current = do
    rolled ← run_rollout_step a w config records current index
    counts ← or_error out_of_rounds rolled
    raise_if (ltb counts.0 config.global_batch_size)
        (not_enough_samples counts.0 config.global_batch_size)
    reserved ← reserve_train_batch a w config current config.global_batch_size
    batch ← or_error (no_batch index) reserved
    train_on index records current counts batch

  -- The loop, for so many more steps.
  unfoldable pub train_steps : ℕ → ℕ → PromptBatcher → WeightMeta → Action X (List TrainStep)
  unfolding train_step
  train_steps zero index batcher current = pure []
  train_steps (suc left) index batcher current = do
    records ← of_result (next_records config.global_batch_size batcher).0
    step ← train_step index records current
    later ←
        train_steps left (index + 1) (next_records config.global_batch_size batcher).1
          step.published_weight
    pure (step ∷ later)

  -- `_trainer_actor_states`
  unfoldable pub trainer_actor_states : List TrainerRankSpec → Local X (List Value)
  trainer_actor_states ranks = do
    refs ← start_on_ranks a (λ r. start (a.rank_state r.rank)) ranks
    get_all refs

  -- `run`, on what `build_prompt_source` gives.
  unfoldable pub run : Result BuildError (List PromptRecord) → Action X Report
  unfolding train_steps trainer_actor_states
  run source = do
    batcher ← of_result (from_config source (config.global_batch_size * config.max_steps))
    initial ← bootstrap_initial_weight a w config
    steps ← train_steps config.max_steps 0 batcher initial
    states ← on_handles (trainer_actor_states config.gpu_plan.trainer_ranks)
    pure (record {
      initial_weight = initial;
      final_weight = last_weight initial steps;
      steps = steps;
      trainer_states = states;
    })
