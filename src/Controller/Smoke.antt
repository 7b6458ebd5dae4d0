-- ===== src/Controller/Smoke.antt =====
-- `run_smoke_iteration` of nano_rl/runtime/controller.py: one iteration from the prompts to the
-- activation of the new weights.
use Prim.Native.String.{◌++◌ as str_append}
use nano_rl.Prelude.{ℕ, ◌+◌, String, true, Option, none, some, List, [], ◌∷◌, map, length}
use nano_rl.Prelude.Equality.{nat_eq, string_eq}
use nano_rl.Prelude.Exec.{Result, ok, pure, raise, gets, ◌>>=◌, ◌>>◌}
use nano_rl.Prelude.Dict.{lookup, insert}
use nano_rl.Slot.Names.{trainer}
use nano_rl.Slot.Types.{GpuLease, GpuLeaseState}
use nano_rl.Slot.Lease as Lease
use nano_rl.Protocols.{WeightMeta, SampleRecord, TrainBatch}
use nano_rl.SampleQueue as Queue
use nano_rl.WeightRegistry as Registry
use nano_rl.WeightTransfer.{sorted}
use nano_rl.Coordinators.Trainers as Trainers
use nano_rl.Roles.{TrainerRank}
use nano_rl.Roles.Ranks.{TrainStats, optimize, export_weight}
use nano_rl.Metrics.{EventSeverity}
use nano_rl.Controller.{
  World, Controller, ControllerError, Action, lifted, on_leases, on_queue, on_registry, with_queue,
  or_error, attempt, tick, emit_event, trainer_holder, of_role, no_rank, no_assigned_gpu,
  no_train_batch, no_prompts, not_rank_zero,
}
use nano_rl.Controller.Windows.{enter_train_window, return_to_rollout}
use nano_rl.Controller.Activating.{bootstrap_initial_weight, activate_weight_for_rollout}
use nano_rl.Controller.Pumping.{submit_prompts, pump_rollout_until_blocked}

-- `self.trainer_ranks[rank]`
abbrev rank_at : ℕ → Action TrainerRank
rank_at rank c = or_error (no_rank rank) (lookup rank c.trainer_ranks) c

abbrev lease_for : World → TrainerRank → Option ℕ → Action GpuLease
lease_for w t none = raise (no_assigned_gpu t.rank)
lease_for w t (some gpu) =
    on_leases (Lease.current_lease trainer gpu (some (trainer_holder w t.rank)))

-- `_trainer_lease_for_rank`
pub trainer_lease_for_rank : World → TrainerRank → Action GpuLease
trainer_lease_for_rank w t = lease_for w t t.gpu_id

-- One round of the loop over `sorted(self.trainer_ranks)`.
pub optimize_rank : World → TrainBatch → ℕ → Action TrainStats
unfolding trainer_lease_for_rank
optimize_rank w batch rank = do
  t ← rank_at rank
  lease ← trainer_lease_for_rank w t
  λ c.
      lifted of_role (λ r d. record d { trainer_ranks = insert rank r d.trainer_ranks })
        (optimize batch (trainer_holder w t.rank) lease t) c

pub optimize_all : World → TrainBatch → List ℕ → Action (List TrainStats)
unfolding optimize_rank
optimize_all w batch [] = pure []
optimize_all w batch (rank ∷ ranks) = do
  stats ← optimize_rank w batch rank
  later ← optimize_all w batch ranks
  pure (stats ∷ later)

abbrev rank_key : ℕ × TrainerRank → ℕ
rank_key (rank, t) = rank

abbrev export_text : World → WeightMeta → TrainerRank → String
export_text w parent t = str_append parent.checksum (
    str_append ":" (
      str_append (w.roles.decimal (parent.version_id + 1))
        (str_append ":" (w.roles.decimal t.train_step))))

pub export : World → WeightMeta → Action WeightMeta
export w parent = do
  t ← rank_at 0
  now ← tick
  or_error not_rank_zero (
      export_weight parent true (w.hexdigest (export_text w parent t)) (w.clock now)
        (trainer_holder w t.rank) t)

abbrev batch_empty : World → Action (List TrainStats × WeightMeta)
batch_empty w = do
  emit_event w "TRAIN_BATCH_EMPTY" EventSeverity.warning none
  return_to_rollout w
  raise no_train_batch

-- The body of the `try` from the reserved batch on.
pub train : World → WeightMeta → Option TrainBatch → Action (List TrainStats × WeightMeta)
unfolding optimize_all export
train w parent none = batch_empty w
train w parent (some batch) = do
  ranks ← gets (λ c. sorted (map rank_key c.trainer_ranks))
  stats ← optimize_all w batch ranks
  weight ← export w parent
  registered ← on_registry (Registry.register weight)
  on_queue (Queue.ack_batch batch.train_batch_id)
  pure (stats, registered)

abbrev swallowed :
    Result ControllerError (Unit {0}) × Controller → Result ControllerError (Unit {0}) × Controller
swallowed (r, c) = (ok tt, c)

-- `_release_batch_safely`; all that `release_batch` raises is a `QueueError`.
pub release_batch_safely : String → Action (Unit {0})
release_batch_safely id c = swallowed (on_queue (Queue.release_batch id) c)

-- The body of the `except`.
pub clean_up : World → Option TrainBatch → Action (Unit {0})
unfolding release_batch_safely
clean_up w none = do return_to_rollout w; pure tt
clean_up w (some batch) = do release_batch_safely batch.train_batch_id; return_to_rollout w; pure tt

abbrev pub reserve : World → WeightMeta → ℕ → Action (Option TrainBatch)
reserve w weight sequences = do
  t ← tick
  coordinator ← gets (λ c. c.trainer_coordinator)
  with_queue (
      Trainers.reserve_batch w.roles.decimal coordinator weight.version_id sequences none
        (w.clock t) (w.hexes t 0))

-- What the returned dict is made of.
pub record SmokeReport : Type 0 where
  pub initial_weight : WeightMeta
  pub new_weight : WeightMeta
  pub samples : List SampleRecord
  pub train_batch : Option TrainBatch
  pub train_stats : List TrainStats
  pub train_window_states : List GpuLeaseState
  pub rollout_states : List GpuLeaseState
  pub queue : Queue.Stats

-- The samples of the pump, which has rounds enough.
abbrev samples_of : Option (List SampleRecord) → List SampleRecord
samples_of none = []
samples_of (some samples) = samples

abbrev iterate : World → List String → Action SmokeReport
iterate w prompts = do
  current ← bootstrap_initial_weight w
  submit_prompts prompts
  pumped ← pump_rollout_until_blocked w (some current) 0 (some (length prompts))
  window ← enter_train_window w
  batch ← reserve w current (length (samples_of pumped))
  trained ← attempt (train w current batch) (λ e. clean_up w batch)
  rollout_states ← return_to_rollout w
  active ← activate_weight_for_rollout w trained.1
  stats ← gets (λ c. Queue.stats c.sample_queue)
  pure (record {
    initial_weight = current;
    new_weight = active;
    samples = samples_of pumped;
    train_batch = batch;
    train_stats = trained.0;
    train_window_states = window;
    rollout_states = rollout_states;
    queue = stats;
  })

pub run_smoke_iteration : World → List String → Action SmokeReport
unfolding train clean_up
run_smoke_iteration w [] = raise no_prompts
run_smoke_iteration w (prompt ∷ prompts) = iterate w (prompt ∷ prompts)
