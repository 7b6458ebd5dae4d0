-- ===== src/Training/Rollouts.antt =====
-- `_run_rollout_step` and `_reserve_train_batch` of nano_rl/runtime/ray/training.py.
use nano_rl.Prelude.{
  ℕ, zero, suc, ◌+◌, ◌-◌, String, Bool, true, false, Option, none, some, List, [], ◌∷◌, map, length,
  ltb, if◌then◌else◌,
}
use nano_rl.Prelude.Equality.{◌==◌, string_eq}
use nano_rl.Prelude.Exec.{Result, ok, pure, raise, gets, ◌>>=◌, ◌>>◌}
use nano_rl.Slot.Types.{RolloutReplicaSpec}
use nano_rl.Protocols.{WeightMeta, TrainBatch, SampleRecord}
use nano_rl.SampleQueue as Queue
use nano_rl.SampleQueue.{QueueDecision, accepted}
use nano_rl.Coordinators.{GenerationRequest, dispatch_from_backlog, complete_request}
use nano_rl.Coordinators.Coercing.{enqueue_values}
use nano_rl.WeightStore.Values.{Value, text, mapping, end, entry}
use nano_rl.DataSources.{PromptRecord}
use nano_rl.Training.{
  World, Actors, Cluster, TrainingConfig, Action, Local, on_queue, on_handles, on_rollout, tick,
  start, get_all, or_error, unknown_replica, lengths_differ,
}
use nano_rl.Training.Windows.{leases_for_replica}

-- `_prompt_payload`
abbrev pub prompt_payload : PromptRecord → Value
prompt_payload r = mapping (
    entry "prompt_id" (text r.prompt_id)
      (entry "prompt" (text r.prompt) (entry "metadata" (mapping r.metadata) end)))

-- `_rollout_replica`
pub rollout_replica : String → List RolloutReplicaSpec → Option RolloutReplicaSpec
rollout_replica replica_id [] = none
rollout_replica replica_id (r ∷ rs) =
    if r.replica_id == replica_id then some r else rollout_replica replica_id rs

-- `result["accepted"]`, as a number
abbrev pub count_accepted : QueueDecision → ℕ
count_accepted accepted = 1
count_accepted _ = 0

abbrev pub is_empty : List GenerationRequest → Bool
is_empty [] = true
is_empty (r ∷ rs) = false

module _ {X : Type 0} where
  -- A method of the queue that raises nothing.
  abbrev pub with_queue : {A : Type 0} → (Queue.SampleQueue → A × Queue.SampleQueue) → Action X A
  with_queue act = on_queue (λ q. let (a, p) = act q in (ok a, p))

  abbrev pub output_depth : Cluster X → ℕ
  output_depth c = let stats = Queue.stats c.sample_queue in stats.pending + stats.reserved_samples

module _ {X : Type 0} (a : Actors X) (w : World) (config : TrainingConfig) where
  -- The loop that starts a generation for each request.
  unfoldable pub start_requests :
      List GenerationRequest → Action X (List (Result String SampleRecord))
  unfolding rollout_replica
  start_requests [] = pure []
  start_requests (request ∷ requests) = do
    replica ←
        or_error (unknown_replica request.replica_id)
          (rollout_replica request.replica_id config.gpu_plan.rollout_replicas)
    leases ← leases_for_replica replica
    started ← on_handles (start (a.generate replica.replica_id request leases))
    later ← start_requests requests
    pure (started ∷ later)

  -- `submit_sample`; the sample's object is the tick it is submitted at.
  unfoldable pub submit : ℕ → SampleRecord → Action X QueueDecision
  submit version sample = do
    t ← on_handles tick
    with_queue (Queue.submit_sample sample version (some t) (w.clock t))

  -- The loop over the requests and their samples, and how many of these are accepted.
  unfoldable pub finish_requests : ℕ → List GenerationRequest → List SampleRecord → Action X ℕ
  unfolding submit
  finish_requests version [] [] = pure 0
  finish_requests version (request ∷ requests) (sample ∷ samples) = do
    on_handles (on_rollout (complete_request request.request_id))
    decision ← submit version sample
    more ← finish_requests version requests samples
    pure (count_accepted decision + more)
  finish_requests version _ _ = raise lengths_differ

  -- The requests of a round, when the queue is so deep.
  abbrev pub dispatch : ℕ → ℕ → ℕ → ℕ → Local X (List GenerationRequest)
  dispatch version step depth limit = do
    t ← tick
    on_rollout (
        dispatch_from_backlog (w.hexes t) version step depth config.queue_high_watermark
          (some limit))

  -- The generation of the requests, and what follows for each.
  unfoldable pub serve_requests : ℕ → List GenerationRequest → Action X ℕ
  unfolding start_requests finish_requests
  serve_requests version requests = do
    refs ← start_requests requests
    samples ← on_handles (get_all refs)
    finish_requests version requests samples

  -- The `while` loop, in at most as many rounds as the first number says: how many samples are accepted
  -- and generated; `none` when the rounds do not suffice.
  unfoldable pub rollout_loop : ℕ → ℕ → ℕ → ℕ → ℕ → ℕ → Action X (Option (ℕ × ℕ))
  unfolding serve_requests
  rollout_loop zero version step required accepts generated = pure none
  rollout_loop (suc rounds) version step required accepts generated =
      if ltb accepts required
      then (do
        depth ← gets output_depth
        requests ← on_handles (dispatch version step depth (required - accepts))
        if is_empty requests then pure (some (accepts, generated)) else (do
          more ← serve_requests version requests
          rollout_loop rounds version step required (accepts + more) (generated + length requests)))
      else pure (some (accepts, generated))

  -- A round that is not the last one takes a prompt from the backlog.
  abbrev pub enough_rounds : Cluster X → ℕ
  enough_rounds c = suc (length c.handles.rollout_manager.input_backlog)

  -- `_run_rollout_step`: how many samples are accepted and generated.
  unfoldable pub run_rollout_step : List PromptRecord → WeightMeta → ℕ → Action X (Option (ℕ × ℕ))
  unfolding rollout_loop
  run_rollout_step records weight step = do
    on_handles (on_rollout (enqueue_values w.objects (map prompt_payload records)))
    rounds ← gets enough_rounds
    rollout_loop rounds weight.version_id step (length records) 0 0

  -- `_reserve_train_batch`
  unfoldable pub reserve_train_batch : WeightMeta → ℕ → Action X (Option TrainBatch)
  reserve_train_batch weight max_sequences = do
    t ← on_handles tick
    with_queue (
        Queue.reserve_train_batch
          (record {
            reserved_by = "trainer-group-0";
            current_policy_version = weight.version_id;
            max_sequences = max_sequences;
            max_tokens = none;
            lease_ttl_sec = 300;
            now = w.clock t;
          })
          (w.hexes t t))
