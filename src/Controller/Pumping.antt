-- ===== src/Controller/Pumping.antt =====
-- `submit_prompts`, `pump_rollout` and `pump_rollout_until_blocked` of nano_rl/runtime/controller.py.
use nano_rl.Prelude.{
  ℕ, zero, suc, ◌+◌, ◌-◌, String, Bool, true, false, Option, none, some, List, [], ◌∷◌, ◌++◌, map,
  length, ltb, if◌then◌else◌,
}
use nano_rl.Prelude.Equality.{string_eq}
use nano_rl.Prelude.Exec.{Result, ok, err, pure, raise, gets, ◌>>=◌, ◌>>◌}
use nano_rl.Protocols.{WeightMeta, SampleRecord}
use nano_rl.SampleQueue as Queue
use nano_rl.Coordinators as Coordinators
use nano_rl.Coordinators.{QueuedPrompt, GenerationRequest, enqueue_prompts, dispatch_from_backlog}
use nano_rl.Roles.{RoleError}
use nano_rl.Roles.Generating.{generate}
use nano_rl.Controller.{World, Controller, Action, on_rollout, with_queue, tick, of_role}
use nano_rl.Controller.Activating.{bootstrap_initial_weight, role_at, leases_for_replica}

abbrev queued : String → Result Coordinators.CoordinatorError QueuedPrompt
queued prompt = ok (record { prompt = prompt; metadata = [] })

pub submit_prompts : List String → Action ℕ
submit_prompts prompts = on_rollout (enqueue_prompts (map queued prompts))

abbrev pub weight_or_bootstrap : World → Option WeightMeta → Action WeightMeta
weight_or_bootstrap w (some weight) = pure weight
weight_or_bootstrap w none = bootstrap_initial_weight w

-- `_output_queue_depth`
abbrev pub output_queue_depth : Controller → ℕ
output_queue_depth c =
    let stats = Queue.stats c.sample_queue in stats.pending + stats.reserved_samples

abbrev pub of_generate : Result RoleError SampleRecord → Action SampleRecord
of_generate (ok s) = pure s
of_generate (err e) = raise (of_role e)

-- One round of the loop of `pump_rollout`. The sample's object is the tick it was made at.
unfoldable pub serve : World → ℕ → GenerationRequest → Action SampleRecord
serve w version request = do
  role ← role_at request.replica_id
  leases ← leases_for_replica role
  t ← tick
  sample ← of_generate (generate w.roles (w.clock t) request leases role)
  on_rollout (Coordinators.complete_request request.request_id)
  u ← tick
  with_queue (Queue.submit_sample sample version (some t) (w.clock u))
  pure sample

unfoldable pub serve_all : World → ℕ → List GenerationRequest → Action (List SampleRecord)
serve_all w version [] = pure []
serve_all w version (request ∷ requests) = do
  sample ← serve w version request
  samples ← serve_all w version requests
  pure (sample ∷ samples)

-- `pump_rollout` with a weight that is given.
unfoldable pub pump_with : World → WeightMeta → ℕ → Option ℕ → Action (List SampleRecord)
unfolding serve_all
pump_with w weight step max_new_requests = do
  depth ← gets output_queue_depth
  watermark ← gets (λ c. c.launch_config.queue_high_watermark)
  t ← tick
  requests ←
      on_rollout
        (dispatch_from_backlog (w.hexes t) weight.version_id step depth watermark max_new_requests)
  serve_all w weight.version_id requests

unfoldable pub pump_rollout : World → Option WeightMeta → ℕ → Option ℕ → Action (List SampleRecord)
unfolding pump_with
pump_rollout w current_weight step max_new_requests = do
  weight ← weight_or_bootstrap w current_weight
  pump_with w weight step max_new_requests

abbrev pub wants_more : Option ℕ → ℕ → Bool
wants_more none n = true
wants_more (some total) n = ltb n total

abbrev pub remaining : Option ℕ → ℕ → Option ℕ
remaining none n = none
remaining (some total) n = some (total - n)

abbrev pub is_empty : List SampleRecord → Bool
is_empty [] = true
is_empty (x ∷ xs) = false

-- The loop of `pump_rollout_until_blocked`, in at most as many rounds as the first number says; `none`
-- when they do not suffice.
unfoldable pub pump_loop :
    ℕ → World → WeightMeta → ℕ → Option ℕ → List SampleRecord → Action (Option (List SampleRecord))
unfolding pump_with
pump_loop zero w weight step max_total samples = pure none
pump_loop (suc rounds) w weight step max_total samples =
    if wants_more max_total (length samples)
    then (do
      tick_samples ← pump_with w weight step (remaining max_total (length samples))
      if is_empty tick_samples
          then pure (some samples)
          else pump_loop rounds w weight step max_total (samples ++ tick_samples))
    else pure (some samples)

-- A round that is not the last one takes a prompt from the backlog.
abbrev pub enough_rounds : Controller → ℕ
enough_rounds c = suc (length c.rollout_manager.input_backlog)

unfoldable pub pump_rollout_until_blocked :
    World → Option WeightMeta → ℕ → Option ℕ → Action (Option (List SampleRecord))
unfolding pump_loop
pump_rollout_until_blocked w current_weight step max_total = do
  weight ← weight_or_bootstrap w current_weight
  rounds ← gets enough_rounds
  pump_loop rounds w weight step max_total []
