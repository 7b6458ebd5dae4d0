-- ===== src/Training/Rolling.antt =====
-- That `_run_rollout_step` of nano_rl/runtime/ray/training.py comes to an end, and what it counts.
use mathlib.Core.Path.{subst}
use nano_rl.Prelude.{
  ℕ, zero, suc, ◌+◌, ◌-◌, ◌<◌, ◌≤◌, ◌≡◌, refl, sym, ap, ◌∙◌, Option, none, some, List, [], ◌∷◌, map,
  length, length-map, if_rule, ltb, arith, if◌then◌else◌,
}
use nano_rl.Prelude.Equality.{string_eq}
use nano_rl.Prelude.Exec.{Result, ok, err, pure, ◌>>=◌}
use nano_rl.Protocols.{WeightMeta}
use nano_rl.Coordinators.{RolloutManager, GenerationRequest, CoordinatorError}
use nano_rl.Coordinators.Taking.{Taken, dispatch_from_backlog-Taken}
use nano_rl.Coordinators.Coercing.{Enqueued, enqueue_values, enqueue_values-Enqueued}
use nano_rl.DataSources.{PromptRecord}
use nano_rl.Training.{
  World, Actors, Cluster, Handles, TrainingConfig, TrainingError, Action, lifted, on_handles,
  on_rollout, of_coordinator,
}
use nano_rl.Training.Rollouts.{
  serve_requests, rollout_loop, run_rollout_step, dispatch, is_empty, prompt_payload, output_depth,
}
use nano_rl.Training.Counting.{
  backlog, bind_outcome, Counts, backlog-serve_requests, serve_requests-Counts,
}

-- What the requests of a round take from the backlog, and how many they are.
abbrev Dispatches :
    {X : Type 0} → ℕ → ℕ → Result TrainingError (List GenerationRequest) × Cluster X → Type 0
Dispatches limit b (ok requests, d) =
    (b ≡ length requests + length (backlog d)) × (length requests ≤ limit)
Dispatches limit b (err e, d) = Unit

-- How many prompts wait.
abbrev Queues : {X : Type 0} → ℕ → Result TrainingError ℕ × Cluster X → Type 0
Queues n (ok k, d) = length (backlog d) ≡ n
Queues n (err e, d) = Unit

-- How the loop ends. `b` counts what was generated before and the prompts to come.
abbrev pub Rolled :
    {X : Type 0} → ℕ → ℕ → Result TrainingError (Option (ℕ × ℕ)) × Cluster X → Type 0
Rolled required b (ok none, d) = ⊥
Rolled required b (ok (some (accepts, generated)), d) =
    (generated + length (backlog d) ≡ b) × (accepts ≤ generated) × (accepts ≤ required)
Rolled required b (err e, d) = Unit

module _ {X : Type 0} where
  module _ (a : Actors X) (w : World) (config : TrainingConfig) where
    Taken-Dispatches :
        (limit : ℕ) (h : Handles X) (c : Cluster X) (m : RolloutManager)
        (x : Result CoordinatorError (List GenerationRequest) × RolloutManager)
        → Taken (some limit) m x
        → Dispatches limit (length m.input_backlog) (
            lifted
              (λ e. e)
              (λ s d. record d { handles = s })
              (lifted of_coordinator (λ s g. record g { rollout_manager = s }) x h)
              c)
    Taken-Dispatches limit h c m (ok requests, n) t = t
    Taken-Dispatches limit h c m (err e, n) t = tt

    dispatch-Dispatches :
        (version step depth limit : ℕ) (c : Cluster X)
        → Dispatches limit
            (length (backlog c))
            (on_handles (dispatch a w config version step depth limit) c)
    dispatch-Dispatches version step depth limit c =
        let m = c.handles.rollout_manager in
        let h = record c.handles { ticks = c.handles.ticks + 1 } in
        Taken-Dispatches limit h c m _ (
          dispatch_from_backlog-Taken (w.hexes c.handles.ticks) version step depth
            config.queue_high_watermark (some limit) m)

    -- A round, when the rounds that are left come to an end.
    round-Rolled :
        (version required accepts generated b : ℕ) (requests : List GenerationRequest)
        (next : ℕ → Action X (Option (ℕ × ℕ))) (d : Cluster X)
        → b ≡ length requests + length (backlog d)
        → length requests ≤ required - accepts
        → accepts ≤ generated
        → accepts ≤ required
        → ((more : ℕ) (e : Cluster X)
            → length (backlog e) < b
            → more ≤ length requests
            → Rolled required (generated + length requests + length (backlog e)) (next more e))
        → Rolled required (generated + b) (
            (if is_empty requests
                then pure (some (accepts, generated))
                else serve_requests a w config version requests >>= next)
              d)
    round-Rolled version required accepts generated b [] next d taken limit le few ends =
        (omega (arith, taken), le, few)
    round-Rolled version required accepts generated b (r ∷ rs) next d taken limit le few ends =
        bind_outcome (Rolled required (generated + b)) (serve_requests a w config version (r ∷ rs))
          next d (λ e f. tt)
          (λ more e h.
            let counted : more ≤ length (r ∷ rs) =
              subst (Counts (length (r ∷ rs))) h
                (serve_requests-Counts a w config version (r ∷ rs) d) in
            let same : length (backlog e) ≡ length (backlog d) =
              ap (λ x. length (backlog x.1)) (sym h)
              ∙ ap length (backlog-serve_requests a w config version (r ∷ rs) d) in
            subst (λ n. Rolled required n (next more e)) (omega (arith, taken, same))
              (ends more e (omega (arith, taken, same)) counted))

    rollout_loop-Rolled :
        (rounds version step required accepts generated : ℕ) (c : Cluster X)
        → length (backlog c) < rounds
        → accepts ≤ generated
        → accepts ≤ required
        → Rolled required
            (generated + length (backlog c))
            (rollout_loop a w config rounds version step required accepts generated c)
    unfolding rollout_loop
    rollout_loop-Rolled zero version step required accepts generated c enough le few =
        absurd (omega arith)
    rollout_loop-Rolled (suc rounds) version step required accepts generated c enough le few =
        if_rule
          (λ (act : Action X (Option (ℕ × ℕ))).
            Rolled required (generated + length (backlog c)) (act c))
          (ltb accepts required) _ _
          (λ _.
            bind_outcome (Rolled required (generated + length (backlog c)))
              (on_handles (dispatch a w config version step (output_depth c) (required - accepts)))
              _ c (λ e d. tt)
              (λ requests d h.
                let (taken, limit) =
                  subst (Dispatches (required - accepts) (length (backlog c))) h
                    (dispatch-Dispatches version step (output_depth c) (required - accepts) c) in
                round-Rolled version required accepts generated (length (backlog c)) requests
                  (λ more.
                    rollout_loop a w config rounds version step required (accepts + more)
                      (generated + length requests))
                  d taken limit le few
                  (λ more e fewer counted.
                    rollout_loop-Rolled rounds version step required (accepts + more)
                      (generated + length requests) e (omega (arith, fewer, enough))
                      (omega (arith, counted, le)) (omega (arith, counted, limit, few)))))
          (λ _. (refl, le, few))

    Enqueued-handled :
        (n : ℕ) (h : Handles X) (c : Cluster X) (x : Result CoordinatorError ℕ × RolloutManager)
        → Enqueued n x
        → Queues n (
            lifted
              (λ e. e)
              (λ s d. record d { handles = s })
              (lifted of_coordinator (λ s g. record g { rollout_manager = s }) x h)
              c)
    Enqueued-handled n h c (ok k, m) e = e
    Enqueued-handled n h c (err e, m) t = tt

    enqueue-Queues :
        (records : List PromptRecord) (c : Cluster X)
        → Queues
            (length records + length (backlog c))
            (on_handles (on_rollout (enqueue_values w.objects (map prompt_payload records))) c)
    enqueue-Queues records c =
        let m = c.handles.rollout_manager in
        Enqueued-handled (length records + length (backlog c)) c.handles c _ (
          subst (λ n. Enqueued n (enqueue_values w.objects (map prompt_payload records) m))
            (omega (arith, length-map prompt_payload records))
            (enqueue_values-Enqueued w.objects (map prompt_payload records) m))

    -- A rollout step comes to an end, whatever the actors do: the rounds that it is given suffice. When it
    -- does not raise, it has generated as many samples as its own prompts and those that waited before,
    -- less those that are left in the backlog; no more samples are accepted than are generated, nor than
    -- the step has prompts.
    pub run_rollout_step-Rolled :
        (records : List PromptRecord) (weight : WeightMeta) (step : ℕ) (c : Cluster X)
        → Rolled
            (length records)
            (length records + length (backlog c))
            (run_rollout_step a w config records weight step c)
    unfolding run_rollout_step
    run_rollout_step-Rolled records weight step c =
        let b = length records + length (backlog c) in
        bind_outcome (Rolled (length records) b)
          (on_handles (on_rollout (enqueue_values w.objects (map prompt_payload records)))) _ c
          (λ e d. tt)
          (λ u d h.
            let queued : length (backlog d) ≡ b = subst (Queues b) h (enqueue-Queues records c) in
            let all : 0 + length (backlog d) ≡ b = omega (arith, queued) in
            subst
              (λ n. Rolled (length records) n (
                rollout_loop a w config (suc (length (backlog d))) weight.version_id step
                  (length records) 0 0 d))
              all
              (rollout_loop-Rolled (suc (length (backlog d))) weight.version_id step
                (length records) 0 0 d (omega arith) (omega arith) (omega arith)))
