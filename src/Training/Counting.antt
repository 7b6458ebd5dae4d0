-- ===== src/Training/Counting.antt =====
-- What the requests of a round of nano_rl/runtime/ray/training.py leave as it is, and how many of their
-- samples are accepted.
use nano_rl.Prelude.{
  ℕ, suc, ◌+◌, ◌≤◌, String, ◌≡◌, refl, Option-cases, List, [], ◌∷◌, length, arith, inl, inr,
}
use nano_rl.Prelude.Equality.{string_eq}
use nano_rl.Prelude.Exec.{Result, ok, err, pure, continue, ◌>>=◌}
use nano_rl.Prelude.Dict.{lookup}
use nano_rl.Protocols.{SampleRecord}
use nano_rl.SampleQueue.{QueueDecision}
use nano_rl.Coordinators.{RolloutManager, QueuedPrompt, GenerationRequest, complete_request}
use nano_rl.Training.{
  World, Actors, Cluster, TrainingConfig, TrainingError, on_handles, on_rollout, get_all,
}
use nano_rl.Training.Windows.{leases_of}
use nano_rl.Training.Rollouts.{
  start_requests, finish_requests, submit, serve_requests, count_accepted,
}

abbrev pub backlog : {X : Type 0} → Cluster X → List QueuedPrompt
backlog c = c.handles.rollout_manager.input_backlog

count_accepted_le : (d : QueueDecision) → count_accepted d ≤ 1
count_accepted_le d = ground arith

complete_backlog :
    (id : String) (m : RolloutManager) → (complete_request id m).1.input_backlog ≡ m.input_backlog
unfolding complete_request
complete_backlog id m = elim (Option-cases (lookup id m.in_flight)) [
  | inl e ↦ rw e refl
  | inr (r, e) ↦ rw e refl
]

-- The outcome of a bind, by the outcome of its first part.
pub bind_outcome :
    {S A B : Type 0} (P : Result TrainingError B × S → Type 0)
    (act : S → Result TrainingError A × S) (k : A → S → Result TrainingError B × S) (c : S)
    → ((e : TrainingError) (d : S) → P (err e, d))
    → ((x : A) (d : S) → act c ≡ (ok x, d) → P (k x d))
    → P ((act >>= k) c)
bind_outcome {S} {A} P act k c failed went = from (act c) refl
  where
    from : (r : Result TrainingError A × S) → act c ≡ r → P (continue r.0 k r.1)
    from (ok x, d) h = went x d h
    from (err e, d) h = failed e d

-- A count that is at most this.
abbrev pub Counts : {X : Type 0} → ℕ → Result TrainingError ℕ × Cluster X → Type 0
Counts limit (ok n, d) = n ≤ limit
Counts limit (err e, d) = Unit

module _ {X : Type 0} where
  leases_of_handles :
      (gs : List ℕ) (hs : List String) (c : Cluster X) → (leases_of gs hs c).1.handles ≡ c.handles
  unfolding leases_of
  leases_of_handles [] [] c = refl
  leases_of_handles [] (h ∷ hs) c = refl
  leases_of_handles (g ∷ gs) [] c = refl
  leases_of_handles (g ∷ gs) (h ∷ hs) c = grind (arith, leases_of_handles gs hs)

  submit_handles :
      (w : World) (version : ℕ) (sample : SampleRecord) (a : Actors X) (config : TrainingConfig)
      (c : Cluster X)
      → backlog (submit a w config version sample c).1 ≡ backlog c
  unfolding submit
  submit_handles w version sample a config c = grind arith

  module _ (a : Actors X) (w : World) (config : TrainingConfig) where
    backlog-start_requests :
        (requests : List GenerationRequest) (c : Cluster X)
        → backlog (start_requests a w config requests c).1 ≡ backlog c
    unfolding start_requests
    backlog-start_requests [] c = refl
    backlog-start_requests (r ∷ rs) c = grind (arith, leases_of_handles, backlog-start_requests rs)

    backlog-finish_requests :
        (version : ℕ) (requests : List GenerationRequest) (samples : List SampleRecord)
        (c : Cluster X)
        → backlog (finish_requests a w config version requests samples c).1 ≡ backlog c
    unfolding finish_requests
    backlog-finish_requests version [] [] c = refl
    backlog-finish_requests version [] (s ∷ ss) c = refl
    backlog-finish_requests version (r ∷ rs) [] c = refl
    backlog-finish_requests version (r ∷ rs) (s ∷ ss) c = grind (
      arith,
      complete_backlog r.request_id,
      λ (d : Cluster X). submit_handles w version s a config d,
      backlog-finish_requests version rs ss,
    )

    pub backlog-serve_requests :
        (version : ℕ) (requests : List GenerationRequest) (c : Cluster X)
        → backlog (serve_requests a w config version requests c).1 ≡ backlog c
    unfolding serve_requests
    backlog-serve_requests version requests c =
        grind (arith, backlog-start_requests requests, backlog-finish_requests version requests)

    one_more :
        (decision : QueueDecision) (limit : ℕ) (x : Result TrainingError ℕ × Cluster X)
        → Counts limit x
        → Counts (suc limit) (continue x.0 (λ more. pure (count_accepted decision + more)) x.1)
    one_more decision limit (ok more, d) h = omega (arith, h, count_accepted_le decision)
    one_more decision limit (err e, d) h = tt

    finish_requests-Counts :
        (version : ℕ) (requests : List GenerationRequest) (samples : List SampleRecord)
        (c : Cluster X)
        → Counts (length requests) (finish_requests a w config version requests samples c)
    unfolding finish_requests
    finish_requests-Counts version [] [] c = omega arith
    finish_requests-Counts version [] (s ∷ ss) c = tt
    finish_requests-Counts version (r ∷ rs) [] c = tt
    finish_requests-Counts version (r ∷ rs) (s ∷ ss) c =
        bind_outcome (Counts (suc (length rs)))
          (on_handles (on_rollout (complete_request r.request_id))) _ c (λ e d. tt)
          (λ u d _.
            bind_outcome (Counts (suc (length rs))) (submit a w config version s) _ d (λ e f. tt)
              (λ decision f _.
                one_more decision (length rs) (finish_requests a w config version rs ss f)
                  (finish_requests-Counts version rs ss f)))

    pub serve_requests-Counts :
        (version : ℕ) (requests : List GenerationRequest) (c : Cluster X)
        → Counts (length requests) (serve_requests a w config version requests c)
    unfolding serve_requests
    serve_requests-Counts version requests c =
        bind_outcome (Counts (length requests)) (start_requests a w config requests) _ c (λ e d. tt)
          (λ refs d _.
            bind_outcome (Counts (length requests)) (on_handles (get_all refs)) _ d (λ e f. tt)
              (λ samples f _. finish_requests-Counts version requests samples f))
