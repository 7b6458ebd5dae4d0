-- ===== src/Coordinators.antt =====
-- `RolloutManagerCore` of nano_rl/runtime/coordinators.py.
pub mod Scanning
pub mod Handing
pub mod Dispatching
pub mod Keeping
pub mod Taking
pub mod Coercing
pub mod Trainers
mod Tests
use nano_rl.Prelude.{
  ℕ, zero, suc, ◌+◌, ◌-◌, ◌*◌, min, String, Bool, true, false, Option, none, some, List, [], ◌∷◌,
  ◌++◌, ◌&&◌, map, length, ltb, leb, if◌then◌else◌,
}
use nano_rl.Prelude.Equality.{contains, ◌==◌, nat_eq, string_eq}
use nano_rl.Prelude.Exec.{
  Result, ok, err, Exec, pure, raise, gets, or_raise, raise_if, modify, ◌>>=◌, ◌>>◌,
}
use nano_rl.Prelude.Dict.{Dict, lookup, insert, erase, total}
use nano_rl.Slot.Types.{RolloutReplicaSpec, TrainerRankSpec}
use nano_rl.Protocols.{TrainBatch}
use nano_rl.SampleQueue.{SampleQueue, reserve_train_batch}
use Prim.Native.String.{◌++◌ as str_append}

-- `CoordinatorError`, with one constructor for each message.
pub data CoordinatorError : Type 0 where
  no_replicas no_trainer_ranks bad_in_flight : CoordinatorError
  -- of `_coerce_queued_prompt`
  bad_prompt prompt_not_text bad_metadata : CoordinatorError
  paused_for : String → CoordinatorError
  unknown_request : String → CoordinatorError
  -- the `KeyError` of `in_flight_by_replica`
  unknown_replica : CoordinatorError
  -- the `IndexError` of `popleft`
  backlog_empty : CoordinatorError

pub record QueuedPrompt : Type 0 where
  pub prompt : String
  pub metadata : Dict String ℕ

pub record GenerationRequest : Type 0 where
  pub request_id : String
  pub replica_id : String
  pub prompt : String
  pub target_policy_version : ℕ
  pub metadata : Dict String ℕ

pub record RolloutManager : Type 0 where
  pub replica_ids : List String
  -- what is left of the current round of `cycle(self.replica_ids)`
  pub ahead : List String
  pub max_in_flight_per_replica : ℕ
  pub input_backlog : List QueuedPrompt
  pub paused_reason : Option String
  pub in_flight : Dict String GenerationRequest

abbrev pub replica_id_of : RolloutReplicaSpec → String
replica_id_of r = r.replica_id

abbrev pub create_with : List String → ℕ → Result CoordinatorError RolloutManager
create_with [] cap = err no_replicas
create_with (r ∷ rs) cap =
    if ltb cap 1
    then err bad_in_flight
    else ok (record {
      replica_ids = r ∷ rs;
      ahead = r ∷ rs;
      max_in_flight_per_replica = cap;
      input_backlog = [];
      paused_reason = none;
      in_flight = [];
    })

-- `__init__`
pub create : List RolloutReplicaSpec → ℕ → Result CoordinatorError RolloutManager
create replicas cap = create_with (map replica_id_of replicas) cap

abbrev pub Action : Type 0 → Type 0
Action A = Exec RolloutManager CoordinatorError A

unfoldable pub pause_for_weight : String → Action (Unit {0})
pause_for_weight reason = modify (λ m. record m { paused_reason = some reason })

unfoldable pub resume : Action (Unit {0})
resume = modify (λ m. record m { paused_reason = none })

-- Each prompt comes as what `_coerce_queued_prompt` makes of it; a prompt that is refused ends the
-- loop, and those before it stay enqueued.
pub enqueue_prompts : List (Result CoordinatorError QueuedPrompt) → Action ℕ
enqueue_prompts [] m = (ok (length m.input_backlog), m)
enqueue_prompts (err e ∷ prompts) m = (err e, m)
enqueue_prompts (ok prompt ∷ prompts) m =
    enqueue_prompts prompts (record m { input_backlog = m.input_backlog ++ (prompt ∷ []) })

abbrev step_cycle : List String → List String → RolloutManager → Option String × RolloutManager
step_cycle (r ∷ rs) ids m = (some r, record m { ahead = rs })
step_cycle [] (r ∷ rs) m = (some r, record m { ahead = rs })
step_cycle [] [] m = (none, m)

-- `next(self._replica_cycle)`; there is always a replica.
pub next_replica : RolloutManager → Option String × RolloutManager
next_replica m = step_cycle m.ahead m.replica_ids m

abbrev pub on_replica : String → GenerationRequest → ℕ
on_replica replica_id request = if request.replica_id == replica_id then 1 else 0

-- `in_flight_by_replica` on a replica of the manager
abbrev pub load : String → Dict String GenerationRequest → ℕ
load replica_id d = total (on_replica replica_id) d

-- `in_flight_by_replica` finds each request's replica among these.
abbrev pub all_known : List String → Dict String GenerationRequest → Bool
all_known ids [] = true
all_known ids ((id, request) ∷ d) = contains request.replica_id ids && all_known ids d

abbrev pub max_in_flight : RolloutManager → ℕ
max_in_flight m = length m.replica_ids * m.max_in_flight_per_replica

-- One round of `_next_schedulable_replica`, with what the rounds after it give.
abbrev pub pick :
    Dict String GenerationRequest
    → Option String × RolloutManager
    → Option String × RolloutManager
    → Option String × RolloutManager
pick d (none, n) later = (none, n)
pick d (some r, n) later = if ltb (load r d) n.max_in_flight_per_replica then (some r, n) else later

-- The loop, over a list as long as `self.replica_ids`.
pub schedulable_loop :
    List String → Dict String GenerationRequest → RolloutManager → Option String × RolloutManager
schedulable_loop [] d m = (none, m)
schedulable_loop (_ ∷ ids) d m = pick d (next_replica m) (schedulable_loop ids d (next_replica m).1)

abbrev pub schedulable :
    Bool → RolloutManager → Result CoordinatorError (Option String) × RolloutManager
schedulable false m = (err unknown_replica, m)
schedulable true m = let (o, n) = schedulable_loop m.replica_ids m.in_flight m in (ok o, n)

pub next_schedulable_replica : Action (Option String)
unfolding schedulable_loop next_replica
next_schedulable_replica m = schedulable (all_known m.replica_ids m.in_flight) m

abbrev pub request_of : QueuedPrompt → ℕ → ℕ → String → String → GenerationRequest
request_of prompt target_policy_version controller_step hex replica_id = record {
  request_id = str_append "rollout-" hex;
  replica_id = replica_id;
  prompt = prompt.prompt;
  target_policy_version = target_policy_version;
  metadata = insert "controller_step" controller_step prompt.metadata;
}

-- `_build_request` for a replica that is given, with the `uuid4().hex` of the request.
abbrev pub start : GenerationRequest → RolloutManager → RolloutManager
start request m = record m { in_flight = insert request.request_id request m.in_flight }

abbrev cons_ok :
    GenerationRequest
    → Result CoordinatorError (List GenerationRequest)
    → Result CoordinatorError (List GenerationRequest)
cons_ok r (ok rs) = ok (r ∷ rs)
cons_ok r (err e) = err e

-- `replica_id or next(self._replica_cycle)`
abbrev pub or_next : String → RolloutManager → Option String × RolloutManager
or_next replica_id m = if replica_id == "" then next_replica m else (some replica_id, m)

-- A round that has found a replica and a prompt, and the rounds after it.
abbrev pub build_with :
    QueuedPrompt
    → String
    → ℕ
    → ℕ
    → Action (List GenerationRequest)
    → Option String × RolloutManager
    → Result CoordinatorError (List GenerationRequest) × RolloutManager
build_with prompt hex version step later (none, n) = (err no_replicas, n)
build_with prompt hex version step later (some replica_id, n) =
    let request = request_of prompt version step hex replica_id in
    let (requests, k) = later (start request n) in (cons_ok request requests, k)

-- `popleft`, and what is done with the prompt.
abbrev pub pop_prompt :
    (QueuedPrompt → Action (List GenerationRequest))
    → List QueuedPrompt
    → Action (List GenerationRequest)
pop_prompt build [] n = (err backlog_empty, n)
pop_prompt build (prompt ∷ rest) n = build prompt (record n { input_backlog = rest })

-- A round, by the replica that is found.
abbrev pub round_with :
    (String → QueuedPrompt → Action (List GenerationRequest))
    → Result CoordinatorError (Option String) × RolloutManager
    → Result CoordinatorError (List GenerationRequest) × RolloutManager
round_with build (err e, n) = (err e, n)
round_with build (ok none, n) = (ok [], n)
round_with build (ok (some replica_id), n) = pop_prompt (build replica_id) n.input_backlog n

-- The loop of `dispatch_from_backlog`; the number counts the rounds that are left, and each has its
-- `uuid4().hex`.
pub dispatch_loop : ℕ → (ℕ → String) → ℕ → ℕ → Action (List GenerationRequest)
dispatch_loop zero hexes version step m = (ok [], m)
dispatch_loop (suc left) hexes version step m =
    round_with
      (λ replica_id prompt n.
        build_with prompt (hexes left) version step (dispatch_loop left hexes version step)
          (or_next replica_id n))
      (next_schedulable_replica m)

abbrev pub min_with : ℕ → Option ℕ → ℕ
min_with n none = n
min_with n (some limit) = min n limit

-- A negative capacity gives no round, as 0 does here.
abbrev pub request_budget : RolloutManager → ℕ → ℕ → Option ℕ → ℕ
request_budget m output_queue_depth output_queue_high_watermark max_new_requests =
    min_with
      (min (output_queue_high_watermark - output_queue_depth)
        (min (max_in_flight m - length m.in_flight) (length m.input_backlog)))
      max_new_requests

abbrev raise_paused : Option String → Action (Unit {0})
raise_paused none = pure tt
raise_paused (some reason) = raise (paused_for reason)

pub dispatch_from_backlog :
    (ℕ → String) → ℕ → ℕ → ℕ → ℕ → Option ℕ → Action (List GenerationRequest)
unfolding dispatch_loop next_schedulable_replica
dispatch_from_backlog hexes version step depth watermark max_new_requests m =
    (raise_paused m.paused_reason
        >> (if leb watermark depth
            then pure []
            else dispatch_loop (request_budget m depth watermark max_new_requests) hexes version
                step))
      m

-- The loop of `dispatch_prompts`: each prompt goes to the next replica of the cycle, also to a full one.
pub dispatch_prompts_loop :
    List (Result CoordinatorError QueuedPrompt)
    → (ℕ → String)
    → ℕ
    → ℕ
    → Action (List GenerationRequest)
dispatch_prompts_loop [] hexes version step m = (ok [], m)
dispatch_prompts_loop (err e ∷ prompts) hexes version step m = (err e, m)
dispatch_prompts_loop (ok prompt ∷ prompts) hexes version step m =
    let (o, n) = next_replica m in
    elim o [
      | none ↦ (err no_replicas, n)
      | some replica_id ↦
          let request = request_of prompt version step (hexes (length prompts)) replica_id in
          let (requests, k) = dispatch_prompts_loop prompts hexes version step (start request n) in
          (cons_ok request requests, k)
    ]

pub dispatch_prompts :
    List (Result CoordinatorError QueuedPrompt)
    → (ℕ → String)
    → ℕ
    → ℕ
    → Action (List GenerationRequest)
unfolding dispatch_prompts_loop
dispatch_prompts prompts hexes version step m =
    (raise_paused m.paused_reason >> dispatch_prompts_loop prompts hexes version step) m

unfoldable pub complete_request : String → Action GenerationRequest
complete_request request_id m =
    (do
      request ← or_raise (lookup request_id m.in_flight) (unknown_request request_id)
      modify (λ n. record n { in_flight = erase request_id n.in_flight })
      pure request)
      m
