-- ===== src/Training.antt =====
-- The state of `RayTrainingLoop` of nano_rl/runtime/ray/training.py, and its calls of actors. The
-- actors of the runtime cores are the cores. `ray.get` waits, so that a call is made where it is
-- awaited or, when its result is collected later, where it is started; actors do not share a state
-- that is modelled here.
pub mod Windows
pub mod Weights
pub mod Trainers
pub mod Steps
pub mod Kept
pub mod Settling
pub mod Batching
pub mod Rollouts
pub mod Counting
pub mod Rolling
pub mod Runs
pub mod Completing
pub mod Serving
pub mod Returning
mod Tests
use nano_rl.Prelude.{ℕ, ◌+◌, String, Bool, Option, none, some, List, [], ◌∷◌}
use nano_rl.Prelude.Exec.{Result, ok, err, Exec, pure, raise, ◌>>=◌, ◌>>◌}
use nano_rl.Prelude.Dict.{Dict}
use nano_rl.Exceptions.{SlotError}
use nano_rl.Slot.Types.{GpuLease, ResolvedGpuPlan}
use nano_rl.Slot.Lease as Lease
use nano_rl.Protocols.{WeightMeta, TrainBatch, SampleRecord}
use nano_rl.SampleQueue as Queue
use nano_rl.WeightRegistry as Registry
use nano_rl.WeightTransfer.{
  WeightTransferPlanner, WeightTransferPlan, WeightTransferError, WeightShardSource,
}
use nano_rl.Coordinators as Coordinators
use nano_rl.Coordinators.{GenerationRequest}
use nano_rl.Coordinators.Coercing.{Objects}
use nano_rl.DataSources.Building.{BuildError}
use nano_rl.WeightStore.Values.{Value}

-- What the loop reads of `LaunchConfig`; the planner has the method and the permission to pull.
pub record TrainingConfig : Type 0 where
  pub gpu_plan : ResolvedGpuPlan
  pub planner : WeightTransferPlanner
  pub model_path : String
  pub tokenizer_path : Option String
  pub rollout_backend : String
  pub weight_sync_backend : String
  pub queue_high_watermark : ℕ
  pub global_batch_size : ℕ
  pub max_steps : ℕ

-- What is not this code's: the decimal text of a number, the hexadecimal digest of a text, the objects of a
-- prompt, and what the clock and `uuid4` give at the successive ticks of the run.
pub record World : Type 0 where
  pub decimal : ℕ → String
  pub hexdigest : String → String
  pub clock : ℕ → ℕ
  pub hexes : ℕ → ℕ → String
  pub objects : Objects

-- The handles of the rollout replicas and the trainer ranks, as calls on the state `X` of all these
-- actors. A call returns, or fails with a message. A trainer's state and its statistics are dicts.
pub record Actors (X : Type 0) : Type 0 where
  pub generate : String → GenerationRequest → List GpuLease → X → Result String SampleRecord × X
  pub initialize_rank : ℕ → X → Result String (Option Value) × X
  pub hydrate : ℕ → Option Value → GpuLease → X → Result String (Option Value) × X
  pub optimize : ℕ → TrainBatch → GpuLease → X → Result String Value × X
  pub export_weight : ℕ → WeightMeta → Bool → X → Result String WeightMeta × X
  pub sync_weights_to_vllm :
      ℕ → String → WeightMeta → WeightShardSource → GpuLease → String → X → Result String Value × X
  pub rank_state : ℕ → X → Result String Value × X
  pub offload_trainer : ℕ → GpuLease → X → Result String (Option Value) × X
  pub activate_weight :
      String → WeightMeta → List GpuLease → WeightShardSource → X → Result String (Unit {0}) × X
  pub offload_replica : String → List GpuLease → X → Result String (Option Value) × X
  pub wake_replica : String → List GpuLease → X → Result String (Option Value) × X

pub data TrainingError : Type 0 where
  of_slot : SlotError → TrainingError
  of_registry : Registry.RegistryError → TrainingError
  of_transfer : WeightTransferError → TrainingError
  of_coordinator : Coordinators.CoordinatorError → TrainingError
  of_queue : Queue.QueueError → TrainingError
  of_actor : String → TrainingError
  -- the `RuntimeError`s of the loop, the `KeyError`s of its dicts and the `ValueError` of a strict `zip`
  not_rank_zero : TrainingError
  unsupported_transport : String → TrainingError
  no_source : String → TrainingError
  no_lease : ℕ → TrainingError
  lengths_differ : TrainingError
  of_source : BuildError → TrainingError
  no_prompts : TrainingError
  bad_count : TrainingError
  unknown_replica : String → TrainingError
  not_enough_samples : ℕ → ℕ → TrainingError
  no_batch : ℕ → TrainingError
  -- not of the program: the rounds of a loop do not suffice
  out_of_rounds : TrainingError

-- All but the leases and the samples.
pub record Handles (X : Type 0) : Type 0 where
  pub rollout_manager : Coordinators.RolloutManager
  pub weight_registry : Registry.WeightRegistry
  pub actors : X
  pub trainer_states : Dict ℕ (Option Value)
  pub last_weight_transfer_plan : Option WeightTransferPlan
  pub rollout_active_weight_version : Option ℕ
  -- how often the run has asked for the time or an id
  pub ticks : ℕ

pub record Cluster (X : Type 0) : Type 0 where
  pub gpu_leases : Lease.Manager
  pub sample_queue : Queue.SampleQueue
  pub handles : Handles X

abbrev pub lifted :
    {S T E F A : Type 0} → (E → F) → (S → T → T) → Result E A × S → T → Result F A × T
lifted wrap put (ok a, s) c = (ok a, put s c)
lifted wrap put (err e, s) c = (err (wrap e), put s c)

abbrev pub same_error : TrainingError → TrainingError
same_error e = e

abbrev get_next : {A : Type 0} → Result String A → Result String (List A) → Result String (List A)
get_next (err e) rs = err e
get_next (ok a) (err e) = err e
get_next (ok a) (ok later) = ok (a ∷ later)

-- `ray.get` of a list: the first error is raised.
abbrev collected : {A : Type 0} → List (Result String A) → Result String (List A)
collected [] = ok []
collected (r ∷ rs) = get_next r (collected rs)

abbrev pub or_error : {S A : Type 0} → TrainingError → Option A → Exec S TrainingError A
or_error e none = raise e
or_error e (some a) = pure a

abbrev pub failing :
    {S A : Type 0}
    → (TrainingError → Exec S TrainingError (Unit {0}))
    → Result TrainingError A × S
    → Result TrainingError A × S
failing handler (ok a, d) = (ok a, d)
failing handler (err e, d) = (handler e >> raise e) d

-- `try: body, except Exception: handler, raise`. An error of the handler replaces the one of the body.
abbrev pub attempt :
    {S A : Type 0}
    → Exec S TrainingError A
    → (TrainingError → Exec S TrainingError (Unit {0}))
    → Exec S TrainingError A
attempt body handler c = failing handler (body c)

abbrev pub give_back : {S A : Type 0} → Result TrainingError A → Exec S TrainingError A
give_back r s = (r, s)

-- `try: body, finally: last`. An error of the last part replaces what the body gives.
abbrev pub finally_do :
    {S A : Type 0}
    → Exec S TrainingError A
    → Exec S TrainingError (Unit {0})
    → Exec S TrainingError A
finally_do body last c = let (r, d) = body c in (last >> give_back r) d

abbrev ignored :
    {S : Type 0} → Result TrainingError (Unit {0}) × S → Result TrainingError (Unit {0}) × S
ignored (r, s) = (ok tt, s)

-- `try: body, except Exception: log`
abbrev pub best_effort :
    {S : Type 0} → Exec S TrainingError (Unit {0}) → Exec S TrainingError (Unit {0})
best_effort body c = ignored (body c)

abbrev pub Action : Type 0 → Type 0 → Type 0
Action X A = Exec (Cluster X) TrainingError A

-- What touches neither the leases nor the samples.
abbrev pub Local : Type 0 → Type 0 → Type 0
Local X A = Exec (Handles X) TrainingError A

module _ {X : Type 0} where
  abbrev pub on_leases : {A : Type 0} → Lease.Action A → Action X A
  on_leases act c = lifted of_slot (λ s d. record d { gpu_leases = s }) (act c.gpu_leases) c

  abbrev pub on_queue : {A : Type 0} → Queue.Action A → Action X A
  on_queue act c = lifted of_queue (λ s d. record d { sample_queue = s }) (act c.sample_queue) c

  abbrev pub on_handles : {A : Type 0} → Local X A → Action X A
  on_handles act c = lifted same_error (λ s d. record d { handles = s }) (act c.handles) c

  abbrev pub on_registry : {A : Type 0} → Registry.Action A → Local X A
  on_registry act h =
      lifted of_registry (λ s g. record g { weight_registry = s }) (act h.weight_registry) h

  abbrev pub on_rollout : {A : Type 0} → Coordinators.Action A → Local X A
  on_rollout act h =
      lifted of_coordinator (λ s g. record g { rollout_manager = s }) (act h.rollout_manager) h

  -- `handle.method.remote(...)`: what the call gives is not looked at yet.
  abbrev pub start : {A : Type 0} → (X → Result String A × X) → Local X (Result String A)
  start call h = let (r, x) = call h.actors in (ok r, record h { actors = x })

  -- `ray.get` of what one call gives
  abbrev pub get_one : {A : Type 0} → Result String A → Local X A
  get_one (ok a) h = (ok a, h)
  get_one (err e) h = (err (of_actor e), h)

  abbrev pub get_all : {A : Type 0} → List (Result String A) → Local X (List A)
  get_all rs = get_one (collected rs)

  -- The next tick of the run.
  abbrev pub tick : Local X ℕ
  tick h = (ok h.ticks, record h { ticks = h.ticks + 1 })
