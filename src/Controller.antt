-- ===== src/Controller.antt =====
-- `ControllerCore` of nano_rl/runtime/controller.py: the cores of a local run, and the calls that go
-- from one to another.
pub mod Windows
pub mod Activating
pub mod Pumping
pub mod Smoke
pub mod Backlog
pub mod Finishing
mod Tests
use Prim.Native.String.{◌++◌ as str_append}
use nano_rl.Prelude.{
  ℕ, ◌+◌, ◌/◌, max, String, Bool, Option, none, some, List, [], ◌∷◌, if◌then◌else◌,
}
use nano_rl.Prelude.Equality.{◌==◌, nat_eq, string_eq}
use nano_rl.Prelude.Exec.{Result, ok, err, Exec, pure, raise, gets, modify, ◌>>=◌, ◌>>◌}
use nano_rl.Prelude.Dict.{Dict, lookup, insert}
use nano_rl.Exceptions.{SlotError}
use nano_rl.Slot.Types.{RolloutReplicaSpec, ResolvedGpuPlan, rollout_replica_count}
use nano_rl.Slot.Lease as Lease
use nano_rl.Offload as Offload
use nano_rl.Offload.Types.{Reason}
use nano_rl.Protocols.{WeightMeta}
use nano_rl.SampleQueue as Queue
use nano_rl.WeightRegistry as Registry
use nano_rl.WeightTransfer.{
  WeightTransferPlanner, WeightTransferPlan, WeightTransferMethod, WeightTransferError,
}
use nano_rl.Coordinators.Trainers as Trainers
use nano_rl.Coordinators as Coordinators
use nano_rl.Roles.{RoleError, ReplicaController, TrainerRank}
use nano_rl.Roles.Generating.{Outside}
use nano_rl.Metrics.{HealthEvent, EventSeverity, emit}

-- What the controller reads of `LaunchConfig`.
pub record LaunchConfig : Type 0 where
  pub gpu_plan : ResolvedGpuPlan
  pub max_policy_lag : ℕ
  pub sample_ttl_sec : ℕ
  pub queue_high_watermark : ℕ
  pub max_pending_rollout_refs : ℕ
  pub transfer_method : WeightTransferMethod
  pub allow_rollout_only_artifact_pull : Bool
  pub cuda_quiesce_timeout_sec : ℕ
  pub residual_gpu_memory_budget_mb : ℕ
  pub model_path : String
  pub tokenizer_path : Option String

-- What the run meets outside of this code: the texts and digests of the roles, and what the clock and
-- `uuid4` give at the successive ticks of the run. A checksum is the digest of a text.
pub record World : Type 0 where
  pub roles : Outside
  pub clock : ℕ → ℕ
  pub hexes : ℕ → ℕ → String
  pub hexdigest : String → String

pub data ControllerError : Type 0 where
  of_slot : SlotError → ControllerError
  of_role : RoleError → ControllerError
  of_registry : Registry.RegistryError → ControllerError
  of_transfer : WeightTransferError → ControllerError
  of_coordinator : Coordinators.CoordinatorError → ControllerError
  of_queue : Queue.QueueError → ControllerError
  -- the `RuntimeError`s and the `ValueError` of the controller itself
  enter_failed return_failed : ℕ → Option Reason → ControllerError
  no_trainer_rank : ℕ → ControllerError
  no_assigned_gpu : ℕ → ControllerError
  no_train_batch no_prompts : ControllerError
  -- the `RuntimeError` of `export_weight`
  not_rank_zero : ControllerError
  -- the `KeyError` of a dict
  no_replica : String → ControllerError
  no_rank : ℕ → ControllerError
  -- the `ValueError` of a strict `zip`, and the `ZeroDivisionError` of a plan without replicas
  lengths_differ no_replicas : ControllerError

pub record Controller : Type 0 where
  pub launch_config : LaunchConfig
  pub events : List HealthEvent
  pub sample_queue : Queue.SampleQueue
  pub weight_registry : Registry.WeightRegistry
  pub weight_transfer : WeightTransferPlanner
  pub last_weight_transfer_plan : Option WeightTransferPlan
  -- its `lease_manager` is the controller's `gpu_leases`
  pub gpu_residency : Offload.ResidencyManager
  pub rollout_manager : Coordinators.RolloutManager
  pub trainer_coordinator : Trainers.TrainerCoordinator
  pub rollout_roles : Dict String ReplicaController
  pub trainer_ranks : Dict ℕ TrainerRank
  -- how often the run has asked for an id or the time
  pub ticks : ℕ

abbrev pub Action : Type 0 → Type 0
Action A = Exec Controller ControllerError A

-- A call on one of the cores.
abbrev pub lifted :
    {S E A : Type 0}
    → (E → ControllerError)
    → (S → Controller → Controller)
    → Result E A × S
    → Controller
    → Result ControllerError A × Controller
lifted wrap put (ok a, s) c = (ok a, put s c)
lifted wrap put (err e, s) c = (err (wrap e), put s c)

abbrev pub on_residency : {A : Type 0} → Offload.Action A → Action A
on_residency act c = lifted of_slot (λ s d. record d { gpu_residency = s }) (act c.gpu_residency) c

-- A call on `self.gpu_leases`
abbrev pub on_leases : {A : Type 0} → Lease.Action A → Action A
on_leases act = on_residency (Offload.on_lease act)

abbrev pub on_registry : {A : Type 0} → Registry.Action A → Action A
on_registry act c =
    lifted of_registry (λ s d. record d { weight_registry = s }) (act c.weight_registry) c

abbrev pub on_rollout : {A : Type 0} → Coordinators.Action A → Action A
on_rollout act c =
    lifted of_coordinator (λ s d. record d { rollout_manager = s }) (act c.rollout_manager) c

abbrev pub on_queue : {A : Type 0} → Queue.Action A → Action A
on_queue act c = lifted of_queue (λ s d. record d { sample_queue = s }) (act c.sample_queue) c

-- A call on the queue that does not raise.
abbrev pub with_queue : {A : Type 0} → (Queue.SampleQueue → A × Queue.SampleQueue) → Action A
with_queue act c = let (a, q) = act c.sample_queue in (ok a, record c { sample_queue = q })

abbrev pub or_error : {A : Type 0} → ControllerError → Option A → Action A
or_error e none = raise e
or_error e (some a) = pure a

-- The next tick of the run.
abbrev pub tick : Action ℕ
tick c = (ok c.ticks, record c { ticks = c.ticks + 1 })

-- `self.metrics.emit`, with `source_actor="ControllerActor"` and the details left out
abbrev pub emit_event : World → String → EventSeverity → Option ℕ → Action (Unit {0})
emit_event w event_type severity gpu_id c = (
  ok tt,
  record c {
    events =
        (emit (w.hexes c.ticks 0) (w.clock c.ticks) event_type "ControllerActor" severity gpu_id
          none none none c.events).1;
    ticks = c.ticks + 1;
  },
)

abbrev pub failing :
    {A : Type 0}
    → (ControllerError → Action (Unit {0}))
    → Result ControllerError A × Controller
    → Result ControllerError A × Controller
failing handler (ok a, d) = (ok a, d)
failing handler (err e, d) = (handler e >> raise e) d

-- `try: body, except Exception: handler, raise`. An error of the handler replaces the one of the body.
abbrev pub attempt : {A : Type 0} → Action A → (ControllerError → Action (Unit {0})) → Action A
attempt body handler c = failing handler (body c)

abbrev pub trainer_holder : World → ℕ → String
trainer_holder w rank = str_append "trainer-rank-" (w.roles.decimal rank)

-- `self._trainer_rank_for_gpu`
pub rank_for_gpu : ℕ → List Trainers.RankAssignment → Option ℕ
rank_for_gpu gpu [] = none
rank_for_gpu gpu (a ∷ later) = if a.gpu_id == gpu then some a.rank else rank_for_gpu gpu later

abbrev wrap_error : {E A : Type 0} → (E → ControllerError) → Result E A → Result ControllerError A
wrap_error wrap (ok a) = ok a
wrap_error wrap (err e) = err (wrap e)

infixl 5 ◌|>◌
-- The next step of `__init__`, when the one before it went through.
abbrev ◌|>◌ :
    {A B : Type 0}
    → Result ControllerError A
    → (A → Result ControllerError B)
    → Result ControllerError B
◌|>◌ (ok a) f = f a
◌|>◌ (err e) f = err e

abbrev role_of : RolloutReplicaSpec → ReplicaController
role_of r = record {
  replica_id = r.replica_id;
  gpu_ids = r.gpu_ids;
  worker_ids = r.worker_ids;
  active_policy_version = none;
  active_weight_checksum = none;
  active_lease_epochs = none;
  active_weight_source = none;
}

pub roles_of :
    List RolloutReplicaSpec → Dict String ReplicaController → Dict String ReplicaController
roles_of [] d = d
roles_of (r ∷ rs) d = roles_of rs (insert r.replica_id (role_of r) d)

pub ranks_of : ℕ → List Trainers.RankAssignment → Dict ℕ TrainerRank → Dict ℕ TrainerRank
ranks_of epoch [] d = d
ranks_of epoch (a ∷ later) d = ranks_of epoch later (
    insert a.rank
      (record { rank = a.rank; gpu_id = some a.gpu_id; group_epoch = epoch; train_step = 0 }) d)

-- `max_pending_rollout_refs // rollout_replica_count`, at least 1
abbrev in_flight_cap : LaunchConfig → Result ControllerError ℕ
in_flight_cap config =
    let count = rollout_replica_count config.gpu_plan in
    if count == 0 then err no_replicas else ok (max 1 (config.max_pending_rollout_refs / count))

-- `__init__`. The reward backend gives floats, and is left out.
pub create : LaunchConfig → Result ControllerError Controller
unfolding roles_of ranks_of
create config = wrap_error of_slot (Lease.create config.gpu_plan) |> λ leases.
    in_flight_cap config |> λ cap.
    wrap_error of_coordinator (Coordinators.create config.gpu_plan.rollout_replicas cap)
    |> λ rollout_manager.
        wrap_error of_coordinator (Trainers.create_trainers config.gpu_plan.trainer_ranks)
        |> λ trainers. ok (record {
          launch_config = config;
          events = [];
          sample_queue =
              Queue.create config.max_policy_lag config.sample_ttl_sec config.queue_high_watermark;
          weight_registry = Registry.create;
          weight_transfer = record {
            method = config.transfer_method;
            allow_rollout_only_artifact_pull = config.allow_rollout_only_artifact_pull;
          };
          last_weight_transfer_plan = none;
          gpu_residency =
              Offload.create leases none none config.cuda_quiesce_timeout_sec
                config.cuda_quiesce_timeout_sec config.residual_gpu_memory_budget_mb;
          rollout_manager = rollout_manager;
          trainer_coordinator = trainers;
          rollout_roles = roles_of config.gpu_plan.rollout_replicas [];
          trainer_ranks = ranks_of trainers.group_epoch trainers.rank_assignments [];
          ticks = 0;
        })
