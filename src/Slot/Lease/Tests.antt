-- ===== src/Slot/Lease/Tests.antt =====
-- The lease manager of nano_rl/runtime/slot.py on a plan with one rollout-only and one shared GPU.
use nano_rl.Prelude.{◌≡◌, refl, ℕ, String, none, some, [], ◌∷◌, arith}
use nano_rl.Prelude.Dict.{lookup, insert}
use nano_rl.Prelude.Exec.{ok, err}
use nano_rl.Exceptions.{role_unsupported}
use nano_rl.Slot.Names.{GpuTopology, GpuLeasePhase, rollout, trainer}
use nano_rl.Slot.Types.{GpuLease, GpuLeaseState, ResolvedGpuPlan, RolloutWorkerSpec, find_worker}
use nano_rl.Slot.Lease.{Manager, create, grant, assert_active}
use nano_rl.Slot.Lease.Invariant.{IsWellFormed}
use nano_rl.Slot.Lease.Changes.{grants, fails, run, step}
use nano_rl.Slot.Lease.Fencing.{Admits, admitted_once, stale_lease_rejected}
use nano_rl.Slot.Lease.Granting.{GrantOutcome, grant_outcome}
use nano_rl.Slot.Lease.Creation.{history-IsWellFormed, rollout_only_refuses_trainer}

abbrev pub worker : String → ℕ → GpuTopology → RolloutWorkerSpec
worker id gpu topology = record {
  worker_id = id;
  replica_id = "rollout-dp-0";
  dp_rank = 0;
  tp_rank = 0;
  gpu_id = gpu;
  topology = topology;
  worker_class = "worker";
  ray_resource = "gpu";
}

abbrev pub two_gpus : ResolvedGpuPlan
two_gpus = record {
  physical_gpu_ids = 0 ∷ 1 ∷ [];
  rollout_only_gpu_ids = 0 ∷ [];
  shared_gpu_ids = 1 ∷ [];
  idle_gpu_ids = [];
  rollout_replicas = [];
  rollout_workers = worker "w0" 0 GpuTopology.rollout_only ∷ worker "w1" 1 GpuTopology.shared ∷ [];
  trainer_ranks = [];
}

abbrev pub state_of : ℕ → GpuTopology → String → GpuLeaseState
state_of gpu topology holder = record {
  gpu_id = gpu;
  topology = topology;
  phase = GpuLeasePhase.rollout_active;
  active_role = some rollout;
  holder_id = some holder;
  lease_epoch = 0;
  failed_reason = none;
}

abbrev pub fresh : Manager
fresh = record {
  plan = two_gpus;
  states =
      (0, state_of 0 GpuTopology.rollout_only "w0") ∷ (1, state_of 1 GpuTopology.shared "w1") ∷ [];
  supported_roles = (0, rollout ∷ []) ∷ (1, rollout ∷ trainer ∷ []) ∷ [];
}

created : create two_gpus ≡ ok fresh
unfolding create insert find_worker
created = refl

abbrev pub rollout_token : GpuLease
rollout_token = record { gpu_id = 1; role = rollout; holder_id = "w1"; lease_epoch = 0 }

abbrev trainer_token : GpuLease
trainer_token = record { gpu_id = 1; role = trainer; holder_id = "t0"; lease_epoch = 1 }

abbrev toggled : Manager
toggled = (grant trainer 1 "t0" fresh).1

pub rollout_admitted :
    (plan : ResolvedGpuPlan) → Admits (record fresh { plan = plan }) rollout_token
unfolding assert_active lookup
rollout_admitted plan = refl

-- The shared GPU goes to the trainer, and back to the same rollout worker at a later epoch.
there_and_back :
    (grant rollout 1 "w1" toggled).0
    ≡ ok (record { gpu_id = 1; role = rollout; holder_id = "w1"; lease_epoch = 2 })
unfolding grant lookup insert
there_and_back = refl

admitted_once_example : rollout_token ≡ rollout_token
unfolding run step grant lookup insert assert_active
admitted_once_example =
    admitted_once fresh (grants trainer 0 "t0" ∷ []) rollout_token rollout_token refl refl refl refl

stale_lease_rejected_example : ¬ Admits (run (grants rollout 1 "w1" ∷ []) toggled) rollout_token
unfolding grant lookup insert
stale_lease_rejected_example =
    stale_lease_rejected toggled (grants rollout 1 "w1" ∷ []) rollout_token _ refl (omega arith)

history-IsWellFormed_example : IsWellFormed (run (grants trainer 1 "t0" ∷ fails 1 "oom" ∷ []) fresh)
history-IsWellFormed_example =
    history-IsWellFormed two_gpus fresh (grants trainer 1 "t0" ∷ fails 1 "oom" ∷ []) created

grant_outcome_example : GrantOutcome trainer 1 "t0" fresh (grant trainer 1 "t0" fresh)
grant_outcome_example = grant_outcome trainer 1 "t0" fresh

rollout_only_refuses_trainer_example :
    grant trainer 0 "t0" (run (fails 1 "oom" ∷ []) fresh)
    ≡ (err (role_unsupported 0 trainer), run (fails 1 "oom" ∷ []) fresh)
rollout_only_refuses_trainer_example =
    rollout_only_refuses_trainer two_gpus fresh 0 "t0" (fails 1 "oom" ∷ []) created refl refl
