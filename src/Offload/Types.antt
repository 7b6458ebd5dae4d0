-- ===== src/Offload/Types.antt =====
-- The enumerations and records of nano_rl/runtime/offload.py. A duration is a number of some unit in
-- which the backends' times are whole; an object of the metadata is a number that stands for it.
use nano_rl.Prelude.{ℕ, String, Bool, true, Option, none, some, List, []}
use nano_rl.Prelude.Exec.{Result, ok}
use nano_rl.Prelude.Dict.{Dict}
use nano_rl.Slot.Names.{RoleName, ResidencyState}
use nano_rl.Slot.Types.{GpuLease}

pub data ResidencyTransition : Type 0 where
  enter_train rollout_offloaded trainer_hydrating trainer_hydrated exit_train : ResidencyTransition
  trainer_offloaded rollout_hydrated : ResidencyTransition

pub data OffloadEventType : Type 0 where
  shared_gpu_offload_failed shared_gpu_hydrate_failed shared_gpu_toggle_timeout : OffloadEventType

pub data ResidencyOperation : Type 0 where
  offload hydrate : ResidencyOperation

pub record ResidencyHookReport : Type 0 where
  pub success : Bool
  pub reason : Option String
  pub duration_sec : ℕ
  pub residual_gpu_memory_mb : ℕ
  pub metadata : Dict String ℕ

-- `ResidencyHookReport()`
abbrev pub default_report : ResidencyHookReport
default_report = record {
  success = true;
  reason = none;
  duration_sec = 0;
  residual_gpu_memory_mb = 0;
  metadata = [];
}

pub record ResidencyTransitionRecord : Type 0 where
  pub transition : ResidencyTransition
  pub from_state : ResidencyState
  pub to_state : ResidencyState
  pub gpu_id : ℕ
  pub role : RoleName
  pub holder_id : String
  pub lease_epoch : ℕ

-- The texts of `reason`, by their parts.
pub data Reason : Type 0 where
  took_too_long : ResidencyOperation → ℕ → ℕ → Reason
  residual_memory : ℕ → ℕ → Reason
  hook_reason : String → Reason
  hook_failed : ResidencyOperation → Reason

-- `OffloadResult` and `HydrateResult`
pub record ResidencyResult : Type 0 where
  pub success : Bool
  pub gpu_id : ℕ
  pub role : RoleName
  pub holder_id : String
  pub lease_epoch : ℕ
  pub state : ResidencyState
  pub strategy : String
  pub reason : Option Reason
  pub event_type : Option OffloadEventType
  pub duration_sec : ℕ
  pub residual_gpu_memory_mb : ℕ
  pub lease : Option GpuLease
  pub transitions : List ResidencyTransitionRecord
  pub metadata : Dict String ℕ

pub record ResidencyHookContext : Type 0 where
  pub gpu_id : ℕ
  pub role : RoleName
  pub holder_id : String
  pub lease_epoch : ℕ
  pub operation : ResidencyOperation
  pub strategy : String

-- A backend's hook: it reports, or raises with a text.
abbrev pub ResidencyHook : Type 0
ResidencyHook = ResidencyHookContext → Result String ResidencyHookReport

-- `HookedGpuResidencyStrategy`
pub record Strategy : Type 0 where
  pub name : String
  pub offload_hook : Option ResidencyHook
  pub hydrate_hook : Option ResidencyHook

abbrev call_hook : Option ResidencyHook → ResidencyHookContext → Result String ResidencyHookReport
call_hook none context = ok default_report
call_hook (some hook) context = hook context

abbrev pub strategy_offload : Strategy → ResidencyHookContext → Result String ResidencyHookReport
strategy_offload strategy context = call_hook strategy.offload_hook context

abbrev pub strategy_hydrate : Strategy → ResidencyHookContext → Result String ResidencyHookReport
strategy_hydrate strategy context = call_hook strategy.hydrate_hook context

abbrev pub vllm_sleep_strategy : Option ResidencyHook → Option ResidencyHook → Strategy
vllm_sleep_strategy offload_hook hydrate_hook = record {
  name = "vllm_sleep";
  offload_hook = offload_hook;
  hydrate_hook = hydrate_hook;
}

abbrev pub teardown_and_reload_strategy : Option ResidencyHook → Option ResidencyHook → Strategy
teardown_and_reload_strategy offload_hook hydrate_hook = record {
  name = "teardown_and_reload";
  offload_hook = offload_hook;
  hydrate_hook = hydrate_hook;
}

abbrev pub cpu_pinned_trainer_strategy : Option ResidencyHook → Option ResidencyHook → Strategy
cpu_pinned_trainer_strategy offload_hook hydrate_hook = record {
  name = "cpu_pinned";
  offload_hook = offload_hook;
  hydrate_hook = hydrate_hook;
}
