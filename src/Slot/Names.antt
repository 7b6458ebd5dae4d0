-- ===== src/Slot/Names.antt =====
-- The enumerations of nano_rl/runtime/slot.py and nano_rl/runtime/offload.py, with their equality.
use nano_rl.Prelude.{◌≡◌, ◌↔◌, Bool, true, false, arith}
use nano_rl.Prelude.Equality.{HasEq}

pub data GpuTopology : Type 0 where
  rollout_only shared idle : GpuTopology

pub data RoleName : Type 0 where
  rollout trainer : RoleName

pub data GpuLeasePhase : Type 0 where
  idle rollout_active trainer_active failed : GpuLeasePhase

pub data ResidencyState : Type 0 where
  rollout_active rollout_draining rollout_offloaded trainer_hydrating trainer_active :
      ResidencyState
  trainer_offloaded rollout_waking degraded failed : ResidencyState

abbrev pub role_beq : RoleName → RoleName → Bool
role_beq RoleName.rollout RoleName.rollout = true
role_beq RoleName.trainer RoleName.trainer = true
role_beq _ _ = false

pub role_beq_iff : (a b : RoleName) → (role_beq a b ≡ true) ↔ (a ≡ b)
role_beq_iff a b = ground arith

instance abbrev pub role_eq : HasEq RoleName
role_eq = record { test = role_beq; test_iff = role_beq_iff }

abbrev pub topology_beq : GpuTopology → GpuTopology → Bool
topology_beq GpuTopology.rollout_only GpuTopology.rollout_only = true
topology_beq GpuTopology.shared GpuTopology.shared = true
topology_beq GpuTopology.idle GpuTopology.idle = true
topology_beq _ _ = false

-- The place of a state in its declaration.
abbrev state_index : ResidencyState → Prim.Native.Nat.ℕ
state_index ResidencyState.rollout_active = 0
state_index ResidencyState.rollout_draining = 1
state_index ResidencyState.rollout_offloaded = 2
state_index ResidencyState.trainer_hydrating = 3
state_index ResidencyState.trainer_active = 4
state_index ResidencyState.trainer_offloaded = 5
state_index ResidencyState.rollout_waking = 6
state_index ResidencyState.degraded = 7
state_index ResidencyState.failed = 8

abbrev pub state_beq : ResidencyState → ResidencyState → Bool
state_beq a b = nano_rl.Prelude.nat_beq (state_index a) (state_index b)

pub state_beq_iff : (a b : ResidencyState) → (state_beq a b ≡ true) ↔ (a ≡ b)
state_beq_iff a b = ground arith

instance abbrev pub state_eq : HasEq ResidencyState
state_eq = record { test = state_beq; test_iff = state_beq_iff }

abbrev pub is_failed : GpuLeasePhase → Bool
is_failed GpuLeasePhase.failed = true
is_failed _ = false
