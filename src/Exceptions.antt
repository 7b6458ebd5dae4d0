-- ===== src/Exceptions.antt =====
-- nano_rl/exceptions.py: what the cores raise. A message is kept as its parts, not as its text.
use nano_rl.Prelude.{ℕ, String, Option}
use nano_rl.Slot.Names.{RoleName, ResidencyState}

-- `GpuRoleUnsupported` and, with one constructor for each message, `SlotStateError`.
pub data SlotError : Type 0 where
  role_unsupported : ℕ → RoleName → SlotError
  unknown_gpu : ℕ → SlotError
  no_rollout_worker : ℕ → SlotError
  gpu_failed : ℕ → Option String → SlotError
  wrong_role : ℕ → Option RoleName → RoleName → SlotError
  wrong_holder : ℕ → Option String → String → SlotError
  wrong_epoch : ℕ → ℕ → ℕ → SlotError
  no_holder : ℕ → SlotError
  unexpected_lease : RoleName → ℕ → RoleName → SlotError
  no_residency : ℕ → SlotError
  wrong_residency : ℕ → ResidencyState → ResidencyState → SlotError
  -- the `KeyError` of a dict
  key_error : ℕ → SlotError
