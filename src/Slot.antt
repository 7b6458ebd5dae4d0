-- ===== src/Slot.antt =====
-- nano_rl/runtime/slot.py: the resolved GPU plan and the lease manager that gates each GPU.
pub mod Names
pub mod Types
pub mod Lease
