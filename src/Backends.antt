-- ===== src/Backends.antt =====
-- The mock backends of nano_rl/runtime/backends.
pub mod Trainer
pub mod Rollout
