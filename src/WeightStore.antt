-- ===== src/WeightStore.antt =====
-- nano_rl/runtime/weight_store.py: the mock stores of weight versions.
pub mod Values
pub mod Manifests
pub mod Memory
pub mod Files
pub mod Interface
pub mod Agreement
pub mod Building
mod Tests
