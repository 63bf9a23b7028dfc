-- ===== src/Registry.antt =====
-- ai-engine/creditiq_ai/model_operations: the registry of model versions, its lifecycle, promotion
-- and rollback.
pub mod Domain
pub mod File
pub mod Moves
pub mod Unique
pub mod Swap
pub mod Change
pub mod History
pub mod Serving
pub mod Promotion
pub mod Eligible
pub mod Table
pub mod Refinement
