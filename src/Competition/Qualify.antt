-- ===== src/Competition/Qualify.antt =====
-- The cup qualification engine: backend/internal/competition/qualify.go.
pub mod Model
pub mod Core
pub mod Compute
pub mod Distinct
pub mod Cuts
pub mod Champion
pub mod Fields
