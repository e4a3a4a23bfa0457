-- ===== src/Competition/Resolve.antt =====
-- The resolution sweep over the continental cups: backend/internal/competition/resolve.go.
pub mod Winner
pub mod Cascade
pub mod Sweep
