-- ===== src/Competition.antt =====
-- The competition engine, backend/internal/competition.
pub mod RoundRobin
pub mod CupLadder
pub mod CupDraw
pub mod CupCalendar
pub mod Standings
pub mod Stakes
pub mod Weekdays
pub mod Stagger
pub mod Qualify
pub mod Resolve
