-- ===== src/Missions.antt =====
-- The generic mission spine of apps/backend/src/missions, below the mission graphs.
pub mod States
pub mod Records
pub mod Journal
