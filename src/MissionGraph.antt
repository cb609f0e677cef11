-- ===== src/MissionGraph.antt =====
-- The durable mission graph authority of apps/backend/src/missions.
pub mod States
pub mod Records
pub mod Journal
pub mod Compiled
pub mod Contracts
pub mod Registry
pub mod Compiler
pub mod Service
