-- ===== src/Agentic.antt =====
-- The durable plans of apps/backend/src/agentic: agenticPlanJournal.ts.
pub mod States
pub mod Records
pub mod Inputs
pub mod Workers
pub mod Journal
pub mod Usage
