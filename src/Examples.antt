-- ===== src/Examples.antt =====
-- Runs, findings and documents, and the theorems applied to them.
mod Data
mod Policies
mod Checks
mod Journeys
mod Documents
mod Engine
mod Security
mod Verdicts
mod Approvals
