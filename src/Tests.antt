-- ===== src/Tests.antt =====
-- Runs of the tester on concrete services, and the theorems at inputs that meet their hypotheses.
mod Samples
mod Serving
mod Lifecycle
mod Outcomes
mod Pieces
mod Tracks
mod Settings
mod Jobs
mod Requests
mod AccessLogs
