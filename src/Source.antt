-- ===== src/Source.antt =====
-- The package internal/source: what the adapter reads from the ECU, and the control actions that it
-- writes back.
pub mod Builder
pub mod Database
pub mod Inverter
pub mod Joins
pub mod Nameplates
pub mod Params
pub mod Protection
pub mod Reader
pub mod Handles
pub mod Snapshot
pub mod Writer
