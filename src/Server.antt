-- ===== src/Server.antt =====
-- The package internal/server: the Modbus handlers, the writers behind them, and their state.
pub mod FindModel
pub mod Addresses
pub mod Tracker
pub mod Reverter
pub mod World
pub mod ControlsWriter
pub mod Profiles
pub mod EnterServiceWriter
pub mod FreqDroopWriter
pub mod FreqWattCurveWriter
pub mod Handler
pub mod Refresh
pub mod Lifecycle
pub mod Process
pub mod Commanded
