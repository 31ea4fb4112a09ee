-- ===== src/Sunspec.antt =====
-- The package internal/sunspec: the register bank and its encoders.
pub mod Bank
pub mod Chain
pub mod Events
pub mod Controls
pub mod DerTrip
pub mod EnterService
pub mod FreqDroop
pub mod FreqWattCurve
pub mod Nameplate
pub mod Settings
pub mod Vendor
pub mod Mppt
pub mod Phases
pub mod InverterFloat
pub mod DcData
pub mod Options
pub mod Encoder
pub mod PerInverter
