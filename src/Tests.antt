-- ===== src/Tests.antt =====
-- Concrete parameters, test data, and the theorems applied to them.
mod Machine
mod Fleet
mod Handlers
mod Handles
mod Writers
mod Results
mod Registers
mod RoundTrip
mod Sources
mod Timers
mod Start
