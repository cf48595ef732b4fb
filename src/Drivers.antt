-- ===== src/Drivers.antt =====
-- worker/emi_worker/drivers: what a driver document says, and the voltage that it pushes at a frequency.
pub mod Spectrum
pub mod Document
pub mod Resolve
pub mod Apply
mod Examples
