-- ===== src/Gerber.antt =====
-- worker/emi_worker/gerber: the netlist and the drill files that come with Gerber files.
pub mod Records
pub mod Netlist
pub mod Excellon
pub mod Drill
mod Examples
mod Bored
