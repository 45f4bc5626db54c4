-- ===== src/BusCheck.antt =====
-- software_bus/bus_check.py: cycles among the nodes of one machine.
pub mod Cycles
pub mod Ends
pub mod Links
pub mod Report
pub mod Kinds
pub mod Run
