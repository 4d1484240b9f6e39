-- ===== src/Examples.antt =====
-- The theorems at concrete inputs: a fleet of plans, and a lease on a machine with a small remote.
mod Fleet
mod Machine
mod Leases
mod Texts
mod Lanes
mod Refs
mod Joins
mod Plans
mod Ledgers
