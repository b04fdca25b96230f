-- ===== src/Tests.antt =====
-- Runs of the code on small inputs: the theorems at concrete data, and tests.
mod Tree
mod Contract
mod Chain
mod Faults
mod Sessions
mod Clients
mod Program
mod Rounds
mod Pace
mod Runs
mod Failures
mod Batches
mod Scans
mod Sync
mod Transactions
mod Task
mod Bodies
