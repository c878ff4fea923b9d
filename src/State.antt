-- ===== src/State.antt =====
-- crates/nodescale-state/src/n7.rs: the durable Fleet projections of `StateStore`, with the
-- transaction of crates/nodescale-state/src/lib.rs. The children hold the tables, the submission,
-- the three operations, and what holds of every sequence of them.
pub mod Tables
pub mod Submission
pub mod Rows
pub mod Device
pub mod Reserve
pub mod Attempt
pub mod Recover
pub mod Yields
pub mod Transaction
pub mod Effects
pub mod History
pub mod Replay
pub mod Refusal
pub mod Examples
