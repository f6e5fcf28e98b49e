-- ===== src/Checks.antt =====
-- Tests of the development on concrete inputs, and the data that they share.
pub mod Data
mod Envelopes
mod Requests
mod Policies
mod Sets
mod Expired
mod Dependencies
mod Circuits
mod Budgets
mod Limiters
mod Spools
mod Replays
mod Listens
