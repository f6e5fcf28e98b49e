-- ===== src/Brain/Budget.antt =====
-- lib/brain/run_budget.go, over the two tables of
-- lib/store/migrations/00030_run_budget_accounts.sql with their constraints.
pub mod Amounts
pub mod Tables
pub mod Reserve
pub mod Settle
pub mod Ledger
pub mod ReserveKept
pub mod SettleKept
pub mod CloseKept
pub mod Runs
pub mod Replays
pub mod Admission
