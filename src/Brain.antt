-- ===== src/Brain.antt =====
-- lib/brain: the control plane.
pub mod Budget
pub mod Limits
