-- ===== src/Client.antt =====
-- lib/edgeclient: what the edge keeps for the control plane.
pub mod Lines
pub mod Events
pub mod Spool
pub mod Ack
