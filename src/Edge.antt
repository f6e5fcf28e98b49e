-- ===== src/Edge.antt =====
-- The data plane's core (lib/edgecore): postures and statuses, the canonical view, policies, the
-- gate, canary buckets, generations, the release set and the external-authorization breaker.
pub mod Types
pub mod Text
pub mod Selector
pub mod Policy
pub mod Status
pub mod Rule
pub mod Shape
pub mod Canary
pub mod Gate
pub mod Generations
pub mod Member
pub mod ReleaseSet
pub mod Review
pub mod Version
pub mod Breaker
pub mod Listen
