-- ===== src/Kernel.antt =====
-- The governance kernel: signed artifacts, the release life cycle and signed generations
-- (lib/kernel/artifact.go, lib/kernel/release.go, lib/kernel/generation.go), and the listen plans of
-- units (lib/kernel/listen_plan.go).
pub mod Artifact
pub mod Release
pub mod Generation
pub mod ListenPlan
