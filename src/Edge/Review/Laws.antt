-- ===== src/Edge/Review/Laws.antt =====
-- What `ValidateTrafficReviewPolicy` of lib/edgecore/traffic_review.go lets through.
use yu_feng.Base.{◌≡◌, ◌≤◌, ◌<◌, ◌⊎◌, ◌↔◌, arith}
use yu_feng.Base.Result.{ok}
use yu_feng.Edge.Review.{
  TrafficReviewPolicy, mode_off, mode_shadow_candidates, evidence_bytes, vault_bytes,
  validate_traffic_review_policy,
}

-- The bounds that the policy is to keep while it is on.
pub record InBounds (p : TrafficReviewPolicy) : Type 0 where
  pub window : p.window_seconds ≡ 300
  pub cells : (1 ≤ p.top_route_cells) × (p.top_route_cells ≤ 32)
  pub candidates : (1 ≤ p.max_candidates_per_window) × (p.max_candidates_per_window ≤ 4)
  pub evidence : (1 ≤ p.max_evidence_bytes) × (p.max_evidence_bytes ≤ evidence_bytes)
  pub vault : (p.max_evidence_bytes ≤ p.vault_max_bytes) × (p.vault_max_bytes ≤ vault_bytes)
  pub ttl : (3600 ≤ p.evidence_ttl_seconds) × (p.evidence_ttl_seconds ≤ 86400)

-- A traffic review policy is accepted exactly where it is off, or its mode is one of those up to shadow
-- candidates and its window, route cells, candidates, evidence, vault and lifetime are within bounds.
pub validate_traffic_review_policy_iff :
    (p : TrafficReviewPolicy)
    → (validate_traffic_review_policy p ≡ ok tt) ↔ (
        (p.mode ≡ mode_off)
        ⊎ ((mode_off < p.mode) × (p.mode ≤ mode_shadow_candidates) × InBounds p))
unfolding validate_traffic_review_policy
validate_traffic_review_policy_iff p = (λ h. ground arith, λ h. ground arith)
