-- ===== src/Edge/Review.antt =====
-- lib/edgecore/traffic_review.go: the bounds of a traffic review policy. The integers of the message are
-- taken as natural numbers, as is the number of the mode: a negative one is refused wherever zero is.
pub mod Laws
use yu_feng.Base.{ℕ, ◌&&◌, ◌*◌, ◌^◌, ◌==◌, ltb, leb, Bool, true, false, if◌then◌else◌}
use yu_feng.Base.Result.{Result, ok, err, require, ◌>>=◌, ◌>>◌}

pub record TrafficReviewPolicy : Type 0 where
  pub mode : ℕ
  pub window_seconds : ℕ
  pub top_route_cells : ℕ
  pub max_candidates_per_window : ℕ
  pub max_evidence_bytes : ℕ
  pub vault_max_bytes : ℕ
  pub evidence_ttl_seconds : ℕ

-- TRAFFIC_REVIEW_MODE_OFF and TRAFFIC_REVIEW_MODE_SHADOW_CANDIDATES
abbrev pub mode_off : ℕ
mode_off = 1

abbrev pub mode_shadow_candidates : ℕ
mode_shadow_candidates = 5

-- kernel.TrafficReviewVaultBytes
abbrev pub vault_bytes : ℕ
vault_bytes = 256 * 2 ^ 20

-- kernel.TrafficReviewEvidenceBytes
abbrev pub evidence_bytes : ℕ
evidence_bytes = 8 * 2 ^ 10

pub data ReviewError : Type 0 where
  bad_mode bad_window bad_route_cells bad_candidates bad_evidence bad_vault bad_ttl : ReviewError

abbrev pub between : ℕ → ℕ → ℕ → Bool
between lo hi n = leb lo n && leb n hi

-- The bounds of a policy that is not off.
abbrev review_bounds : TrafficReviewPolicy → Result ReviewError (Unit {0})
review_bounds p = do
  require (p.window_seconds == 300) bad_window
  require (between 1 32 p.top_route_cells) bad_route_cells
  require (between 1 4 p.max_candidates_per_window) bad_candidates
  require (between 1 evidence_bytes p.max_evidence_bytes) bad_evidence
  require (between p.max_evidence_bytes vault_bytes p.vault_max_bytes) bad_vault
  require (between 3600 (24 * 3600) p.evidence_ttl_seconds) bad_ttl

-- `ValidateTrafficReviewPolicy` of a policy that is there.
unfoldable pub validate_traffic_review_policy : TrafficReviewPolicy → Result ReviewError (Unit {0})
validate_traffic_review_policy p = do
  require (between mode_off mode_shadow_candidates p.mode) bad_mode
  if p.mode == mode_off then ok tt else review_bounds p
