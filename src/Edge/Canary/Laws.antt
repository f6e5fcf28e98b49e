-- ===== src/Edge/Canary/Laws.antt =====
-- How the buckets of lib/edgecore/canary.go grow with the percentage.
use yu_feng.Base.{ℕ, String, ◌≡◌, true, ◌≤◌, arith}
use yu_feng.Edge.Canary.{canary_bucket, canary_selected_unit}

module _ (sha256_head : String → ℕ) where
  -- A unit that a percentage selects for a release is selected by every larger percentage.
  pub canary_selected_unit_mono :
      (nul unit_id release_id : String) (p q : ℕ)
      → p ≤ q
      → canary_selected_unit sha256_head nul unit_id release_id p ≡ true
      → canary_selected_unit sha256_head nul unit_id release_id q ≡ true
  unfolding canary_selected_unit canary_bucket
  canary_selected_unit_mono nul unit_id release_id p q h s = ground arith
