-- ===== src/Edge/Canary.antt =====
-- lib/edgecore/canary.go: buckets. SHA-256 is a function from a text to the number that its first eight
-- bytes stand for, below 2 ^ 64.
pub mod Laws
use Prim.Native.String.{◌++◌ as text_append}
use yu_feng.Base.{ℕ, String, Bool, true, false, ◌*◌, ◌%◌, ltb, leb, if◌then◌else◌}

module _ (sha256_head : String → ℕ) where
  unfoldable pub canary_bucket : String → ℕ → Bool
  canary_bucket key percent =
      if leb percent 0
      then false
      else if leb 100 percent
      then true
      else ltb (sha256_head key % 10000) (percent * 100)

  -- `CanarySelected`
  unfoldable pub canary_selected : String → ℕ → Bool
  canary_selected request_id percent = canary_bucket request_id percent

  -- `CanarySelectedUnit`; `nul` is the text of the one character 0.
  unfoldable pub canary_selected_unit : String → String → String → ℕ → Bool
  canary_selected_unit nul unit_id release_id percent =
      canary_bucket (text_append unit_id (text_append nul release_id)) percent
