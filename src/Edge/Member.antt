-- ===== src/Edge/Member.antt =====
-- lib/edgecore/release_set.go: what the payload of a release item decodes to, and the errors of loading.
use yu_feng.Base.{String, Bool, false, List, Option, none, some, ltb, length}
use yu_feng.Base.Result.{Result, ok, require, or_fail, wrap_err, ◌>>=◌, ◌>>◌}
use yu_feng.Kernel.Artifact.{Artifact, Bytes, Kind, KernelError}
use yu_feng.Edge.Generations.{LoadError}
use yu_feng.Edge.Text.{GoText}
use yu_feng.Edge.Policy.{PolicyCandidate, PolicyPredicate}
use yu_feng.Edge.Rule.{Rule, RuleDetector, RuleError, new_rule_detector}
use yu_feng.Edge.Shape.{ShapeSource, CompiledShape, ShapeError, compile_shape}
use yu_feng.Edge.Review.{TrafficReviewPolicy, ReviewError}

pub record DetectorManifest : Type 0 where
  pub detector_id : String
  pub version : String
  pub tarball_sha256 : String

-- An eye of the inspection, which here is what it is called.
pub record Inspector : Type 0 where
  pub id : String

-- What the payloads decode to: JSON and protojson, and for the inspectors and the model profiles their
-- compilation and normalisation. `M` is a message that the set only holds.
pub record Payloads (M : Type 0) : Type 0 where
  pub rules : Bytes → Option (List Rule)
  pub policy : Bytes → Option PolicyCandidate
  pub shape_source : Bytes → Option ShapeSource
  pub manifest : Bytes → Option DetectorManifest
  pub message : Kind → Bytes → Option M
  pub review_policy : Bytes → Option TrafficReviewPolicy
  pub compile_inspector : DetectorManifest → Option Inspector
  pub normalize_model_profile : M → Option M
  pub profile_digest : Option M → String

pub data ApplyError : Type 0 where
  empty_item payload_error policy_keys_required inspector_error unsupported_kind : ApplyError
  listen_plan_not_here canary_out_of_range expired persist_failed : ApplyError
  edge_version_required edge_version_too_low policy_dependencies_incomplete : ApplyError
  manifest_mismatch profile_mismatch edge_version_mismatch : ApplyError
  load_error : LoadError → ApplyError
  kernel_error : KernelError → ApplyError
  rule_error : RuleError → ApplyError
  shape_error : ShapeError → ApplyError
  review_error : ReviewError → ApplyError

-- What a release that the gate runs is made of.
pub record Parts : Type 0 where
  pub detector : Option RuleDetector
  pub policy : Option PolicyCandidate
  pub shape : Option CompiledShape

abbrev has_keys : Option PolicyPredicate → Bool
has_keys none = false
has_keys (some p) = ltb 0 (length p.detection_keys)

module _ {M : Type 0} (g : GoText) (uuid_charset : String → Bool) (p : Payloads M) where
  unfoldable pub rule_parts : Artifact → Result ApplyError Parts
  rule_parts a = do
    rules ← or_fail (p.rules a.payload) payload_error
    d ← wrap_err rule_error (new_rule_detector g a.id rules)
    ok (record { detector = some d; policy = none; shape = none })

  unfoldable pub policy_parts : Artifact → Result ApplyError Parts
  policy_parts a = do
    cand ← or_fail (p.policy a.payload) payload_error
    require (has_keys cand.predicate) policy_keys_required
    ok (record { detector = none; policy = some cand; shape = none })

  unfoldable pub shape_parts : Artifact → Result ApplyError Parts
  shape_parts a = do
    src ← or_fail (p.shape_source a.payload) payload_error
    shape ← wrap_err shape_error (compile_shape g uuid_charset (some src))
    ok (record { detector = none; policy = none; shape = some shape })
