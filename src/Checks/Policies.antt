-- ===== src/Checks/Policies.antt =====
-- Tests of the policies, the rules, the shapes and the canary buckets.
use mathlib.Core.List.{Memᴰ}
use yu_feng.Base.{
  ℕ, String, true, false, [], ◌∷◌, some, ◌≡◌, refl, arith, All, if◌then◌else◌, is_empty,
}
use yu_feng.Base.Result.{Result, ok, err}
use yu_feng.Base.Assoc.{lookup}
use yu_feng.Edge.Selector.{selector_value}
use yu_feng.Edge.Types.{CanonicalView, InspectionSurface, coverage_of}
use yu_feng.Edge.Text.{cut, split, split_path, compiled_route_match}
use yu_feng.Edge.Policy.{
  PolicyCandidate, PolicyPredicate, any_detection, any_key, detection_matches_key,
  max_detection_score, policy_candidate_blocks_on, policy_matches_detection_key,
  policy_scope_matches, predicate_blocks, uncovered,
}
use yu_feng.Edge.Policy.Laws.{InForce, Reason, Uncovered, policy_block_complete, policy_block_sound}
use yu_feng.Edge.Policy.Keys.{Hit}
use yu_feng.Edge.Rule.{
  Rule, RuleDetector, RuleError, compile_rule, compile_rules, id_in, known_target,
  new_rule_detector,
}
use yu_feng.Edge.Shape.{
  CompiledShape, ShapeConstraint, ShapeError, ShapeSource, breaks, charset_ok, compile_shape,
  has_method, shape_covers, validate_constraints, validate_shape_source, violates, any_breaks,
}
use yu_feng.Edge.Shape.Laws.{Keeps, violates_sound}
use yu_feng.Edge.Canary.{canary_bucket, canary_selected_unit}
use yu_feng.Edge.Version.{Version, parse_version, first_field, atoi}
use yu_feng.Edge.Review.{TrafficReviewPolicy}
use yu_feng.Checks.Data.{
  test_detection, test_detection_key, test_policy, test_predicate, test_request, test_text,
  test_uuid, test_view,
}

blocks :
    policy_candidate_blocks_on test_text
      (some test_policy)
      (test_detection ∷ [])
      test_view
      test_request
    ≡ true
unfolding policy_candidate_blocks_on predicate_blocks policy_scope_matches max_detection_score
    any_key policy_matches_detection_key uncovered any_detection detection_matches_key coverage_of
blocks = refl

policy_block_sound_example :
    (p : PolicyPredicate) × InForce test_text test_policy p
      (test_detection ∷ [])
      test_view
      test_request
    × Reason p (test_detection ∷ []) test_view
policy_block_sound_example =
    policy_block_sound test_text (test_detection ∷ []) test_view test_request test_policy blocks

in_force : InForce test_text test_policy test_predicate (test_detection ∷ []) test_view test_request
unfolding policy_scope_matches max_detection_score
in_force = record { predicate = refl; not_log = refl; in_scope = refl; scored = omega arith }

hit : Hit (test_detection ∷ []) true test_view.coverage test_predicate.detection_keys
unfolding uncovered detection_matches_key coverage_of
hit = record {
  key = test_detection_key;
  detection = test_detection;
  listed = Memᴰ.head refl;
  seen = Memᴰ.head refl;
  covered = refl;
  matched = refl;
}

policy_block_complete_example :
    policy_candidate_blocks_on test_text
      (some test_policy)
      (test_detection ∷ [])
      test_view
      test_request
    ≡ true
policy_block_complete_example =
    policy_block_complete test_text (test_detection ∷ []) test_view test_request test_policy
      test_predicate in_force refl hit

abbrev absent_predicate : PolicyPredicate
absent_predicate = record test_predicate {
  require_match_present = false;
  detection_keys =
      some (record test_detection_key { target_location = InspectionSurface.body }) ∷ [];
}

abbrev absent_policy : PolicyCandidate
absent_policy = record test_policy { predicate = some absent_predicate }

absent-InForce : InForce test_text absent_policy absent_predicate [] test_view test_request
unfolding policy_scope_matches max_detection_score
absent-InForce = record { predicate = refl; not_log = refl; in_scope = refl; scored = omega arith }

body-Uncovered : All (Uncovered test_view.coverage) absent_predicate.detection_keys
unfolding uncovered coverage_of
body-Uncovered = (refl, tt)

abbrev test_rule : Rule
test_rule = record { id = "1"; pattern = "x"; target = "query" }

abbrev detector_of : Result RuleError RuleDetector → RuleDetector
detector_of (ok d) = d
detector_of (err e) = record { id = ""; rules = [] }

abbrev test_detector : RuleDetector
test_detector = detector_of (new_rule_detector test_text "h" (test_rule ∷ []))

compiles : new_rule_detector test_text "h" (test_rule ∷ []) ≡ ok test_detector
unfolding new_rule_detector compile_rules compile_rule id_in known_target
compiles = refl

abbrev root_source : ShapeSource
root_source = record {
  methods = "GET" ∷ [];
  route_template = "/";
  path_prefix = "";
  constraints = [];
}

abbrev shape_of : Result ShapeError CompiledShape → CompiledShape
shape_of (ok s) = s
shape_of (err e) = record { methods = []; route = []; path_prefix = ""; constraints = [] }

abbrev root_shape : CompiledShape
root_shape = shape_of (compile_shape test_text test_uuid (some root_source))

root_compiles : compile_shape test_text test_uuid (some root_source) ≡ ok root_shape
unfolding compile_shape validate_shape_source validate_constraints split_path
root_compiles = refl

no_segments : split_path root_source.route_template ≡ []
unfolding split_path
no_segments = refl

root_covered : shape_covers test_text test_uuid root_shape test_request test_view ≡ true
unfolding shape_covers compile_shape validate_shape_source validate_constraints split_path
root_covered = refl

-- A header of one to five printable characters, on the route "/a".
abbrev short_header : ShapeConstraint
short_header = record { selector = "header.X"; charset = ""; min_len = 1; max_len = 5 }

abbrev short_shape : CompiledShape
short_shape = record {
  methods = "GET" ∷ [];
  route = "a" ∷ [];
  path_prefix = "";
  constraints = short_header ∷ [];
}

abbrev header_view : CanonicalView
header_view = record test_view { headers = ("X", "ab" ∷ []) ∷ [] }

short_covered : shape_covers test_text test_uuid short_shape test_request header_view ≡ true
unfolding shape_covers compiled_route_match split_path
short_covered = refl

short_passes : violates test_text test_uuid short_shape test_request header_view ≡ false
unfolding violates shape_covers compiled_route_match split_path has_method any_breaks breaks
    selector_value charset_ok lookup cut
short_passes = refl

violates_sound_example :
    (has_method test_text test_uuid short_shape.methods (
        test_text.to_upper (
          if is_empty header_view.method
          then test_text.to_upper test_request.method
          else header_view.method))
      ≡ true)
    × All (Keeps test_text test_uuid test_request header_view) short_shape.constraints
violates_sound_example =
    violates_sound test_text test_uuid short_shape test_request header_view short_covered
      short_passes

abbrev test_head : String → ℕ
test_head s = 120

in_bucket : canary_selected_unit test_head "|" "unit" "r1" 5 ≡ true
unfolding canary_selected_unit canary_bucket
in_bucket = refl

abbrev newer : Version
newer = record { major = 1; minor = 10; patch = 0 }

abbrev older : Version
older = record { major = 1; minor = 9; patch = 3 }

parse_newer : parse_version "1.10.0-rc1" ≡ some newer
unfolding parse_version first_field atoi split
parse_newer = refl

parse_older : parse_version "1.9.3" ≡ some older
unfolding parse_version first_field atoi split
parse_older = refl

abbrev test_review : TrafficReviewPolicy
test_review = record {
  mode = 2;
  window_seconds = 300;
  top_route_cells = 8;
  max_candidates_per_window = 4;
  max_evidence_bytes = 4096;
  vault_max_bytes = 8192;
  evidence_ttl_seconds = 3600;
}
