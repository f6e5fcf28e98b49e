-- ===== src/Checks/Replays.antt =====
-- Tests of the replay of candidates.
use yu_feng.Base.{
  ℕ, String, true, false, List, [], ◌∷◌, Option, none, some, ◌≡◌, refl, str_eq, if◌then◌else◌,
}
use yu_feng.Base.Result.{ok}
use yu_feng.Kernel.Artifact.{Artifact, ReplayReport}
use yu_feng.Kernel.Release.{gate_passed}
use yu_feng.Edge.Types.{CanonicalView, Detection, Request, coverage_of}
use yu_feng.Edge.Rule.{
  RuleDetector, compile_rule, compile_rules, decoded_query, detector_evaluate, detector_match,
  id_in, known_target, match_rules, new_rule_detector, target_string,
}
use yu_feng.Edge.Policy.{
  policy_candidate_applies, policy_candidate_blocks, policy_candidate_blocks_on, any_detection,
  any_key, detection_matches_key, policy_matches_detection_key, policy_scope_matches,
  predicate_blocks, uncovered,
}
use yu_feng.Edge.Shape.{
  ShapeSource, any_breaks, compile_shape, has_method, shape_covers, shape_violates,
  validate_constraints, validate_shape_source, violates,
}
use yu_feng.Edge.Text.{
  compiled_route_match, trim_right, is_placeholder, segments_match, split, split_path,
}
use yu_feng.Edge.Member.{Payloads}
use yu_feng.Replay.{
  Case, account, empty_report, policy_cases, policy_inputs, rule_blocks, run_cases, run_policy,
  run_rules, run_shape, scoped_verdict, shape_asset_covers, shape_cases, shape_covers_path,
  shape_input, split_replay_path, trim_slashes,
}
use yu_feng.Replay.Tally.{gate_passed-tally, passes, tally}
use yu_feng.Replay.Verdicts.{
  covered, in_scope, policy_verdict, policy_verdict_sound, run_policy-passes, run_rules-passes,
  run_shape-passes, shape_verdict,
}
use yu_feng.Checks.Data.{
  bare_artifact, test_detection, test_policy, test_request, test_text, test_uuid, test_view,
}

abbrev case_of : String → String → String → String → Case
case_of id label method query = record {
  id = id;
  label = label;
  request = record test_request { method = method; query = query };
}

abbrev attack : Case
attack = case_of "m" "malicious" "GET" "x"

abbrev corpus : List Case
corpus = attack ∷ case_of "b" "benign" "POST" "y" ∷ case_of "l" "management" "POST" "z" ∷ []

abbrev view_of : Request → CanonicalView
view_of req = record test_view { method = req.method }

abbrev post_only : ShapeSource
post_only = record {
  methods = "POST" ∷ [];
  route_template = "/a";
  path_prefix = "";
  constraints = [];
}

abbrev payloads : Payloads ℕ
payloads = record {
  rules = λ b. some (record { id = "1"; pattern = "x"; target = "query" } ∷ []);
  policy = λ b. some test_policy;
  shape_source = λ b. some post_only;
  manifest = λ b. none;
  message = λ k b. some 0;
  review_policy = λ b. none;
  compile_inspector = λ m. none;
  normalize_model_profile = λ m. some m;
  profile_digest = λ m. "d";
}

abbrev inspects : CanonicalView → Option (List Detection)
inspects view = if str_eq view.method "GET" then some (test_detection ∷ []) else some []

abbrev report_of : String → ReplayReport
report_of name = record {
  malicious_total = 1;
  malicious_blocked = 1;
  benign_total = 1;
  benign_blocked = 0;
  management_total = 1;
  management_blocked = 0;
  passed = true;
  corpus_ref = name;
}

gate_passed-tally_example :
    gate_passed (tally (λ c. true) (λ c. str_eq c.id "m") corpus (empty_report "c"))
    ≡ passes (λ c. true) (λ c. str_eq c.id "m") corpus
gate_passed-tally_example = gate_passed-tally (λ c. true) (λ c. str_eq c.id "m") corpus "c"

abbrev detector : RuleDetector
detector = record {
  id = "";
  rules =
      record { rule = record { id = "1"; pattern = "x"; target = "query" }; re = λ s. str_eq s "x" }
      ∷ [];
}

compiles :
    new_rule_detector test_text "" (record { id = "1"; pattern = "x"; target = "query" } ∷ [])
    ≡ ok detector
unfolding new_rule_detector compile_rules compile_rule id_in known_target
compiles = refl

rules_run :
    run_rules test_text test_uuid payloads view_of bare_artifact corpus
    ≡ ok (report_of "builtin:l1-rules-v1")
unfolding run_rules run_cases account scoped_verdict detector_evaluate detector_match match_rules
    target_string decoded_query new_rule_detector compile_rules compile_rule id_in known_target
    gate_passed
rules_run = refl

run_rules-passes_example :
    true
    ≡ passes (λ c. true) (rule_blocks test_text test_uuid payloads view_of none detector) corpus
run_rules-passes_example =
    run_rules-passes test_text test_uuid payloads view_of bare_artifact corpus
      (record { id = "1"; pattern = "x"; target = "query" } ∷ []) detector
      (report_of "builtin:l1-rules-v1") refl compiles rules_run

abbrev policy_artifact : Artifact
policy_artifact = record bare_artifact { payload_schema = "policy/v1" }

policy_reads :
    policy_inputs test_text test_uuid payloads view_of policy_artifact (some inspects) none
    ≡ ok (test_policy, inspects)
unfolding policy_inputs
policy_reads = refl

policy_run :
    run_policy test_text test_uuid payloads view_of policy_artifact corpus
      (some inspects)
      none
      true
      false
    ≡ ok (report_of "r5:policy/v1")
unfolding run_policy policy_inputs policy_cases account policy_candidate_applies
    policy_candidate_blocks policy_candidate_blocks_on policy_scope_matches predicate_blocks
    gate_passed any_key policy_matches_detection_key uncovered coverage_of any_detection
    detection_matches_key
policy_run = refl

run_policy-passes_example :
    true
    ≡ passes
        (in_scope test_text test_uuid payloads view_of test_policy)
        (policy_verdict test_text test_uuid payloads view_of test_policy inspects)
        corpus
run_policy-passes_example =
    run_policy-passes test_text test_uuid payloads view_of policy_artifact corpus test_policy
      (some inspects) none inspects true false (report_of "r5:policy/v1") policy_reads policy_run

policy_verdict_sound_example :
    policy_candidate_blocks_on test_text
      (some test_policy)
      (test_detection ∷ [])
      (view_of attack.request)
      attack.request
    ≡ true
policy_verdict_sound_example =
    policy_verdict_sound test_text test_uuid payloads view_of test_policy inspects attack
      (test_detection ∷ []) refl (unfold policy_candidate_applies policy_scope_matches in refl)
      (unfold policy_verdict policy_candidate_blocks policy_candidate_blocks_on policy_scope_matches
          predicate_blocks any_key policy_matches_detection_key uncovered coverage_of any_detection
          detection_matches_key in
        refl)

abbrev shape_artifact : Artifact
shape_artifact = record bare_artifact { payload_schema = "shape/v1" }

shape_reads : shape_input test_text test_uuid payloads view_of shape_artifact ≡ ok post_only
unfolding shape_input validate_shape_source validate_constraints
shape_reads = refl

shape_run :
    run_shape test_text test_uuid payloads view_of shape_artifact corpus false
    ≡ ok (report_of "builtin:l1-shape-v1")
unfolding run_shape shape_input validate_shape_source validate_constraints shape_cases account
    shape_violates compile_shape violates shape_covers has_method any_breaks shape_covers_path
    shape_asset_covers split_replay_path trim_slashes split segments_match is_placeholder split_path
    gate_passed trim_right compiled_route_match
shape_run = refl

run_shape-passes_example :
    true
    ≡ passes
        (covered test_text test_uuid payloads view_of post_only none)
        (shape_verdict test_text test_uuid payloads view_of post_only)
        corpus
run_shape-passes_example =
    run_shape-passes test_text test_uuid payloads view_of shape_artifact corpus post_only false
      (report_of "builtin:l1-shape-v1") shape_reads shape_run
