-- ===== src/Checks/Data.antt =====
-- Small concrete inputs for the tests: a signature scheme, Go's text functions, artifacts and releases.
use yu_feng.Base.{
  ℕ, zero, suc, String, Bool, true, false, [], ◌∷◌, none, some, refl, ◌==◌, length, str_eq,
}
use yu_feng.Kernel.Artifact.{Artifact, Bytes, Crypto, Kind, ReplayReport}
use yu_feng.Kernel.Artifact.Laws.{Ed25519Laws}
use yu_feng.Edge.Types.{
  CanonicalView, Detection, Inspection, InspectionSurface, Posture, ReleaseMode, Request, allow,
  full,
}
use yu_feng.Edge.Text.{GoText}
use yu_feng.Edge.Policy.{DetectionKey, PolicyCandidate, PolicyPredicate}
use yu_feng.Edge.Gate.{Bucket, ManagedRelease}
use yu_feng.Edge.Status.{StatusInput}

abbrev pub fill : ℕ → Bytes
fill zero = []
fill (suc n) = 7 ∷ fill n

abbrev pub test_key : Bytes
test_key = fill 64

abbrev pub test_crypto : Crypto
test_crypto = record {
  marshal = λ a. some (1 ∷ []);
  sha256_hex = λ b. "h";
  ed25519_sign = λ key message. fill 64;
  ed25519_verify = λ pub_key message sig. length sig == 64;
  public_of = λ key. fill 32;
}

abbrev pub test_laws : Ed25519Laws test_crypto
test_laws = record {
  public_size = λ key. refl;
  signature_size = λ key message. refl;
  verifies = λ key message. refl;
}

abbrev pub test_report : ReplayReport
test_report = record {
  malicious_total = 2;
  malicious_blocked = 2;
  benign_total = 3;
  benign_blocked = 0;
  management_total = 1;
  management_blocked = 0;
  passed = true;
  corpus_ref = "corpus";
}

abbrev pub bare_artifact : Artifact
bare_artifact = record {
  id = "";
  kind = Kind.rule;
  payload = 5 ∷ [];
  payload_schema = "rules/v1";
  scope = none;
  ttl = none;
  supersedes = "";
  evidence_refs = [];
  replay_report = none;
  created_by = "";
  created_at = none;
  signature = none;
}

abbrev pub test_text : GoText
test_text = record {
  equal_fold = str_eq;
  to_upper = λ s. s;
  to_lower = λ s. s;
  trim_space = λ s. s;
  http_canonical = λ s. s;
  parse_query = λ s. none;
  query_unescape = λ s. some s;
  parse_json = λ b. none;
  string_of = λ b. "";
  compile_regexp = λ p. some (λ s. str_eq s p);
  is_digit = λ c. false;
  is_letter = λ c. false;
}

abbrev pub test_uuid : String → Bool
test_uuid s = false

abbrev pub test_bucket : Bucket
test_bucket unit_id release_id percent = true

abbrev pub test_view : CanonicalView
test_view = record {
  method = "GET";
  path = "/a";
  query = none;
  headers = [];
  body = [];
  host = "h";
  rejected = false;
  coverage =
      record { target = InspectionSurface.query; status = full; inspected = 1; total = 1 } ∷ [];
  profile_digest = "p";
}

abbrev pub test_request : Request
test_request = record {
  asset_id = "asset";
  unit_id = "unit";
  method = "GET";
  path = "/a";
  query = "x";
  headers = [];
  body = [];
}

abbrev pub test_detection : Detection
test_detection = record {
  inspector_id = "crs";
  rule_id = "942100";
  score = 5;
  location = InspectionSurface.query;
  selector = "";
  phase = "";
  version = "";
  manifest_digest = "";
  profile_digest = "";
}

abbrev pub test_inspection : Inspection
test_inspection = record {
  detections = test_detection ∷ [];
  coverage = test_view.coverage;
  rejected = false;
}

abbrev pub test_detection_key : DetectionKey
test_detection_key = record {
  rule_id = "942100";
  detector_id = "";
  detector_version = "";
  detector_manifest_digest = "";
  phase = "";
  target_location = InspectionSurface.query;
  target_selector = "";
  normalization_profile_digest = "";
}

abbrev pub test_predicate : PolicyPredicate
test_predicate = record {
  detection_keys = some test_detection_key ∷ [];
  min_anomaly_score = 0;
  require_match_present = true;
  coverage_requirement = full;
}

abbrev pub test_policy : PolicyCandidate
test_policy = record {
  policy_id = "policy";
  scope = none;
  predicate = some test_predicate;
  action = "block";
  dependencies = none;
}

abbrev pub test_release : ManagedRelease
test_release = record {
  release_id = "r1";
  artifact_id = "h";
  detector = none;
  prefix = "";
  policy = some test_policy;
  shape = none;
  mode = ReleaseMode.enforce;
  canary_percent = 0;
  expires_at = 100;
}

abbrev pub test_status : StatusInput
test_status = record {
  posture = Posture.reverse_proxy;
  gate_action = allow;
  view = test_view;
  oversize = false;
  body_present = false;
  engine_crash = false;
  missing_request_id = false;
  in_flight_exceeded = false;
  ext_authz_timeout = false;
}
