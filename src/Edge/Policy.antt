-- ===== src/Edge/Policy.antt =====
-- lib/edgecore/evaluate.go: whether a policy candidate blocks a request. A pointer that may be nil is
-- an `Option`.
pub mod Keys
pub mod Laws
use yu_feng.Base.{
  ℕ, String, Bool, true, false, not, ◌&&◌, ◌||◌, List, [], ◌∷◌, Option, none, some, ◌-◌, ◌+◌, ◌/◌,
  ◌==◌, ltb, leb, length, str_eq, is_empty, is_some, starts_with, if◌then◌else◌,
}
use yu_feng.Base.Assoc.{lookup}
use yu_feng.Edge.Types.{
  CanonicalView, Coverage, CoverageStatus, Detection, InspectionSurface, Request, Action,
  Inspection, allow, block, full, absent, body, status_eq, surface_eq, coverage_of,
}
use yu_feng.Edge.Text.{GoText, before, route_template_match, string_in_fold}
use yu_feng.Edge.Selector.{header_first, selector_value}

pub record DetectionKey : Type 0 where
  pub rule_id : String
  pub detector_id : String
  pub detector_version : String
  pub detector_manifest_digest : String
  pub phase : String
  pub target_location : InspectionSurface
  pub target_selector : String
  pub normalization_profile_digest : String

pub record PolicyScope : Type 0 where
  pub asset_id : String
  pub hosts : List String
  pub route_template : String
  pub path_prefix : String
  pub methods : List String
  pub content_types : List String
  pub target_selectors : List String

pub record PolicyPredicate : Type 0 where
  pub detection_keys : List (Option DetectionKey)
  pub min_anomaly_score : ℕ
  pub require_match_present : Bool
  pub coverage_requirement : CoverageStatus

pub record PolicyDependencies : Type 0 where
  pub detector_manifest_digest : String
  pub normalizer_profile_digest : String
  pub min_edge_version : String

pub record PolicyCandidate : Type 0 where
  pub policy_id : String
  pub scope : Option PolicyScope
  pub predicate : Option PolicyPredicate
  pub action : String
  pub dependencies : Option PolicyDependencies

-- `GateOrder`
unfoldable pub gate_order : Bool → Bool → Bool → Action
gate_order policy_block rule_block shape_block =
    if policy_block
    then block
    else if rule_block
    then block
    else if shape_block
    then block
    else allow

-- `ShouldSkipBodyPolicy`
unfoldable pub should_skip_body_policy : CanonicalView → Bool
should_skip_body_policy view = not (status_eq (coverage_of view.coverage body) full)

-- `key.F != "" && d.F != key.F`, negated: an empty field of the key matches anything.
abbrev pub fits : String → String → Bool
fits key value = is_empty key || str_eq value key

-- `detectionMatchesKey`
unfoldable pub detection_matches_key : Detection → DetectionKey → Bool
detection_matches_key d key =
    if not (fits key.rule_id d.rule_id)
    then false
    else if not (fits key.detector_id d.inspector_id)
    then false
    else if not (fits key.detector_version d.version)
    then false
    else if not (fits key.detector_manifest_digest d.manifest_digest)
    then false
    else if not (fits key.phase d.phase)
    then false
    else if not (surface_eq key.target_location InspectionSurface.unspecified)
        && not (surface_eq d.location key.target_location)
    then false
    else if not (fits key.target_selector d.selector)
    then false
    else if not (fits key.normalization_profile_digest d.profile_digest)
    then false
    else not (is_empty key.rule_id) || not (is_empty key.detector_id)

unfoldable pub any_detection : List Detection → DetectionKey → Bool
any_detection [] key = false
any_detection (d ∷ found) key =
    if detection_matches_key d key then true else any_detection found key

-- The coverage tests of `PolicyMatchesDetectionKey` refuse the surface.
unfoldable pub uncovered : InspectionSurface → Bool → List Coverage → Bool
uncovered loc require_full cov =
    if surface_eq loc InspectionSurface.unspecified
    then false
    else if require_full && not (status_eq (coverage_of cov loc) full)
    then true
    else surface_eq loc body && status_eq (coverage_of cov loc) absent

-- `PolicyMatchesDetectionKey`
unfoldable pub policy_matches_detection_key :
    List Detection → Option DetectionKey → Bool → List Coverage → Bool
policy_matches_detection_key found none require_full cov = false
policy_matches_detection_key found (some key) require_full cov =
    if uncovered key.target_location require_full cov then false else any_detection found key

-- `PolicyMatchesKey`
unfoldable pub policy_matches_key :
    List Detection → String → InspectionSurface → Bool → List Coverage → Bool
policy_matches_key found want_rule loc require_full cov =
    policy_matches_detection_key found
      (some (record {
        rule_id = want_rule;
        detector_id = "";
        detector_version = "";
        detector_manifest_digest = "";
        phase = "";
        target_location = loc;
        target_selector = "";
        normalization_profile_digest = "";
      }))
      require_full cov

-- The loop of `maxDetectionScore`.
max_from : ℕ → List Detection → ℕ
max_from max [] = max
max_from max (d ∷ found) = max_from (if ltb max d.score then d.score else max) found

-- `maxDetectionScore`
unfoldable pub max_detection_score : List Detection → ℕ
unfolding max_from
max_detection_score found = max_from 0 found

-- The loop over the keys, which skips nil and stops at the first hit.
unfoldable pub any_key : List Detection → Bool → List Coverage → List (Option DetectionKey) → Bool
any_key found require_full cov [] = false
any_key found require_full cov (key ∷ keys) =
    if is_some key && policy_matches_detection_key found key require_full cov
    then true
    else any_key found require_full cov keys

-- `req.Headers[name]`, "" where it is missing.
listed : String → Request → String
listed name req = elim (lookup name req.headers) [ none ↦ "" | some h ↦ h ]

module _ (g : GoText) where
  -- The host of the view, or of a header of the request, without its port.
  unfoldable pub scope_host : CanonicalView → Request → String
  unfolding listed
  scope_host view req = before b':' (
      if not (is_empty view.host)
      then view.host
      else if not (is_empty (listed "host" req))
      then listed "host" req
      else listed "Host" req)

  -- The media type without its parameters.
  unfoldable pub scope_content_type : CanonicalView → Request → String
  scope_content_type view req =
      let ct = header_first g view req "content-type" in
      if str_eq (before b';' ct) ct then ct else g.trim_space (before b';' ct)

  abbrev pub scope_path : CanonicalView → Request → String
  scope_path view req = if is_empty view.path then req.path else view.path

  abbrev pub scope_method : CanonicalView → Request → String
  scope_method view req = if is_empty view.method then g.to_upper req.method else view.method

  -- `len(list) > 0 && !stringInFold(list, want)`
  abbrev pub outside : List String → String → Bool
  outside list want = ltb 0 (length list) && not (string_in_fold g list want)

  unfoldable pub selectors_present : List String → Request → CanonicalView → Bool
  selectors_present [] req view = true
  selectors_present (sel ∷ sels) req view =
      if is_some (selector_value g sel req view) then selectors_present sels req view else false

  -- `PolicyScopeMatches`
  unfoldable pub policy_scope_matches : Option PolicyScope → Request → CanonicalView → Bool
  policy_scope_matches none req view = true
  policy_scope_matches (some scope) req view =
      if not (is_empty scope.asset_id)
        && not (is_empty req.asset_id)
        && not (str_eq scope.asset_id req.asset_id)
      then false
      else if outside scope.hosts (scope_host view req)
      then false
      else if not (is_empty scope.route_template)
          && not (route_template_match scope.route_template (scope_path view req))
      then false
      else if not (is_empty scope.path_prefix)
          && not (starts_with (scope_path view req) scope.path_prefix)
      then false
      else if outside scope.methods (scope_method view req)
      then false
      else if outside scope.content_types (scope_content_type view req)
      then false
      else selectors_present scope.target_selectors req view

  -- The keys, the score and the coverage of a predicate.
  unfoldable pub predicate_blocks : PolicyPredicate → List Detection → CanonicalView → Bool
  predicate_blocks p found view =
      let require_full = status_eq p.coverage_requirement full in
      let hit = any_key found require_full view.coverage p.detection_keys in
      if ltb 0 p.min_anomaly_score && ltb (max_detection_score found) p.min_anomaly_score
      then false
      else if p.require_match_present || ltb 0 (length p.detection_keys)
      then (if not p.require_match_present && require_full then not hit else hit)
      else false

  -- `PolicyCandidateBlocksOn`
  unfoldable pub policy_candidate_blocks_on :
      Option PolicyCandidate → List Detection → CanonicalView → Request → Bool
  policy_candidate_blocks_on none found view req = false
  policy_candidate_blocks_on (some cand) found view req = elim cand.predicate [
    | none ↦ false
    | some p ↦
        if str_eq cand.action "log"
        then false
        else if not (policy_scope_matches cand.scope req view)
        then false
        else predicate_blocks p found view
  ]

  abbrev pub empty_request : Request
  empty_request = record {
    asset_id = "";
    unit_id = "";
    method = "";
    path = "";
    query = "";
    headers = [];
    body = [];
  }

  -- `PolicyCandidateBlocks`
  unfoldable pub policy_candidate_blocks :
      Option PolicyCandidate → List Detection → CanonicalView → Bool
  policy_candidate_blocks cand found view = policy_candidate_blocks_on cand found view empty_request

  -- `PolicyCandidateApplies`
  unfoldable pub policy_candidate_applies : Option PolicyCandidate → Request → CanonicalView → Bool
  policy_candidate_applies none req view = false
  policy_candidate_applies (some cand) req view = policy_scope_matches cand.scope req view

-- `AutoCanaryAllowed`, for a percentage at which the sum stays below 2 ^ 31.
unfoldable pub auto_canary_allowed : ℕ → ℕ → Bool
auto_canary_allowed bound_units percent =
    if leb percent 0
    then false
    else (let need = (100 + percent - 1) / percent in leb need bound_units)
