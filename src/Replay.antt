-- ===== src/Replay.antt =====
-- lib/replay: the replay of a candidate over a corpus, whose report the gate of lib/kernel reads.
-- `canonicalize` is edgecore.Canonicalize with the default profile, and an inspector is what the
-- third-party engine finds in a view, if it does. The context is cancelled before the replay or not
-- at all; a corpus has fewer than 2 ^ 31 cases, so the counters of a report do not wrap.
pub mod Tally
pub mod Verdicts
use Prim.Native.Char.{code}
use yu_feng.Base.{
  ℕ, suc, String, Bool, true, false, not, ◌&&◌, ◌||◌, List, [], ◌∷◌, Option, none, some, ◌==◌, ltb,
  length, str_eq, is_empty, starts_with, any, is_some, if◌then◌else◌,
}
use yu_feng.Base.Result.{Result, ok, err, require, or_fail, wrap_err, ◌>>=◌, ◌>>◌}
use yu_feng.Kernel.Artifact.{Artifact, ReplayReport, Scope}
use yu_feng.Kernel.Release.{gate_passed}
use yu_feng.Edge.Types.{CanonicalView, Detection, Request, Verdict, Action, allow, block, observe}
use yu_feng.Edge.Text.{GoText, split, trim_right, segments_match}
use yu_feng.Edge.Rule.{
  RuleDetector, RuleError, detector_evaluate, new_rule_detector, scoped_evaluate,
}
use yu_feng.Edge.Policy.{
  PolicyCandidate, PolicyPredicate, policy_candidate_applies, policy_candidate_blocks,
}
use yu_feng.Edge.Shape.{
  CompiledShape, ShapeError, ShapeSource, shape_violates, validate_shape_source,
}
use yu_feng.Edge.Member.{Payloads}

pub record Case : Type 0 where
  pub id : String
  pub label : String
  pub request : Request

pub data ReplayError : Type 0 where
  artifact_required wrong_schema bad_payload keys_required : ReplayError
  no_engine not_inspected not_closed cancelled unknown_label : ReplayError
  rule_error : RuleError → ReplayError
  shape_error : ShapeError → ReplayError

abbrev pub empty_report : String → ReplayReport
empty_report corpus = record {
  malicious_total = 0;
  malicious_blocked = 0;
  benign_total = 0;
  benign_blocked = 0;
  management_total = 0;
  management_blocked = 0;
  passed = false;
  corpus_ref = corpus;
}

abbrev pub plus_if : Bool → ℕ → ℕ
plus_if true n = suc n
plus_if false n = n

abbrev pub is_malicious : Case → Bool
is_malicious c = str_eq c.label "malicious"

abbrev pub is_benign : Case → Bool
is_benign c = str_eq c.label "benign"

abbrev pub is_management : Case → Bool
is_management c = str_eq c.label "management"

-- account: a case of another label counts nothing.
unfoldable pub account : ReplayReport → Case → Bool → ReplayReport
account r c blocked =
    if is_malicious c
    then record r {
      malicious_total = suc r.malicious_total;
      malicious_blocked = plus_if blocked r.malicious_blocked;
    }
    else if is_benign c
    then record r {
      benign_total = suc r.benign_total;
      benign_blocked = plus_if blocked r.benign_blocked;
    }
    else if is_management c
    then record r {
      management_total = suc r.management_total;
      management_blocked = plus_if blocked r.management_blocked;
    }
    else r

abbrev pub is_block : Action → Bool
is_block block = true
is_block _ = false

abbrev pub gated : ReplayReport → ReplayReport
gated r = record r { passed = gate_passed r }

-- `strings.Trim(path, "/")` and splitReplayPath.
unfoldable pub trim_slashes : String → String
trim_slashes String.[] = ""
trim_slashes (String.◌∷◌ x s) =
    if code x == b'/' then trim_slashes s else trim_right b'/' (String.◌∷◌ x s)

unfoldable pub split_replay_path : String → List String
split_replay_path path = if is_empty (trim_slashes path) then [] else split b'/' (trim_slashes path)

unfoldable pub shape_covers_path : ShapeSource → String → Bool
shape_covers_path source path =
    if not (is_empty source.route_template)
    then length (split_replay_path source.route_template) == length (split_replay_path path)
      && segments_match (split_replay_path source.route_template) (split_replay_path path)
    else starts_with path source.path_prefix

-- shapeAssetCovers, and ScopeCoversAsset of lib/edgecore/scope.go.
unfoldable pub shape_asset_covers : Option Scope → String → Bool
shape_asset_covers none asset = true
shape_asset_covers (some scope) asset =
    length scope.asset_ids == 0 || any (λ a. str_eq a asset) scope.asset_ids

module _ {M : Type 0} (g : GoText) (uuid_charset : String → Bool) (p : Payloads M)
    (canonicalize : Request → CanonicalView) where
  -- NewScoped around the detector where the artifact has a route selector.
  unfoldable pub scoped_verdict : Option Scope → RuleDetector → Request → Verdict
  scoped_verdict none d req = detector_evaluate g d req
  scoped_verdict (some scope) d req =
      if is_empty scope.route_selector
      then detector_evaluate g d req
      else scoped_evaluate g scope.route_selector d req

  -- The loop of Run. An evaluation returns no error.
  unfoldable pub run_cases :
      (Case → Bool) → List Case → ReplayReport → Result ReplayError ReplayReport
  run_cases blocked [] r = ok r
  run_cases blocked (c ∷ cases) r = do
    require (is_malicious c || is_benign c || is_management c) unknown_label
    run_cases blocked cases (account r c (blocked c))

  abbrev pub rule_blocks : Option Scope → RuleDetector → Case → Bool
  rule_blocks scope d c = is_block (scoped_verdict scope d c.request).action

  unfoldable pub run_rules : Artifact → List Case → Result ReplayError ReplayReport
  run_rules a cases = do
    rules ← or_fail (p.rules a.payload) bad_payload
    d ← wrap_err rule_error (new_rule_detector g a.id rules)
    r ← run_cases (rule_blocks a.scope d) cases (empty_report "builtin:l1-rules-v1")
    ok (gated r)

  -- The loop of RunPolicy: a case outside the scope of the policy counts nothing.
  unfoldable pub policy_cases :
      PolicyCandidate
      → (CanonicalView → Option (List Detection))
      → List Case
      → ReplayReport
      → Result ReplayError ReplayReport
  policy_cases cand inspect [] r = ok r
  policy_cases cand inspect (c ∷ cases) r =
      let view = canonicalize c.request in
      if not (policy_candidate_applies g (some cand) c.request view)
      then policy_cases cand inspect cases r
      else or_fail (inspect view) not_inspected >>= λ found.
          policy_cases cand inspect cases
            (account r c (policy_candidate_blocks g (some cand) found view))

  abbrev pub has_keys : Option PolicyPredicate → Bool
  has_keys none = false
  has_keys (some pred) = ltb 0 (length pred.detection_keys)

  abbrev pub first_of :
      Option (CanonicalView → Option (List Detection))
      → Option (CanonicalView → Option (List Detection))
      → Option (CanonicalView → Option (List Detection))
  first_of none engine = engine
  first_of (some det) engine = some det

  -- What RunPolicy checks and reads before its loop; `engine` is what NewCorazaDetector makes, if it
  -- does, where no detector is given.
  unfoldable pub policy_inputs :
      Artifact
      → Option (CanonicalView → Option (List Detection))
      → Option (CanonicalView → Option (List Detection))
      → Result ReplayError (PolicyCandidate × (CanonicalView → Option (List Detection)))
  policy_inputs a det engine = do
    require (str_eq a.payload_schema "policy/v1") wrong_schema
    cand ← or_fail (p.policy a.payload) bad_payload
    require (has_keys cand.predicate) keys_required
    inspect ← or_fail (first_of det engine) no_engine
    ok (cand, inspect)

  -- The end of RunPolicy, where a detector of its own is closed.
  abbrev pub closed_report : Bool → Bool → ReplayReport → Result ReplayError ReplayReport
  closed_report closes stopped r = do
    require closes not_closed
    require (not stopped) cancelled
    ok (gated r)

  abbrev pub policy_replay :
      List Case
      → Bool
      → Bool
      → PolicyCandidate × (CanonicalView → Option (List Detection))
      → Result ReplayError ReplayReport
  policy_replay cases closes stopped (cand, inspect) =
      policy_cases cand inspect cases (empty_report "r5:policy/v1") >>= closed_report closes stopped

  unfoldable pub run_policy :
      Artifact
      → List Case
      → Option (CanonicalView → Option (List Detection))
      → Option (CanonicalView → Option (List Detection))
      → Bool
      → Bool
      → Result ReplayError ReplayReport
  run_policy a cases det engine closes stopped =
      policy_inputs a det engine >>= policy_replay cases (is_some det || closes) stopped

  -- The loop of RunShape: a case that the shape or the scope does not cover counts nothing.
  unfoldable pub shape_cases :
      ShapeSource → Option Scope → List Case → Bool → ReplayReport → Result ReplayError ReplayReport
  shape_cases source scope [] stopped r = ok r
  shape_cases source scope (c ∷ cases) stopped r =
      if stopped
      then err cancelled
      else if not (shape_covers_path source c.request.path)
          || not (shape_asset_covers scope c.request.asset_id)
      then shape_cases source scope cases stopped r
      else shape_cases source scope cases stopped (
          account r c
            (shape_violates g uuid_charset (some source) c.request (canonicalize c.request)))

  unfoldable pub shape_input : Artifact → Result ReplayError ShapeSource
  shape_input a = do
    require (str_eq a.payload_schema "shape/v1") wrong_schema
    source ← or_fail (p.shape_source a.payload) bad_payload
    constraints ← wrap_err shape_error (validate_shape_source (some source))
    ok source

  abbrev pub shape_replay :
      Option Scope → List Case → Bool → ShapeSource → Result ReplayError ReplayReport
  shape_replay scope cases stopped source =
      shape_cases source scope cases stopped (empty_report "builtin:l1-shape-v1") >>= λ r.
      ok (gated r)

  unfoldable pub run_shape : Artifact → List Case → Bool → Result ReplayError ReplayReport
  run_shape a cases stopped = shape_input a >>= shape_replay a.scope cases stopped

  -- Run
  unfoldable pub run_replay :
      Option Artifact
      → List Case
      → Option (CanonicalView → Option (List Detection))
      → Bool
      → Bool
      → Result ReplayError ReplayReport
  run_replay none cases engine closes stopped = err artifact_required
  run_replay (some a) cases engine closes stopped =
      if str_eq a.payload_schema "policy/v1"
      then run_policy a cases none engine closes stopped
      else if str_eq a.payload_schema "shape/v1"
      then run_shape a cases stopped
      else if str_eq a.payload_schema "rules/v1"
      then run_rules a cases
      else err wrong_schema
