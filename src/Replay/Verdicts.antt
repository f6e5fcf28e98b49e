-- ===== src/Replay/Verdicts.antt =====
-- The replays of lib/replay against the corpus.
use yu_feng.Base.{
  String, ◌≡◌, refl, sym, ◌∙◌, Bool, true, false, not, ◌&&◌, ◌||◌, List, [], ◌∷◌, Option, none,
  some, str_eq, is_some, arith, inl, inr, if◌then◌else◌, Bool-cases, Option-cases,
}
use yu_feng.Base.Result.{ok, err, require, ◌>>=◌, ◌>>◌, >>=-eq-ok, ok_injective}
use yu_feng.Kernel.Artifact.{Artifact, ReplayReport, Scope}
use yu_feng.Edge.Types.{CanonicalView, Detection, Request}
use yu_feng.Edge.Text.{GoText}
use yu_feng.Edge.Rule.{Rule, RuleDetector, new_rule_detector}
use yu_feng.Edge.Policy.{
  PolicyCandidate, empty_request, policy_scope_matches, predicate_blocks, policy_candidate_applies,
  policy_candidate_blocks, policy_candidate_blocks_on,
}
use yu_feng.Edge.Shape.{ShapeSource, shape_violates}
use yu_feng.Edge.Member.{Payloads}
use yu_feng.Replay.{
  Case, account, empty_report, gated, is_benign, is_malicious, is_management, policy_cases,
  rule_blocks, run_cases, run_policy, run_rules, run_shape, shape_asset_covers, shape_cases,
  shape_covers_path, not_inspected, cancelled, not_closed, closed_report, policy_inputs,
  shape_input, unknown_label,
}
use yu_feng.Replay.Tally.{gate_passed-tally, passes, tally}

module _ {M : Type 0} (g : GoText) (uuid_charset : String → Bool) (p : Payloads M)
    (canonicalize : Request → CanonicalView) where
  run_cases-tally :
      (blocked : Case → Bool) (cases : List Case) (r out : ReplayReport)
      → run_cases g uuid_charset p canonicalize blocked cases r ≡ ok out
      → tally (λ c. true) blocked cases r ≡ out
  unfolding run_cases tally
  run_cases-tally blocked [] r out h = ok_injective h
  run_cases-tally blocked (c ∷ cases) r out h =
      let (_, known, rest) =
        >>=-eq-ok (require (is_malicious c || is_benign c || is_management c) unknown_label)
          (λ _. run_cases g uuid_charset p canonicalize blocked cases (account r c (blocked c)))
          h in
      run_cases-tally blocked cases (account r c (blocked c)) out rest

  -- A replay of rules that returns a report passes exactly where the corpus has a malicious case, the
  -- detector blocks every malicious case, and it blocks no benign and no management case.
  pub run_rules-passes :
      (a : Artifact) (cases : List Case) (rules : List Rule) (d : RuleDetector) (out : ReplayReport)
      → p.rules a.payload ≡ some rules
      → new_rule_detector g a.id rules ≡ ok d
      → run_rules g uuid_charset p canonicalize a cases ≡ ok out
      → out.passed ≡ passes (λ c. true) (rule_blocks g uuid_charset p canonicalize a.scope d) cases
  unfolding run_rules
  run_rules-passes a cases rules d out e f h =
      let blocked = rule_blocks g uuid_charset p canonicalize a.scope d in
      let start = empty_report "builtin:l1-rules-v1" in
      let h1 : (run_cases g uuid_charset p canonicalize blocked cases start >>= (λ r. ok (gated r)))
          ≡ ok out =
        rw (run_rules, e, f) at h in
      let (r, made, same) =
        >>=-eq-ok (run_cases g uuid_charset p canonicalize blocked cases start) (λ r. ok (gated r))
          h1 in
      let counted = run_cases-tally blocked cases start r made in
      let out_is : gated r ≡ out = ok_injective same in
      rw (← out_is, ← counted) (gate_passed-tally (λ c. true) blocked cases "builtin:l1-rules-v1")

  -- The verdict of a policy on a case, where the inspector finds anything at all.
  unfoldable pub policy_verdict :
      PolicyCandidate → (CanonicalView → Option (List Detection)) → Case → Bool
  policy_verdict cand inspect c = elim (inspect (canonicalize c.request)) [
    | none ↦ false
    | some found ↦ policy_candidate_blocks g (some cand) found (canonicalize c.request)
  ]

  abbrev pub in_scope : PolicyCandidate → Case → Bool
  in_scope cand c = policy_candidate_applies g (some cand) c.request (canonicalize c.request)

  policy_verdict_found :
      (cand : PolicyCandidate) (inspect : CanonicalView → Option (List Detection)) (c : Case)
      (found : List Detection)
      → inspect (canonicalize c.request) ≡ some found
      → policy_verdict cand inspect c
        ≡ policy_candidate_blocks g (some cand) found (canonicalize c.request)
  unfolding policy_verdict
  policy_verdict_found cand inspect c found e = rw (policy_verdict, e) refl

  policy_cases-tally :
      (cand : PolicyCandidate) (inspect : CanonicalView → Option (List Detection))
      (cases : List Case) (r out : ReplayReport)
      → policy_cases g uuid_charset p canonicalize cand inspect cases r ≡ ok out
      → tally (in_scope cand) (policy_verdict cand inspect) cases r ≡ out
  unfolding policy_cases tally
  policy_cases-tally cand inspect [] r out h = ok_injective h
  policy_cases-tally cand inspect (c ∷ cases) r out h = elim (Bool-cases (in_scope cand c)) [
    | inl counted ↦ elim (Option-cases (inspect (canonicalize c.request))) [
      | inl gone ↦ let h1 : err not_inspected ≡ ok out = rw (policy_cases, counted, gone) at h in cc
      | inr (found, e) ↦
          let b = policy_candidate_blocks g (some cand) found (canonicalize c.request) in
          let h1 : policy_cases g uuid_charset p canonicalize cand inspect cases (account r c b)
              ≡ ok out =
            rw (policy_cases, counted, e) at h in
          rw (counted, policy_verdict_found cand inspect c found e)
            (policy_cases-tally cand inspect cases (account r c b) out h1)
    ]
    | inr skipped ↦
        let h1 : policy_cases g uuid_charset p canonicalize cand inspect cases r ≡ ok out =
          rw (policy_cases, skipped) at h in
        rw (skipped) (policy_cases-tally cand inspect cases r out h1)
  ]

  -- A replay of a policy that returns a report passes exactly where the corpus has a malicious case
  -- in the policy's scope, every such case is blocked, and no benign or management case in scope is.
  pub run_policy-passes :
      (a : Artifact) (cases : List Case) (cand : PolicyCandidate)
      (det engine : Option (CanonicalView → Option (List Detection)))
      (inspect : CanonicalView → Option (List Detection)) (closes stopped : Bool)
      (out : ReplayReport)
      → policy_inputs g uuid_charset p canonicalize a det engine ≡ ok (cand, inspect)
      → run_policy g uuid_charset p canonicalize a cases det engine closes stopped ≡ ok out
      → out.passed ≡ passes (in_scope cand) (policy_verdict cand inspect) cases
  unfolding run_policy
  run_policy-passes a cases cand det engine inspect closes stopped out e h =
      let close = closed_report g uuid_charset p canonicalize (is_some det || closes) stopped in
      let start = empty_report "r5:policy/v1" in
      let h1 : (policy_cases g uuid_charset p canonicalize cand inspect cases start >>= close)
          ≡ ok out =
        rw (run_policy, e) at h in
      let (r, made, same) =
        >>=-eq-ok (policy_cases g uuid_charset p canonicalize cand inspect cases start) close h1 in
      let (_, _, left) =
        >>=-eq-ok (require (is_some det || closes) not_closed)
          (λ _. require (not stopped) cancelled >> ok (gated r)) same in
      let (_, _, last) = >>=-eq-ok (require (not stopped) cancelled) (λ _. ok (gated r)) left in
      let out_is : gated r ≡ out = ok_injective last in
      let counted = policy_cases-tally cand inspect cases start r made in
      rw (← out_is, ← counted)
        (gate_passed-tally (in_scope cand) (policy_verdict cand inspect) cases "r5:policy/v1")

  -- A block on one request is one on every other that is in scope.
  blocks_on_other :
      (cand : PolicyCandidate) (found : List Detection) (view : CanonicalView) (req other : Request)
      → policy_candidate_applies g (some cand) other view ≡ true
      → policy_candidate_blocks_on g (some cand) found view req ≡ true
      → policy_candidate_blocks_on g (some cand) found view other ≡ true
  unfolding policy_candidate_applies policy_candidate_blocks_on
  blocks_on_other cand found view req other scope h = elim (Option-cases cand.predicate) [
    | inl gone ↦ ground (arith, gone)
    | inr (pred, e) ↦
        let h1 : (if str_eq cand.action "log"
              then false
              else if not (policy_scope_matches g cand.scope req view)
              then false
              else predicate_blocks g pred found view)
            ≡ true =
          rw (policy_candidate_blocks_on, e) at h in
        rw (e, scope) (ground arith)
  ]

  -- What a replay counts as blocked by a policy, the policy blocks at the edge: for a case in scope,
  -- with the same detections and the same view, and the request itself.
  pub policy_verdict_sound :
      (cand : PolicyCandidate) (inspect : CanonicalView → Option (List Detection)) (c : Case)
      (found : List Detection)
      → inspect (canonicalize c.request) ≡ some found
      → in_scope cand c ≡ true
      → policy_verdict cand inspect c ≡ true
      → policy_candidate_blocks_on g (some cand) found (canonicalize c.request) c.request ≡ true
  unfolding policy_candidate_blocks
  policy_verdict_sound cand inspect c found e scope h =
      let blocked : policy_candidate_blocks g (some cand) found (canonicalize c.request) ≡ true =
        sym (policy_verdict_found cand inspect c found e) ∙ h in
      blocks_on_other cand found (canonicalize c.request) (empty_request g) c.request scope blocked

  -- The cases that a shape counts, and its verdict on them.
  abbrev pub covered : ShapeSource → Option Scope → Case → Bool
  covered source scope c =
      shape_covers_path source c.request.path && shape_asset_covers scope c.request.asset_id

  abbrev pub shape_verdict : ShapeSource → Case → Bool
  shape_verdict source c =
      shape_violates g uuid_charset (some source) c.request (canonicalize c.request)

  shape_cases-tally :
      (source : ShapeSource) (scope : Option Scope) (cases : List Case) (stopped : Bool)
      (r out : ReplayReport)
      → shape_cases g uuid_charset p canonicalize source scope cases stopped r ≡ ok out
      → tally (covered source scope) (shape_verdict source) cases r ≡ out
  unfolding shape_cases tally
  shape_cases-tally source scope [] stopped r out h = ok_injective h
  shape_cases-tally source scope (c ∷ cases) true r out h = cc
  shape_cases-tally source scope (c ∷ cases) false r out h =
      elim (Bool-cases (shape_covers_path source c.request.path)) [
        | inl on ↦ elim (Bool-cases (shape_asset_covers scope c.request.asset_id)) [
          | inl mine ↦
              let next = account r c (shape_verdict source c) in
              let h1 : shape_cases g uuid_charset p canonicalize source scope cases false next
                  ≡ ok out =
                rw (shape_cases, on, mine) at h in
              rw (on, mine) (shape_cases-tally source scope cases false next out h1)
          | inr not_mine ↦
              let h1 : shape_cases g uuid_charset p canonicalize source scope cases false r
                  ≡ ok out =
                rw (shape_cases, on, not_mine) at h in
              rw (on, not_mine) (shape_cases-tally source scope cases false r out h1)
        ]
        | inr off ↦
            let h1 : shape_cases g uuid_charset p canonicalize source scope cases false r ≡ ok out =
              rw (shape_cases, off) at h in
            rw (off) (shape_cases-tally source scope cases false r out h1)
      ]

  -- A replay of a shape that returns a report passes exactly where the corpus has a malicious case
  -- that the shape covers, every such case violates it, and no benign or management case does that it
  -- covers.
  pub run_shape-passes :
      (a : Artifact) (cases : List Case) (source : ShapeSource) (stopped : Bool)
      (out : ReplayReport)
      → shape_input g uuid_charset p canonicalize a ≡ ok source
      → run_shape g uuid_charset p canonicalize a cases stopped ≡ ok out
      → out.passed ≡ passes (covered source a.scope) (shape_verdict source) cases
  unfolding run_shape
  run_shape-passes a cases source stopped out e h =
      let start = empty_report "builtin:l1-shape-v1" in
      let h1 : (shape_cases g uuid_charset p canonicalize source a.scope cases stopped start
            >>= (λ r. ok (gated r)))
          ≡ ok out =
        rw (run_shape, e) at h in
      let (r, made, same) =
        >>=-eq-ok (shape_cases g uuid_charset p canonicalize source a.scope cases stopped start)
          (λ r. ok (gated r)) h1 in
      let out_is : gated r ≡ out = ok_injective same in
      let counted = shape_cases-tally source a.scope cases stopped start r made in
      rw (← out_is, ← counted)
        (gate_passed-tally (covered source a.scope) (shape_verdict source) cases
          "builtin:l1-shape-v1")
