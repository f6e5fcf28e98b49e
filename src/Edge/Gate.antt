-- ===== src/Edge/Gate.antt =====
-- The gate of lib/edgecore/release_set.go: what the releases of a snapshot decide about one request. A
-- counter is shared by reference in Go; here the map of the counters comes back.
pub mod Judge
pub mod Decide
pub mod Account
pub mod Keys
use Prim.Native.String.{◌++◌ as text_append}
use yu_feng.Base.{
  ℕ, String, Bool, true, false, not, ◌&&◌, ◌||◌, List, [], ◌∷◌, ◌++◌, Option, none, some, ◌+◌, ◌%◌,
  ◌^◌, ltb, is_empty, is_some, starts_with, if◌then◌else◌,
}
use yu_feng.Base.Assoc.{Assoc, lookup, insert}
use yu_feng.Edge.Types.{
  Posture, ReleaseMode, canary, enforce, CanonicalView, Request, Action, allow, observe, block,
  is_block, Verdict, Detection, Inspection,
}
use yu_feng.Edge.Text.{GoText}
use yu_feng.Edge.Policy.{PolicyCandidate, policy_candidate_blocks_on, gate_order}
use yu_feng.Edge.Rule.{RuleDetector, detector_match}
use yu_feng.Edge.Shape.{CompiledShape, violates}
use yu_feng.Edge.Status.{intercepts, observes}

pub record ManagedRelease : Type 0 where
  pub release_id : String
  pub artifact_id : String
  pub detector : Option RuleDetector
  pub prefix : String
  pub policy : Option PolicyCandidate
  pub shape : Option CompiledShape
  pub mode : ReleaseMode
  pub canary_percent : ℕ
  pub expires_at : ℕ

pub record ReleaseObservation : Type 0 where
  pub release_id : String
  pub artifact_id : String
  pub mode : ReleaseMode
  pub canary_percent : ℕ
  pub canary_selected : Bool
  pub matched : Bool

pub record Decision : Type 0 where
  pub action : Action
  pub would_have_blocked : Bool
  pub verdicts : List Verdict
  pub observations : List ReleaseObservation
  pub inspection : Inspection
  pub posture : Posture

pub record Counter : Type 0 where
  pub requests : ℕ
  pub blocks : ℕ
  pub observed : ℕ
  pub canary_sel : ℕ
  pub latencies : List ℕ

abbrev pub new_counter : Counter
new_counter = record { requests = 0; blocks = 0; observed = 0; canary_sel = 0; latencies = [] }

-- An atomic.Uint64 wraps.
abbrev pub add_one : ℕ → ℕ
add_one n = (n + 1) % 2 ^ 64

unfoldable pub worse_action : Action → Action → Action
worse_action block b = block
worse_action allow b = b
worse_action observe block = block
worse_action observe b = observe

unfoldable pub action_for_mode : ReleaseMode → Bool → Bool → Action
action_for_mode mode false selected = allow
action_for_mode enforce true selected = block
action_for_mode canary true selected = if selected then block else observe
action_for_mode mode true selected = observe

unfoldable pub account_release : Option Counter → Action → Bool → Option Counter
account_release none action selected = none
account_release (some c) action selected = some (record c {
  requests = add_one c.requests;
  blocks = elim action [ block ↦ add_one c.blocks | _ ↦ c.blocks ];
  observed = elim action [ observe ↦ add_one c.observed | _ ↦ c.observed ];
  canary_sel = if selected then add_one c.canary_sel else c.canary_sel;
})

-- A change through the pointer that the map holds.
abbrev pub store : String → Option Counter → Assoc Counter → Assoc Counter
store id none counters = counters
store id (some c) counters = insert id c counters

-- What the three kinds of release come to: whether it matched, and the verdict to log.
pub record Judgement : Type 0 where
  pub matched : Bool
  pub verdict : Option Verdict

abbrev observed_verdict : String → String → String → Option Verdict
observed_verdict artifact_id rule_id message =
    some
      (record { detector_id = artifact_id; action = observe; rule_id = rule_id; message = message })

-- The variables of the loop of `gateWith`.
pub record Loop : Type 0 where
  pub policy_block : Bool
  pub rule_block : Bool
  pub shape_block : Bool
  pub combined : Action
  pub verdicts : List Verdict
  pub observations : List ReleaseObservation
  pub counters : Assoc Counter

-- `if v.RuleID != "" { append }`
abbrev pub logged : Option Verdict → List Verdict → List Verdict
logged none vs = vs
logged (some v) vs = if is_empty v.rule_id then vs else vs ++ v ∷ []

-- A block is accounted for as an observation where the posture cannot intercept.
abbrev pub accounted : Bool → Action → Action
accounted count_block action = if not count_block && is_block action then observe else action

abbrev pub is_canary : ReleaseMode → Bool
is_canary canary = true
is_canary _ = false

abbrev pub start : Assoc Counter → Loop
start counters = record {
  policy_block = false;
  rule_block = false;
  shape_block = false;
  combined = allow;
  verdicts = [];
  observations = [];
  counters = counters;
}

-- The decision that the loop's variables come to.
unfoldable pub conclude : Posture → Inspection → Loop → Decision
conclude posture insp l =
    let blocked = gate_order l.policy_block l.rule_block l.shape_block in
    let action = if is_block blocked then block else l.combined in
    record {
      action = if observes posture then allow else action;
      would_have_blocked = is_block action;
      verdicts = l.verdicts;
      observations = l.observations;
      inspection = insp;
      posture = posture;
    }

-- `CanarySelectedUnit` of a unit, a release and a percentage.
abbrev pub Bucket : Type 0
Bucket = String → String → ℕ → Bool

module _ (g : GoText) (uuid_charset : String → Bool) (bucket : Bucket) where
  -- `managedRelease.ruleMatch`
  unfoldable pub rule_match : ManagedRelease → Request → Option String
  rule_match r req =
      if not (is_some r.detector)
      then none
      else if not (is_empty r.prefix) && not (starts_with req.path r.prefix)
      then none
      else detector_match g r.detector req

  pub judge_rule : ManagedRelease → Request → Judgement
  judge_rule r req = elim (rule_match r req) [
    | none ↦ record { matched = false; verdict = none }
    | some rule_id ↦ record {
      matched = true;
      verdict = observed_verdict r.artifact_id rule_id (text_append "matched rule " rule_id);
    }
  ]

  pub judge_shape : CompiledShape → ManagedRelease → Request → CanonicalView → Judgement
  judge_shape s r req view =
      if violates g uuid_charset s req view
      then record {
        matched = true;
        verdict = observed_verdict r.artifact_id "shape" "request shape violated";
      }
      else record { matched = false; verdict = none }

  -- The `switch` of the loop; a release of no kind is passed over.
  unfoldable pub judge :
      ManagedRelease → Request → List Detection → CanonicalView → Option Judgement
  judge r req found view = elim r.policy [
    | some p ↦
        some (record {
          matched = policy_candidate_blocks_on g (some p) found view req;
          verdict = none;
        })
    | none ↦ elim r.detector [
      | some d ↦ some (judge_rule r req)
      | none ↦ elim r.shape [ some s ↦ some (judge_shape s r req view) | none ↦ none ]
    ]
  ]

  unfoldable pub selected_for : ManagedRelease → Request → Bool
  selected_for r req =
      is_canary r.mode
      && not (is_empty req.unit_id)
      && bucket req.unit_id r.release_id r.canary_percent

  -- One round of the loop, for a release that was judged.
  unfoldable pub advance : Bool → ManagedRelease → Request → Judgement → Loop → Loop
  advance count_block r req j l =
      let selected = selected_for r req in
      let action = action_for_mode r.mode j.matched selected in
      record {
        policy_block = l.policy_block || (is_some r.policy && is_block action);
        rule_block = l.rule_block || (is_some r.detector && is_block action);
        shape_block = l.shape_block || (is_some r.shape && is_block action);
        combined = worse_action l.combined action;
        verdicts = logged j.verdict l.verdicts;
        observations =
            l.observations
            ++ record {
              release_id = r.release_id;
              artifact_id = r.artifact_id;
              mode = r.mode;
              canary_percent = r.canary_percent;
              canary_selected = selected;
              matched = j.matched;
            }
              ∷ [];
        counters =
            store r.release_id
              (account_release (lookup r.release_id l.counters) (accounted count_block action)
                selected)
              l.counters;
      }

  unfoldable pub gate_round :
      Bool → Request → List Detection → CanonicalView → ManagedRelease → Loop → Loop
  gate_round count_block req found view r l = elim (judge r req found view) [
    | none ↦ l
    | some j ↦ advance count_block r req j l
  ]

  unfoldable pub gate_loop :
      Bool → Request → List Detection → CanonicalView → List ManagedRelease → Loop → Loop
  gate_loop count_block req found view [] l = l
  gate_loop count_block req found view (r ∷ releases) l =
      gate_loop count_block req found view releases (gate_round count_block req found view r l)

  -- `gateWith`
  unfoldable pub gate_with :
      List ManagedRelease
      → Posture
      → Request
      → Inspection
      → CanonicalView
      → Assoc Counter
      → Decision × Assoc Counter
  gate_with releases posture req insp view counters =
      let l = gate_loop (intercepts posture) req insp.detections view releases (start counters) in
      (conclude posture insp l, l.counters)
