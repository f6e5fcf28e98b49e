-- ===== src/Edge/Rule.antt =====
-- lib/edgecore/rule.go: detectors made of rules. A compiled pattern is its match test.
pub mod Laws
use Prim.Native.String.{◌++◌ as text_append}
use yu_feng.Base.{
  ℕ, String, Bool, true, false, not, ◌&&◌, ◌||◌, List, [], ◌∷◌, ◌++◌, Option, none, some, ◌==◌, ltb,
  length, str_eq, is_empty, any, starts_with, if◌then◌else◌,
}
use yu_feng.Base.Result.{Result, ok, err, require, or_fail, ◌>>=◌, ◌>>◌}
use yu_feng.Edge.Types.{
  Request, Detection, Verdict, Inspection, InspectionSurface, CanonicalView, path, query, body,
  allow, block,
}
use yu_feng.Edge.Text.{GoText}

pub record Rule : Type 0 where
  pub id : String
  pub pattern : String
  pub target : String

pub record CompiledRule : Type 0 where
  pub rule : Rule
  pub re : String → Bool

pub record RuleDetector : Type 0 where
  pub id : String
  pub rules : List CompiledRule

pub data RuleError : Type 0 where
  empty_rule_set empty_id duplicate_id empty_pattern unknown_target bad_pattern : RuleError

unfoldable pub known_target : String → Bool
known_target t = is_empty t || str_eq t "path" || str_eq t "query" || str_eq t "body"

unfoldable pub id_in : String → List String → Bool
id_in id seen = any (λ s. str_eq s id) seen

module _ (g : GoText) where
  -- One round of the loop of `NewRuleDetector`, with the ids seen so far.
  unfoldable pub compile_rule : List String → Rule → Result RuleError CompiledRule
  compile_rule seen r = do
    require (not (is_empty r.id)) empty_id
    require (not (id_in r.id seen)) duplicate_id
    require (not (is_empty r.pattern)) empty_pattern
    require (known_target r.target) unknown_target
    re ← or_fail (g.compile_regexp r.pattern) bad_pattern
    ok (record { rule = r; re = re })

  unfoldable pub compile_rules : List String → List Rule → Result RuleError (List CompiledRule)
  compile_rules seen [] = ok []
  compile_rules seen (r ∷ rules) = do
    c ← compile_rule seen r
    rest ← compile_rules (r.id ∷ seen) rules
    ok (c ∷ rest)

  -- `NewRuleDetector`
  unfoldable pub new_rule_detector : String → List Rule → Result RuleError RuleDetector
  new_rule_detector id rules = do
    require (ltb 0 (length rules)) empty_rule_set
    compiled ← compile_rules [] rules
    ok (record { id = id; rules = compiled })

  -- `decodedQuery`
  unfoldable pub decoded_query : String → String
  decoded_query q = elim (g.query_unescape q) [ none ↦ q | some dec ↦ dec ]

  -- `targetString`
  unfoldable pub target_string : String → Request → String
  unfolding decoded_query
  target_string target req =
      if str_eq target "path"
      then req.path
      else if str_eq target "query"
      then decoded_query req.query
      else if str_eq target "body"
      then g.string_of req.body
      else text_append req.path (
          text_append " "
            (text_append (decoded_query req.query) (text_append " " (g.string_of req.body))))

  unfoldable pub match_rules : List CompiledRule → Request → Option String
  match_rules [] req = none
  match_rules (c ∷ rules) req =
      if c.re (target_string c.rule.target req) then some c.rule.id else match_rules rules req

  -- `RuleDetector.Match`; a nil detector matches nothing.
  unfoldable pub detector_match : Option RuleDetector → Request → Option String
  detector_match none req = none
  detector_match (some d) req = match_rules d.rules req

  -- `RuleDetector.Evaluate`
  unfoldable pub detector_evaluate : RuleDetector → Request → Verdict
  detector_evaluate d req = elim (detector_match (some d) req) [
    | some id ↦ record {
      detector_id = "";
      action = block;
      rule_id = id;
      message = text_append "matched rule " id;
    }
    | none ↦ record { detector_id = ""; action = allow; rule_id = ""; message = "" }
  ]

  -- `ruleDetection`
  unfoldable pub rule_detection : String → String → Request → Detection
  rule_detection inspector_id rule_id req = record {
    inspector_id = inspector_id;
    rule_id = rule_id;
    score = 1;
    location =
        (let loc = if is_empty req.query then path else query in
          if ltb 0 (length req.body) && is_empty req.query then body else loc);
    selector = "";
    phase = "";
    version = "";
    manifest_digest = "";
    profile_digest = "";
  }

  -- `ScopedDetector.Match` around a rule detector: nothing outside the prefix.
  unfoldable pub scoped_match : String → RuleDetector → Request → Option String
  scoped_match prefix d req =
      if not (starts_with req.path prefix) then none else detector_match (some d) req

  -- `ScopedDetector.Evaluate`
  unfoldable pub scoped_evaluate : String → RuleDetector → Request → Verdict
  scoped_evaluate prefix d req =
      if not (starts_with req.path prefix)
      then record { detector_id = ""; action = allow; rule_id = ""; message = "" }
      else detector_evaluate d req
