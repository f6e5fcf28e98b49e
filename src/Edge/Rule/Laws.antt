-- ===== src/Edge/Rule/Laws.antt =====
-- What `NewRuleDetector` of lib/edgecore/rule.go lets through, and what a detector made by it matches.
use mathlib.Core.Path.{subst}
use yu_feng.Base.{String, ◌≡◌, true, false, List, [], ◌∷◌, map, some, arith, ltb, length, is_empty}
use yu_feng.Base.Result.{ok, require, >>=-eq-ok}
use yu_feng.Edge.Text.{GoText}
use yu_feng.Edge.Rule.{
  Rule, CompiledRule, RuleDetector, compile_rule, empty_rule_set, compile_rules, new_rule_detector,
  known_target, id_in,
}

-- The rules of a detector: their ids are not empty, differ from one another and from those seen
-- before, and patterns and targets are as the loop wants them.
abbrev pub Admissible : GoText → List String → List CompiledRule → Type 0
Admissible g seen [] = Unit
Admissible g seen (c ∷ rules) =
    (is_empty c.rule.id ≡ false)
    × (id_in c.rule.id seen ≡ false)
    × (is_empty c.rule.pattern ≡ false)
    × (known_target c.rule.target ≡ true)
    × (g.compile_regexp c.rule.pattern ≡ some c.re)
    × Admissible g (c.rule.id ∷ seen) rules

abbrev pub sources : List CompiledRule → List Rule
sources = map λ c. c.rule

module _ (g : GoText) where
  compile_rule_admits :
      (seen : List String) (r : Rule) (c : CompiledRule)
      → compile_rule g seen r ≡ ok c
      → (c.rule ≡ r)
        × (is_empty r.id ≡ false)
        × (id_in r.id seen ≡ false)
        × (is_empty r.pattern ≡ false)
        × (known_target r.target ≡ true)
        × (g.compile_regexp r.pattern ≡ some c.re)
  unfolding compile_rule
  compile_rule_admits seen r c h = ground arith

  compile_rules-Admissible :
      (seen : List String) (rules : List Rule) (compiled : List CompiledRule)
      → compile_rules g seen rules ≡ ok compiled
      → Admissible g seen compiled × (sources compiled ≡ rules)
  unfolding compile_rules
  compile_rules-Admissible seen [] compiled h = ground arith
  compile_rules-Admissible seen (r ∷ rules) [] h =
      let (c, _, h') = >>=-eq-ok (compile_rule g seen r) _ h in
      let (rest, _, h'') = >>=-eq-ok (compile_rules g (r.id ∷ seen) rules) _ h' in cc
  compile_rules-Admissible seen (r ∷ rules) (c ∷ rest) h =
      let (c', e, h') = >>=-eq-ok (compile_rule g seen r) _ h in
      let (rest', e', h'') = >>=-eq-ok (compile_rules g (r.id ∷ seen) rules) _ h' in
      let (same, i, n, p, t, m) = compile_rule_admits seen r c (cc) in
      let (later, sames) = compile_rules-Admissible (r.id ∷ seen) rules rest (cc) in
      ((rw same i, rw same n, rw same p, rw same t, rw same m, rw same later), cc)

  -- A detector that `NewRuleDetector` returns has the id and the rules it was given, in their order,
  -- at least one; their ids are not empty and differ, their patterns are not empty and compile to
  -- what the detector runs, and their targets are known.
  pub new_rule_detector-Admissible :
      (id : String) (rules : List Rule) (d : RuleDetector)
      → new_rule_detector g id rules ≡ ok d
      → (d.id ≡ id)
        × (sources d.rules ≡ rules)
        × (ltb 0 (length rules) ≡ true)
        × Admissible g [] d.rules
  unfolding new_rule_detector
  new_rule_detector-Admissible id rules d h =
      let (_, some_rule, h') = >>=-eq-ok (require (ltb 0 (length rules)) empty_rule_set) _ h in
      let (compiled, e, h'') = >>=-eq-ok (compile_rules g [] rules) _ h' in
      let (admissible, same) = compile_rules-Admissible [] rules compiled e in
      let rules_are : compiled ≡ d.rules = cc in
      (ground arith, ground arith, ground arith, subst (Admissible g []) rules_are admissible)
