-- ===== src/Edge/Gate/Judge.antt =====
-- What one release contributes to the decision of the gate of lib/edgecore/release_set.go.
use yu_feng.Base.{
  String, ◌≡◌, ap, sym, ◌∙◌, Bool, true, false, ◌||◌, ◌&&◌, List, [], ◌∷◌, none, some, any, arith,
  is_some, inl, inr, Option-cases, if◌then◌else◌,
}
use yu_feng.Edge.Types.{Action, allow, observe, block, is_block, CanonicalView, Request, Detection}
use yu_feng.Edge.Text.{GoText}
use yu_feng.Edge.Gate.{
  ManagedRelease, Judgement, Loop, Bucket, judge, selected_for, action_for_mode, worse_action,
  advance, gate_round, gate_loop,
}

abbrev pub is_observe : Action → Bool
is_observe observe = true
is_observe _ = false

-- The worst of what was seen: a block, else an observation, else nothing.
abbrev pub summary : Bool → Bool → Action
summary blocks observes = if blocks then block else if observes then observe else allow

-- The flags of the loop and its worst action, as the loop's variables stand for them.
abbrev pub any_block : Loop → Bool
any_block l = l.policy_block || l.rule_block || l.shape_block

-- The flags know of every block that the worst action knows of, and the other way round.
abbrev pub Agrees : Loop → Type 0
Agrees l = any_block l ≡ is_block l.combined

worse_summary_nil : (c : Action) → worse_action c allow ≡ c
unfolding worse_action
worse_summary_nil c = ground arith

worse_summary :
    (c a : Action) (blocks observes : Bool)
    → worse_action (worse_action c a) (summary blocks observes)
      ≡ worse_action c (summary (is_block a || blocks) (is_observe a || observes))
unfolding worse_action
worse_summary c a blocks observes = ground arith

flags_agree :
    (p d s : Bool) (l : Loop) (action : Action)
    → (p || d || s) ≡ true
    → any_block l ≡ is_block l.combined
    → ((l.policy_block || (p && is_block action))
        || (l.rule_block || (d && is_block action))
        || (l.shape_block || (s && is_block action)))
      ≡ is_block (worse_action l.combined action)
unfolding worse_action
flags_agree p d s l action k a = ground arith

module _ (g : GoText) (uuid_charset : String → Bool) (bucket : Bucket) where
  -- The action that one release calls for by itself.
  unfoldable pub action_of : Request → List Detection → CanonicalView → ManagedRelease → Action
  action_of req found view r = elim (judge g uuid_charset bucket r req found view) [
    | none ↦ allow
    | some j ↦ action_for_mode r.mode j.matched (selected_for g uuid_charset bucket r req)
  ]

  abbrev pub calls_block : Request → List Detection → CanonicalView → ManagedRelease → Bool
  calls_block req found view r = is_block (action_of req found view r)

  abbrev pub calls_observe : Request → List Detection → CanonicalView → ManagedRelease → Bool
  calls_observe req found view r = is_observe (action_of req found view r)

  judged_kind :
      (r : ManagedRelease) (req : Request) (found : List Detection) (view : CanonicalView)
      (j : Judgement)
      → judge g uuid_charset bucket r req found view ≡ some j
      → (is_some r.policy || is_some r.detector || is_some r.shape) ≡ true
  unfolding judge
  judged_kind r req found view j e = ground arith

  advance-Agrees :
      (count_block : Bool) (r : ManagedRelease) (req : Request) (j : Judgement) (l : Loop)
      → (is_some r.policy || is_some r.detector || is_some r.shape) ≡ true
      → Agrees l
      → Agrees (advance g uuid_charset bucket count_block r req j l)
  unfolding advance worse_action
  advance-Agrees count_block r req j l k a =
      flags_agree (is_some r.policy) (is_some r.detector) (is_some r.shape) l
        (action_for_mode r.mode j.matched (selected_for g uuid_charset bucket r req)) k a

  module _ (count_block : Bool) (req : Request) (found : List Detection)
      (view : CanonicalView) where
    abbrev round : ManagedRelease → Loop → Loop
    round = gate_round g uuid_charset bucket count_block req found view

    round-combined :
        (r : ManagedRelease) (l : Loop)
        → (round r l).combined ≡ worse_action l.combined (action_of req found view r)
    unfolding gate_round action_of advance worse_action
    round-combined r l = ground arith

    round-Agrees : (r : ManagedRelease) (l : Loop) → Agrees l → Agrees (round r l)
    unfolding gate_round
    round-Agrees r l a = elim (Option-cases (judge g uuid_charset bucket r req found view)) [
      | inl e ↦ rw (e, gate_round) a
      | inr (j, e) ↦
          rw (e, gate_round)
            (advance-Agrees count_block r req j l (judged_kind r req found view j e) a)
    ]

    -- After the loop the flags agree with the worst action, and that is the summary of what the
    -- releases call for one by one.
    pub loop_summary :
        (releases : List ManagedRelease) (l : Loop)
        → Agrees l
        → Agrees (gate_loop g uuid_charset bucket count_block req found view releases l)
          × ((gate_loop g uuid_charset bucket count_block req found view releases l).combined
              ≡ worse_action l.combined (
                  summary
                    (any (calls_block req found view) releases)
                    (any (calls_observe req found view) releases)))
    unfolding gate_loop
    loop_summary [] l a = (a, sym (worse_summary_nil l.combined))
    loop_summary (r ∷ releases) l a =
        let (agrees, worst) = loop_summary releases (round r l) (round-Agrees r l a) in
        let blocks : Bool = any (calls_block req found view) releases in
        let observes : Bool = any (calls_observe req found view) releases in
        (
          agrees,
          worst
              ∙ ap (λ c. worse_action c (summary blocks observes)) (round-combined r l)
              ∙ worse_summary l.combined (action_of req found view r) blocks observes,
        )
