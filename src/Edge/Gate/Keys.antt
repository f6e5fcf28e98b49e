-- ===== src/Edge/Gate/Keys.antt =====
-- The gate of lib/edgecore/release_set.go adds no counter and takes none away.
use yu_feng.Base.{
  String, ◌≡◌, refl, ◌∙◌, Bool, List, [], ◌∷◌, arith, eq_iff, inl, inr, is_some, Option-cases,
}
use yu_feng.Base.Assoc.{Assoc, lookup, lookup-insert}
use yu_feng.Edge.Types.{Action, CanonicalView, Request, Posture, Inspection, Detection}
use yu_feng.Edge.Text.{GoText}
use yu_feng.Edge.Status.{intercepts}
use yu_feng.Edge.Gate.{
  ManagedRelease, Loop, Bucket, Counter, gate_with, gate_round, gate_loop, advance, start, store,
  accounted, account_release, action_for_mode, selected_for, judge,
}

abbrev pub SameKeys : Assoc Counter → Assoc Counter → Type 0
SameKeys before after = (id : String) → is_some (lookup id after) ≡ is_some (lookup id before)

store-SameKeys :
    (id : String) (action : Action) (selected : Bool) (counters : Assoc Counter)
    → SameKeys counters (store id (account_release (lookup id counters) action selected) counters)
unfolding account_release
store-SameKeys id action selected counters k = elim (Option-cases (lookup id counters)) [
  | inl e ↦ rw (e, account_release)
  | inr (c, e) ↦ rw (e, account_release) (rw lookup-insert (ground (arith, e, eq_iff id k)))
]

module _ (g : GoText) (uuid_charset : String → Bool) (bucket : Bucket) (req : Request)
    (found : List Detection) (view : CanonicalView) where
  round-SameKeys :
      (count : Bool) (r : ManagedRelease) (l : Loop)
      → SameKeys l.counters (gate_round g uuid_charset bucket count req found view r l).counters
  unfolding gate_round advance
  round-SameKeys count r l k = elim (Option-cases (judge g uuid_charset bucket r req found view)) [
    | inl e ↦ rw (e, gate_round)
    | inr (j, e) ↦
        rw (e, gate_round)
          (store-SameKeys r.release_id
            (accounted count
              (action_for_mode r.mode j.matched (selected_for g uuid_charset bucket r req)))
            (selected_for g uuid_charset bucket r req) l.counters k)
  ]

  loop-SameKeys :
      (count : Bool) (releases : List ManagedRelease) (l : Loop)
      → SameKeys l.counters
          (gate_loop g uuid_charset bucket count req found view releases l).counters
  unfolding gate_loop
  loop-SameKeys count [] l k = refl
  loop-SameKeys count (r ∷ releases) l k =
      loop-SameKeys count releases (gate_round g uuid_charset bucket count req found view r l) k
      ∙ round-SameKeys count r l k

pub gate_with-SameKeys :
    (g : GoText) (uuid_charset : String → Bool) (bucket : Bucket) (releases : List ManagedRelease)
    (posture : Posture) (req : Request) (insp : Inspection) (view : CanonicalView)
    (counters : Assoc Counter)
    → SameKeys counters (gate_with g uuid_charset bucket releases posture req insp view counters).1
unfolding gate_with
gate_with-SameKeys g uuid_charset bucket releases posture req insp view counters =
    loop-SameKeys g uuid_charset bucket req insp.detections view (intercepts posture) releases
      (start counters)
