-- ===== src/Edge/Gate/Account.antt =====
-- The counters of the releases, as the gate of lib/edgecore/release_set.go moves them.
use yu_feng.Base.{
  ℕ, String, ◌≡◌, refl, Bool, true, false, ◌+◌, ◌^◌, ◌<◌, ◌&&◌, ◌||◌, not, List, [], ◌∷◌, none,
  some, length, keep, arith, str_eq, eq_iff, inl, inr, Option-cases, Bool-cases, suc, is_some,
  if◌then◌else◌,
}
use yu_feng.Base.Assoc.{Assoc, lookup, lookup-insert}
use yu_feng.Edge.Types.{Action, is_block, CanonicalView, Request, Posture, Inspection, Detection}
use yu_feng.Edge.Text.{GoText}
use yu_feng.Edge.Status.{intercepts}
use yu_feng.Edge.Gate.{
  ManagedRelease, Judgement, Loop, Bucket, Counter, gate_with, gate_round, gate_loop, advance,
  start, store, accounted, account_release, selected_for, judge,
}
use yu_feng.Edge.Gate.Judge.{action_of, is_observe}

-- So many more requests do not wrap a counter.
abbrev pub HasRoom : ℕ → Counter → Type 0
HasRoom n c = (c.requests + n < 2 ^ 64) × (c.blocks + n < 2 ^ 64) × (c.observed + n < 2 ^ 64)

abbrev one_if : Bool → ℕ
one_if b = if b then 1 else 0

-- A counter after one release: the release is its own and was judged or not.
abbrev MovedBy : Bool → Bool → Action → Counter → Counter → Type 0
MovedBy count_block mine action c c' =
    (c'.requests ≡ c.requests + one_if mine)
    × (c'.blocks ≡ c.blocks + one_if (mine && count_block && is_block action))
    × (c'.observed
        ≡ c.observed + one_if (mine && (is_observe action || not count_block && is_block action)))

account_moves :
    (count_block selected : Bool) (action : Action) (c c' : Counter)
    → HasRoom 1 c
    → account_release (some c) (accounted count_block action) selected ≡ some c'
    → MovedBy count_block true action c c'
unfolding account_release
account_moves count_block selected action c c' room e = ground arith

account_some :
    (action : Action) (selected : Bool) (c : Counter)
    → (c' : Counter) × (account_release (some c) action selected ≡ some c')
unfolding account_release
account_some action selected c = (_, refl)

store_own :
    (id rid : String) (count_block selected : Bool) (action : Action) (c : Counter)
    (counters : Assoc Counter)
    → lookup id counters ≡ some c
    → HasRoom 1 c
    → str_eq rid id ≡ true
    → (c' : Counter) × (lookup id (
          store rid
            (account_release (lookup rid counters) (accounted count_block action) selected)
            counters)
        ≡ some c')
      × MovedBy count_block true action c c'
store_own id rid count_block selected action c counters there room own =
    let (c', e) = account_some (accounted count_block action) selected c in
    let same : rid ≡ id = ground (arith, eq_iff rid id) in
    (
      c',
      rw (same, there, e, lookup-insert) (ground (arith, eq_iff id id)),
      account_moves count_block selected action c c' room e,
    )

store_other :
    (id other : String) (action : Action) (selected : Bool) (c : Counter) (counters : Assoc Counter)
    → lookup id counters ≡ some c
    → str_eq other id ≡ false
    → lookup id (store other (account_release (lookup other counters) action selected) counters)
      ≡ some c
unfolding account_release
store_other id other action selected c counters there differ =
    elim (Option-cases (lookup other counters)) [
      | inl gone ↦ rw (gone, account_release) there
      | inr (d, held) ↦ rw (held, account_release) (rw lookup-insert (ground (arith, differ)))
    ]

moved-HasRoom :
    (count_block mine : Bool) (action : Action) (n : ℕ) (c c' : Counter)
    → HasRoom (suc n) c
    → MovedBy count_block mine action c c'
    → HasRoom n c'
moved-HasRoom count_block mine action n c c' room moved = ground arith

module _ (g : GoText) (uuid_charset : String → Bool) (bucket : Bucket) (req : Request)
    (found : List Detection) (view : CanonicalView) (count_block : Bool) (id : String) where
  -- The release is counted under the id, and is of one of the three kinds.
  abbrev pub counts_for : ManagedRelease → Bool
  counts_for r = str_eq r.release_id id && is_some (judge g uuid_charset bucket r req found view)

  abbrev acts : ManagedRelease → Action
  acts = action_of g uuid_charset bucket req found view

  -- It is counted as blocked, and as observed.
  abbrev pub blocks_for : ManagedRelease → Bool
  blocks_for r = counts_for r && count_block && is_block (acts r)

  abbrev pub observes_for : ManagedRelease → Bool
  observes_for r = counts_for r && (is_observe (acts r) || not count_block && is_block (acts r))

  -- The counter of the id has moved by the releases of a list.
  abbrev pub Moved : List ManagedRelease → Counter → Counter → Type 0
  Moved releases c c' =
      (c'.requests ≡ c.requests + length (keep counts_for releases))
      × (c'.blocks ≡ c.blocks + length (keep blocks_for releases))
      × (c'.observed ≡ c.observed + length (keep observes_for releases))

  abbrev round : ManagedRelease → Loop → Loop
  round = gate_round g uuid_charset bucket count_block req found view

  round_unjudged :
      (r : ManagedRelease) (l : Loop)
      → judge g uuid_charset bucket r req found view ≡ none
      → (round r l).counters ≡ l.counters
  unfolding gate_round
  round_unjudged r l e = rw (e, gate_round) refl

  round_judged :
      (r : ManagedRelease) (l : Loop) (j : Judgement)
      → judge g uuid_charset bucket r req found view ≡ some j
      → (round r l).counters
        ≡ store r.release_id
            (account_release
              (lookup r.release_id l.counters)
              (accounted count_block (acts r))
              (selected_for g uuid_charset bucket r req))
            l.counters
  unfolding gate_round advance action_of
  round_judged r l j e = rw (e, gate_round, action_of) refl

  round-MovedBy :
      (r : ManagedRelease) (l : Loop) (c : Counter)
      → lookup id l.counters ≡ some c
      → HasRoom 1 c
      → (c' : Counter) × (lookup id (round r l).counters ≡ some c')
        × MovedBy count_block (counts_for r) (acts r) c c'
  round-MovedBy r l c there room =
      elim (Option-cases (judge g uuid_charset bucket r req found view)) [
        | inl e ↦ (
          c,
          rw (round_unjudged r l e) there,
          (ground (arith, e), ground (arith, e), ground (arith, e)),
        )
        | inr (j, e) ↦
            let selected = selected_for g uuid_charset bucket r req in
            elim (Bool-cases (str_eq r.release_id id)) [
              | inl own ↦
                  let mine : counts_for r ≡ true = ground (arith, own, e) in
                  let (c', stored, moved) =
                    store_own id r.release_id count_block selected (acts r) c l.counters there room
                      own in
                  (c', rw (round_judged r l j e) stored, rw (mine) moved)
              | inr other ↦ (
                c,
                rw (round_judged r l j e) (
                    store_other id r.release_id (accounted count_block (acts r)) selected c
                      l.counters there other),
                (ground (arith, other), ground (arith, other), ground (arith, other)),
              )
            ]
      ]

  Moved-next :
      (r : ManagedRelease) (releases : List ManagedRelease) (c c1 c2 : Counter)
      → MovedBy count_block (counts_for r) (acts r) c c1
      → Moved releases c1 c2
      → Moved (r ∷ releases) c c2
  Moved-next r releases c c1 c2 moved rest = (ground arith, ground arith, ground arith)

  loop-Moved :
      (releases : List ManagedRelease) (l : Loop) (c : Counter)
      → lookup id l.counters ≡ some c
      → HasRoom (length releases) c
      → (c' : Counter) × (lookup id
            (gate_loop g uuid_charset bucket count_block req found view releases l).counters
          ≡ some c')
        × Moved releases c c'
  unfolding gate_loop
  loop-Moved [] l c there room = (c, there, (omega arith, omega arith, omega arith))
  loop-Moved (r ∷ releases) l c there room =
      let (c1, there1, moved) = round-MovedBy r l c there (omega arith, omega arith, omega arith) in
      let (c2, there2, rest) =
        loop-Moved releases (round r l) c1 there1
          (moved-HasRoom count_block (counts_for r) (acts r) (length releases) c c1 room moved) in
      (c2, there2, Moved-next r releases c c1 c2 moved rest)

-- Where no counter of a release is within the length of the list of wrapping at 2 ^ 64, the gate adds
-- to the requests of the release how many releases of that id in the list are of one of the three
-- kinds, to its blocked requests how many of these call for a block by themselves, in a posture that
-- intercepts, and to its observed ones how many call for an observation, and in a posture that does
-- not intercept also how many call for a block.
pub gate_with-Moved :
    (g : GoText) (uuid_charset : String → Bool) (bucket : Bucket) (releases : List ManagedRelease)
    (posture : Posture) (req : Request) (insp : Inspection) (view : CanonicalView)
    (counters : Assoc Counter) (id : String) (c : Counter)
    → lookup id counters ≡ some c
    → HasRoom (length releases) c
    → (c' : Counter) × (lookup id
          (gate_with g uuid_charset bucket releases posture req insp view counters).1
        ≡ some c')
      × Moved g uuid_charset bucket req insp.detections view (intercepts posture) id releases c c'
unfolding gate_with
gate_with-Moved g uuid_charset bucket releases posture req insp view counters id c there room =
    loop-Moved g uuid_charset bucket req insp.detections view (intercepts posture) id releases
      (start counters) c there room
