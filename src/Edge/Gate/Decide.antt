-- ===== src/Edge/Gate/Decide.antt =====
-- What the gate of lib/edgecore/release_set.go decides, as a function of what each release calls for.

use mathlib.Core.List.{Perm, Permᴰ}
use mathlib.Core.Logic.{∥∥₁_elim}
use yu_feng.Base.{String, ◌≡◌, refl, ap, ◌∙◌, Bool, List, any, arith, if◌then◌else◌}
use yu_feng.Base.Assoc.{Assoc}
use yu_feng.Edge.Types.{allow, is_block, CanonicalView, Request, Posture, Inspection}
use yu_feng.Edge.Text.{GoText}
use yu_feng.Edge.Status.{observes, intercepts}
use yu_feng.Edge.Policy.{gate_order}
use yu_feng.Edge.Gate.{
  ManagedRelease, Loop, Bucket, Counter, Decision, gate_with, conclude, start, worse_action,
}
use yu_feng.Edge.Gate.Judge.{summary, calls_block, calls_observe, Agrees, loop_summary}

any-Permᴰ {ℓ} : {A : Type ℓ} (p : A → Bool) {xs ys : List A} → Permᴰ xs ys → any p xs ≡ any p ys
any-Permᴰ p Permᴰ.nil = refl
any-Permᴰ p (Permᴰ.cons e t) = cc (ap p e, any-Permᴰ p t)
any-Permᴰ p (Permᴰ.swap e f) = ground (arith, e, f)
any-Permᴰ p (Permᴰ.trans s t) = any-Permᴰ p s ∙ any-Permᴰ p t

any-perm {ℓ} : {A : Type ℓ} (p : A → Bool) {xs ys : List A} → Perm xs ys → any p xs ≡ any p ys
any-perm p t = ∥∥₁_elim t (hlevel) (any-Permᴰ p)

block_of_summary : (blocks observes : Bool) → is_block (summary blocks observes) ≡ blocks
block_of_summary blocks observes = ground arith

module _ (g : GoText) (uuid_charset : String → Bool) (bucket : Bucket) (req : Request)
    (insp : Inspection) (view : CanonicalView) where
  -- The decision of the gate over a list of releases.
  abbrev pub decided : Posture → List ManagedRelease → Assoc Counter → Decision
  decided posture releases counters =
      (gate_with g uuid_charset bucket releases posture req insp view counters).0

  abbrev pub blocking : ManagedRelease → Bool
  blocking = calls_block g uuid_charset bucket req insp.detections view

  abbrev pub observing : ManagedRelease → Bool
  observing = calls_observe g uuid_charset bucket req insp.detections view

  conclude_lem :
      (posture : Posture) (l : Loop)
      → Agrees l
      → ((conclude posture insp l).would_have_blocked ≡ is_block l.combined)
        × ((conclude posture insp l).action ≡ (if observes posture then allow else l.combined))
  unfolding conclude gate_order
  conclude_lem posture l a = ground arith

  -- The gate would have blocked exactly when some release calls for a block by itself; its action is
  -- `allow` in an observing posture, and otherwise the worst action that a release calls for.
  pub gate_decides :
      (posture : Posture) (releases : List ManagedRelease) (counters : Assoc Counter)
      → ((decided posture releases counters).would_have_blocked ≡ any blocking releases)
        × ((decided posture releases counters).action ≡ (
            if observes posture
            then allow
            else summary (any blocking releases) (any observing releases)))
  unfolding gate_with worse_action
  gate_decides posture releases counters =
      let (agrees, worst) =
        loop_summary g uuid_charset bucket (intercepts posture) req insp.detections view releases
          (start counters) refl in
      let (would, action) = conclude_lem posture _ agrees in
      (
        would
            ∙ ap is_block worst
            ∙ block_of_summary (any blocking releases) (any observing releases),
        action ∙ ap (λ c. if observes posture then allow else c) worst,
      )

  -- Go walks a map in an order that changes from run to run: the action and the flag do not depend
  -- on the order in which the releases come, nor on the counters.
  pub gate_order_irrelevant :
      (posture : Posture) (releases shuffled : List ManagedRelease)
      (counters counters' : Assoc Counter)
      → Perm releases shuffled
      → ((decided posture releases counters).action ≡ (decided posture shuffled counters').action)
        × ((decided posture releases counters).would_have_blocked
            ≡ (decided posture shuffled counters').would_have_blocked)
  gate_order_irrelevant posture releases shuffled counters counters' t =
      let (w, a) = gate_decides posture releases counters in
      let (w', a') = gate_decides posture shuffled counters' in
      let same_blocks = any-perm blocking t in let same_observes = any-perm observing t in (cc, cc)
