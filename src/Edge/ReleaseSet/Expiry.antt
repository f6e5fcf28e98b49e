-- ===== src/Edge/ReleaseSet/Expiry.antt =====
-- Releases that have run out, in `ReleaseSet.Gate` of lib/edgecore/release_set.go.
use yu_feng.Base.{ℕ, String, ◌≡◌, refl, ◌∙◌, Bool, ◌&&◌, List, [], ◌∷◌, any, arith, ltb}
use yu_feng.Base.Assoc.{Assoc}
use yu_feng.Edge.Types.{CanonicalView, Detection, Inspection, Request}
use yu_feng.Edge.Text.{GoText}
use yu_feng.Edge.Status.{resolve_posture}
use yu_feng.Edge.Gate.{Bucket, ManagedRelease}
use yu_feng.Edge.Gate.Decide.{blocking, gate_decides}
use yu_feng.Edge.ReleaseSet.{ReleaseSet}
use yu_feng.Edge.ReleaseSet.Counters.{gate, live}

any-live :
    (calls : ManagedRelease → Bool) (now : ℕ) (releases : Assoc ManagedRelease)
    → any calls (live now releases) ≡ any (λ e. ltb now e.1.expires_at && calls e.1) releases
unfolding live
any-live calls now [] = refl
any-live calls now ((id, r) ∷ rs) = ground (arith, any-live calls now rs)

-- What the gate looks at, as an inspection.
abbrev pub inspection_of : List Detection → CanonicalView → Inspection
inspection_of found view = record {
  detections = found;
  coverage = view.coverage;
  rejected = view.rejected;
}

-- The gate of the set would have blocked exactly when some release that has not run out calls for a block
-- by itself: one that has run out does not count.
pub gate_ignores_expired :
    {M : Type 0} (g : GoText) (uuid_charset : String → Bool) (bucket : Bucket) (now : ℕ)
    (req : Request) (found : List Detection) (view : CanonicalView) (s : ReleaseSet M)
    → (gate g uuid_charset bucket now req found view s).0.would_have_blocked
      ≡ any
          (λ e.
            ltb now e.1.expires_at
            && blocking g uuid_charset bucket req (inspection_of found view) view e.1)
          s.releases
unfolding gate
gate_ignores_expired g uuid_charset bucket now req found view s =
    (gate_decides g uuid_charset bucket req (inspection_of found view) view
      (resolve_posture s.posture) (live now s.releases) s.counters).0
    ∙ any-live (blocking g uuid_charset bucket req (inspection_of found view) view) now s.releases
