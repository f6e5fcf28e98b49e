-- ===== src/Edge/Status/Laws.antt =====
-- What each posture of lib/edgecore/status.go answers, branch by branch.
use yu_feng.Base.{
  ℕ, ◌≡◌, refl, Bool, true, false, ◌&&◌, ◌||◌, not, List, [], ◌∷◌, ◌↔◌, arith, if◌then◌else◌,
}
use yu_feng.Edge.Types.{
  reverse_proxy, ext_authz, is_block, Coverage, InspectionSurface, partial, body, surface_eq,
  coverage_of, coverage_has_error,
}
use yu_feng.Edge.Status.{StatusInput, http_status, observes, resolve_posture, mark_body_partial}

-- The proxy could not inspect the request, or may not take it.
abbrev pub has_failed : StatusInput → Bool
has_failed i = i.in_flight_exceeded || i.missing_request_id || i.engine_crash

abbrev pub is_malformed : StatusInput → Bool
is_malformed i = i.view.rejected || coverage_has_error i.view.coverage

-- As a reverse proxy (or with the posture unspecified) the edge fails closed: it forwards exactly
-- the requests that it could inspect whole, that are well formed, and that the gate did not block.
pub reverse_proxy_forwards_iff :
    (i : StatusInput)
    → resolve_posture i.posture ≡ reverse_proxy
    → ((http_status i).0 ≡ 200)
      ↔ ((has_failed i || i.oversize || is_malformed i || is_block i.gate_action) ≡ false)
unfolding http_status
reverse_proxy_forwards_iff i h = ground arith

-- As an external authorizer it fails open on its own failures: it answers anything but 200 exactly
-- when too many requests are in flight, or when it could decide in time and either the request is
-- oversized and has a body, or it is not oversized and is malformed or blocked. So an oversized request
-- with no body is answered 200 even where it is malformed or blocked.
pub ext_authz_denies_iff :
    (i : StatusInput)
    → i.posture ≡ ext_authz
    → (((http_status i).0 ≡ 200) ↔ (
        (i.in_flight_exceeded
          || not (i.missing_request_id || i.engine_crash || i.ext_authz_timeout)
            && (if i.oversize then i.body_present else is_malformed i || is_block i.gate_action))
        ≡ false))
unfolding http_status
ext_authz_denies_iff i h = ground arith

-- An observing posture answers 200 whatever happened, and reports what the gate would have done.
pub observing_status :
    (i : StatusInput)
    → observes (resolve_posture i.posture) ≡ true
    → http_status i ≡ (200, is_block i.gate_action)
unfolding http_status
observing_status i h = ground arith

-- After `MarkBodyPartial` the body counts as partially covered, and no other surface has changed.
pub coverage_of-mark_body_partial :
    (cov : List Coverage) (inspected total : ℕ) (surface : InspectionSurface)
    → coverage_of (mark_body_partial cov inspected total) surface
      ≡ (if surface_eq body surface then partial else coverage_of cov surface)
unfolding coverage_of mark_body_partial
coverage_of-mark_body_partial [] inspected total surface = refl
coverage_of-mark_body_partial (c ∷ cov) inspected total surface =
    ground (arith, coverage_of-mark_body_partial cov inspected total surface)
