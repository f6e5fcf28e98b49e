-- ===== src/Edge/Status.antt =====
-- lib/edgecore/status.go: postures and the HTTP status of an inspected request.
pub mod Laws
use yu_feng.Base.{ℕ, Bool, true, false, ◌&&◌, ◌||◌, List, [], ◌∷◌, if◌then◌else◌}
use yu_feng.Edge.Types.{
  Posture, reverse_proxy, ext_authz, tap_alert, mirror_observe, Action, is_block, CanonicalView,
  Coverage, partial, body, surface_eq, coverage_has_error,
}

unfoldable pub intercepts : Posture → Bool
intercepts reverse_proxy = true
intercepts ext_authz = true
intercepts _ = false

unfoldable pub observes : Posture → Bool
observes tap_alert = true
observes mirror_observe = true
observes _ = false

unfoldable pub resolve_posture : Posture → Posture
resolve_posture Posture.unspecified = reverse_proxy
resolve_posture p = p

pub record StatusInput : Type 0 where
  pub posture : Posture
  pub gate_action : Action
  pub view : CanonicalView
  pub oversize : Bool
  pub body_present : Bool
  pub engine_crash : Bool
  pub missing_request_id : Bool
  pub in_flight_exceeded : Bool
  pub ext_authz_timeout : Bool

abbrev pub is_ext_authz : Posture → Bool
is_ext_authz ext_authz = true
is_ext_authz _ = false

-- The end of `HTTPStatus`: the gate's action.
abbrev gated : StatusInput → ℕ × Bool
gated i = if is_block i.gate_action then (403, true) else (200, false)

-- The `switch` for a view that was rejected or has an error; it falls through for other postures.
abbrev malformed : Posture → StatusInput → ℕ × Bool
malformed reverse_proxy i = (400, false)
malformed ext_authz i = (403, false)
malformed _ i = gated i

abbrev inspected : Posture → StatusInput → ℕ × Bool
inspected posture i =
    if i.view.rejected || coverage_has_error i.view.coverage then malformed posture i else gated i

-- The `switch` for an oversized body; it falls through for other postures.
abbrev oversized : Posture → StatusInput → ℕ × Bool
oversized reverse_proxy i = (413, false)
oversized ext_authz i = if i.body_present then (403, false) else (200, false)
oversized posture i = inspected posture i

-- `HTTPStatus`: the status, and whether the request would have been blocked.
unfoldable pub http_status : StatusInput → ℕ × Bool
unfolding resolve_posture observes
http_status i =
    let posture = resolve_posture i.posture in
    if observes posture
    then (200, is_block i.gate_action)
    else if i.in_flight_exceeded
    then (503, false)
    else if i.missing_request_id || i.engine_crash
    then (if is_ext_authz posture then (200, false) else (503, false))
    else if is_ext_authz posture && i.ext_authz_timeout
    then (200, false)
    else if i.oversize
    then oversized posture i
    else inspected posture i

abbrev partial_body : ℕ → ℕ → Coverage
partial_body inspected total = record {
  target = body;
  status = partial;
  inspected = inspected;
  total = total;
}

-- The loop of `MarkBodyPartial`: the first entry of the body changes, and one is added if none is.
unfoldable pub mark_body_partial : List Coverage → ℕ → ℕ → List Coverage
mark_body_partial [] inspected total = partial_body inspected total ∷ []
mark_body_partial (c ∷ cov) inspected total =
    if surface_eq c.target body
    then record c { status = partial; inspected = inspected; total = total } ∷ cov
    else c ∷ mark_body_partial cov inspected total
