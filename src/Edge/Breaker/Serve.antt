-- ===== src/Edge/Breaker/Serve.antt =====
-- The answers of lib/edgecore/external_authorization.go.
use yu_feng.Base.{ℕ, ◌≡◌, Bool, false, ◌&&◌, ◌||◌, not, arith, if◌then◌else◌}
use yu_feng.Edge.Types.{coverage_has_error, is_block}
use yu_feng.Edge.Status.{http_status}
use yu_feng.Edge.Breaker.{
  ExtAuthz, Inspected, Outcome, answered, panicked, timed_out, answer, enter, serve_http,
}

-- The request could be decided on in time, and is one to refuse.
abbrev pub refuses : Inspected → Outcome → Bool
refuses i o = i.oversize && i.body_present || i.view.rejected || elim o [
  | answered action ↦ coverage_has_error i.view.coverage || is_block action
  | panicked ↦ coverage_has_error i.view.coverage
  | timed_out ↦ false
]

-- The answer to a request is 503 exactly where the breaker is open and the half-open probe is not
-- admitted; else 403 where the request is oversized with a body, is rejected, or was decided on in time
-- with an error in its coverage or a gate that blocks; else 200, which is what a timeout gives.
pub serve_http_status :
    (start finish : ℕ) (i : Inspected) (o : Outcome) (e : ExtAuthz)
    → (serve_http start finish i o e).0
      ≡ (if e.tripped && not (enter start e).0 then 503 else if refuses i o then 403 else 200)
unfolding serve_http enter answer http_status
serve_http_status start finish i (answered action) e = ground arith
serve_http_status start finish i panicked e = ground arith
serve_http_status start finish i timed_out e = ground arith
