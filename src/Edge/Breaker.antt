-- ===== src/Edge/Breaker.antt =====
-- lib/edgecore/external_authorization.go: the external authorization adapter with its circuit breaker.
-- Times are in nanoseconds. A rate of timeouts is compared by cross-multiplication, which is what the
-- division of small counts in float64 comes to.
pub mod Laws
pub mod HalfOpen
pub mod Serve
pub mod History
pub mod Recovery
use yu_feng.Base.{
  ℕ, Bool, true, false, not, ◌&&◌, List, [], ◌∷◌, ◌++◌, Option, none, some, ◌+◌, ◌*◌, ◌^◌, ltb, leb,
  if◌then◌else◌, length, keep,
}
use yu_feng.Edge.Types.{ext_authz, Action, allow, CanonicalView}
use yu_feng.Edge.Status.{StatusInput, http_status}

pub record TimeoutSample : Type 0 where
  pub at_time : ℕ
  pub timeout : Bool

-- The fields that `mu` guards; LastSkipReason is left out.
pub record ExtAuthz : Type 0 where
  pub events : List TimeoutSample
  pub tripped : Bool
  pub below_since : Option ℕ
  pub half_open : List ℕ
  pub timeouts : ℕ
  pub checks : ℕ
  pub trips : ℕ

abbrev pub second : ℕ
second = 10 ^ 9

-- kernel.ExtAuthzTimeoutRateWindow
abbrev pub rate_window : ℕ
rate_window = 10 * second

-- kernel.ExtAuthzTimeoutRateRecoverHold
abbrev pub recover_hold : ℕ
recover_hold = 30 * second

-- kernel.ExtAuthzHalfOpenPerSec
abbrev pub half_open_per_sec : ℕ
half_open_per_sec = 1

abbrev pub min_samples : ℕ
min_samples = 20

abbrev pub new_ext_authz : ExtAuthz
new_ext_authz = record {
  events = [];
  tripped = false;
  below_since = none;
  half_open = [];
  timeouts = 0;
  checks = 0;
  trips = 0;
}

-- `!t.Before(now.Add(-span))`
abbrev pub within : ℕ → ℕ → ℕ → Bool
within span now t = not (ltb (t + span) now)

-- `tryHalfOpenLocked`
unfoldable pub try_half_open : ℕ → ExtAuthz → Bool × ExtAuthz
try_half_open now e =
    let kept = keep (within second now) e.half_open in
    if leb half_open_per_sec (length kept)
    then (false, record e { half_open = kept })
    else (true, record e { half_open = kept ++ now ∷ [] })

abbrev pub timed : List TimeoutSample → ℕ
timed samples = length (keep (λ s. s.timeout) samples)

-- `rate >= kernel.ExtAuthzTimeoutRateTrip`, which is 0.05; the rate of no samples is 0.
abbrev pub rate_trips : List TimeoutSample → Bool
rate_trips samples = ltb 0 (length samples) && leb (length samples) (timed samples * 20)

-- `rate <= kernel.ExtAuthzTimeoutRateRecover`, which is 0.01
abbrev pub rate_recovers : List TimeoutSample → Bool
rate_recovers samples = leb (timed samples * 100) (length samples)

abbrev pub since : Option ℕ → ℕ → ℕ
since none now = now
since (some t) now = t

abbrev pub window : ℕ → Bool → ExtAuthz → List TimeoutSample
window now timeout e =
    keep (λ s. within rate_window now s.at_time)
      (e.events ++ record { at_time = now; timeout = timeout } ∷ [])

-- The `if e.tripped` at the end of `record`.
abbrev pub recovered : ℕ → ExtAuthz → ExtAuthz
recovered now e =
    if not (rate_recovers e.events)
    then record e { below_since = none }
    else if leb (since e.below_since now + recover_hold) now
    then record e { tripped = false; below_since = none }
    else record e { below_since = some (since e.below_since now) }

-- `record`
unfoldable pub record_sample : ℕ → Bool → ExtAuthz → ExtAuthz
record_sample now timeout e =
    let counted = record e {
      timeouts = if timeout then e.timeouts + 1 else e.timeouts;
      events = window now timeout e;
    } in
    if not e.tripped && leb min_samples (length counted.events) && rate_trips counted.events
    then record counted { tripped = true; trips = e.trips + 1; below_since = none }
    else if e.tripped
    then recovered now counted
    else counted

-- What a request looks like once it was read, and what the gate does within the deadline.
pub record Inspected : Type 0 where
  pub view : CanonicalView
  pub oversize : Bool
  pub body_present : Bool

pub data Outcome : Type 0 where
  answered : Action → Outcome
  panicked timed_out : Outcome

abbrev status_input : CanonicalView → StatusInput
status_input view = record {
  posture = ext_authz;
  gate_action = allow;
  view = view;
  oversize = false;
  body_present = false;
  engine_crash = false;
  missing_request_id = false;
  in_flight_exceeded = false;
  ext_authz_timeout = false;
}

abbrev pub oversize_input : CanonicalView → StatusInput
oversize_input view = record (status_input view) { oversize = true; body_present = true }

abbrev pub timeout_input : CanonicalView → StatusInput
timeout_input view = record (status_input view) { ext_authz_timeout = true }

abbrev pub action_input : Action → CanonicalView → StatusInput
action_input action view = record (status_input view) { gate_action = action }

-- The admission at the start of `ServeHTTP`.
unfoldable pub enter : ℕ → ExtAuthz → Bool × ExtAuthz
enter now e =
    let counted = record e { checks = e.checks + 1 } in
    if e.tripped then try_half_open now counted else (true, counted)

-- What follows an admission: the status, and the sample that is recorded.
unfoldable pub answer : Inspected → Outcome → ℕ × Bool
answer i o =
    if i.oversize && i.body_present
    then ((http_status (oversize_input i.view)).0, false)
    else if i.view.rejected
    then ((http_status (status_input i.view)).0, false)
    else elim o [
      | answered action ↦ ((http_status (action_input action i.view)).0, false)
      | panicked ↦ ((http_status (action_input allow i.view)).0, false)
      | timed_out ↦ ((http_status (timeout_input i.view)).0, true)
    ]

-- `ServeHTTP`, entered at one time and recorded at another.
unfoldable pub serve_http : ℕ → ℕ → Inspected → Outcome → ExtAuthz → ℕ × ExtAuthz
serve_http start finish i o e =
    let entered = enter start e in
    let answered = answer i o in
    if entered.0 then (answered.0, record_sample finish answered.1 entered.1) else (503, entered.1)
