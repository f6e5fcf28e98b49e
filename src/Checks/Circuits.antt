-- ===== src/Checks/Circuits.antt =====
-- Tests of the circuit breaker of the external authorization adapter.
use yu_feng.Base.{
  ℕ, zero, suc, List, Bool, true, false, not, ◌&&◌, [], ◌∷◌, none, some, ◌≡◌, refl, ◌≤◌, ◌*◌, arith,
  ◌↔◌, if◌then◌else◌,
}
use yu_feng.Edge.Breaker.{
  ExtAuthz, Inspected, TimeoutSample, second, enter, new_ext_authz, record_sample, serve_http,
  timed_out,
}
use yu_feng.Edge.Breaker.History.{after, breaker_trips, IsHistory, recent_samples, recent_timeouts}
use yu_feng.Edge.Breaker.HalfOpen.{IsSpaced, probes, probes-IsSpaced}
use yu_feng.Edge.Breaker.Serve.{refuses, serve_http_status}
use yu_feng.Checks.Data.{test_view}

abbrev open_breaker : ExtAuthz
open_breaker = record new_ext_authz { tripped = true; below_since = some 0 }

-- So many samples at one time, the newest first.
abbrev many : ℕ → ℕ → Bool → List TimeoutSample → List TimeoutSample
many zero now timeout older = older
many (suc n) now timeout older =
    record { at_time = now; timeout = timeout } ∷ many n now timeout older

abbrev late_sample : TimeoutSample
late_sample = record { at_time = 5; timeout = true }

abbrev nineteen : List TimeoutSample
nineteen = many 19 5 false []

nineteen-IsHistory : IsHistory (late_sample ∷ nineteen)
nineteen-IsHistory = ground arith

nineteen_closed : (after nineteen).tripped ≡ false
unfolding after record_sample
nineteen_closed = refl

breaker_trips_example : ((after (late_sample ∷ nineteen)).tripped ≡ true) ↔ (
    (20 ≤ recent_samples 5 (late_sample ∷ nineteen))
    × (recent_samples 5 (late_sample ∷ nineteen) ≤ recent_timeouts 5 (late_sample ∷ nineteen) * 20))
breaker_trips_example = breaker_trips late_sample nineteen nineteen-IsHistory nineteen_closed

nineteen_trip : (after (late_sample ∷ nineteen)).tripped ≡ true
unfolding after record_sample
nineteen_trip = refl

abbrev calm_sample : ℕ → TimeoutSample
calm_sample now = record { at_time = now; timeout = false }

-- The breaker opens, and a low rate is noted at 20 seconds.
abbrev calmed : List TimeoutSample
calmed = calm_sample (20 * second) ∷ late_sample ∷ nineteen

calmed_closes : (after (calm_sample (50 * second) ∷ calmed)).tripped ≡ false
unfolding after record_sample
calmed_closes = refl

probes-IsSpaced_example : IsSpaced none (probes (0 ∷ 500 ∷ 1000000001 ∷ []) open_breaker)
probes-IsSpaced_example =
    probes-IsSpaced (0 ∷ 500 ∷ 1000000001 ∷ []) 0 open_breaker refl
      (omega arith, (omega arith, (omega arith, tt)))

abbrev test_inspected : Inspected
test_inspected = record { view = test_view; oversize = false; body_present = false }

serve_http_status_example : (serve_http 5 6 test_inspected timed_out new_ext_authz).0 ≡ (
    if new_ext_authz.tripped && not (enter 5 new_ext_authz).0
    then 503
    else if refuses test_inspected timed_out
    then 403
    else 200)
serve_http_status_example = serve_http_status 5 6 test_inspected timed_out new_ext_authz
