-- ===== src/Edge/Breaker/Recovery.antt =====
-- When an open circuit breaker of lib/edgecore/external_authorization.go closes, against all samples
-- that it was given since it was made.
use yu_feng.Base.{ℕ, ◌≡◌, true, false, ◌*◌, ◌≤◌, List, [], ◌∷◌, none, ◌⊎◌}
use yu_feng.Edge.Breaker.{ExtAuthz, TimeoutSample}
use yu_feng.Edge.Breaker.History.{after, recent_samples, recent_timeouts}

-- At the newest sample, at most one in a hundred of the last ten seconds timed out.
abbrev pub IsLow : List TimeoutSample → Type 0
IsLow [] = ⊥
IsLow (s ∷ older) =
    recent_timeouts s.at_time (s ∷ older) * 100 ≤ recent_samples s.at_time (s ∷ older)

-- From a sample at the given time to the newest one, the breaker was open and the rate was low at each.
abbrev pub IsLowSince : ℕ → List TimeoutSample → Type 0
IsLowSince t [] = ⊥
IsLowSince t (s ∷ older) =
    ((after older).tripped ≡ true) × IsLow (s ∷ older) × ((t ≡ s.at_time) ⊎ IsLowSince t older)

-- A closed breaker has no time on record.
IsClear : ExtAuthz → Type 0
IsClear e = e.tripped ≡ false → e.below_since ≡ none
