-- ===== src/Edge/Breaker/Laws.antt =====
-- When the circuit breaker of lib/edgecore/external_authorization.go opens and closes.
use yu_feng.Base.{
  ℕ, ◌≡◌, refl, Bool, true, false, ◌+◌, ◌*◌, ◌≤◌, Option, none, some, ◌↔◌, arith, length, leb,
}
use yu_feng.Edge.Breaker.{ExtAuthz, min_samples, recover_hold, record_sample, timed, window, since}

-- A closed breaker is opened by a sample exactly where the last ten seconds, that sample included, hold
-- at least twenty samples and at least one in twenty of them timed out.
pub record_sample_trips :
    (now : ℕ) (timeout : Bool) (e : ExtAuthz)
    → e.tripped ≡ false
    → (((record_sample now timeout e).tripped ≡ true) ↔ (
        (min_samples ≤ length (window now timeout e))
        × (length (window now timeout e) ≤ timed (window now timeout e) * 20)))
unfolding record_sample
record_sample_trips now timeout e h = (λ t. ground arith, λ t. ground arith)

-- The rate of timeouts has been low for the time that recovery takes.
unfoldable pub IsHeld : Option ℕ → ℕ → Type 0
IsHeld below now = (t : ℕ) × (below ≡ some t) × (t + recover_hold ≤ now)

held :
    (below : Option ℕ) (now : ℕ)
    → (leb (since below now + recover_hold) now ≡ true) ↔ IsHeld below now
unfolding IsHeld
held none now = (λ t. ground arith, λ t. ground arith)
held (some s) now = (λ t. (s, refl, ground arith), λ t. ground arith)

-- An open breaker is closed by a sample exactly where at most one in a hundred of the last ten seconds
-- timed out and the breaker has noted a low rate thirty seconds ago or longer.
pub record_sample_recovers :
    (now : ℕ) (timeout : Bool) (e : ExtAuthz)
    → e.tripped ≡ true
    → (((record_sample now timeout e).tripped ≡ false) ↔ (
        (timed (window now timeout e) * 100 ≤ length (window now timeout e))
        × IsHeld e.below_since now))
unfolding record_sample
record_sample_recovers now timeout e h =
    let (forward, back) = held e.below_since now in
    (λ t. (ground arith, forward (ground arith)), λ t. let b = back t.1 in ground arith)
