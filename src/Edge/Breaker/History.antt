-- ===== src/Edge/Breaker/History.antt =====
-- The circuit breaker of lib/edgecore/external_authorization.go against all samples that it was given
-- since it was made, the newest first.
use yu_feng.Base.{
  ℕ, ◌≡◌, refl, sym, ◌∙◌, ap, Bool, true, false, ◌&&◌, ◌+◌, ◌*◌, ◌≤◌, List, [], ◌∷◌, ◌++◌, ◌↔◌,
  arith, length, keep, leb, if◌then◌else◌,
}
use yu_feng.Edge.Breaker.Laws.{record_sample_trips}
use yu_feng.Edge.Breaker.{
  ExtAuthz, TimeoutSample, new_ext_authz, rate_window, record_sample, timed, window, within,
}

-- The breaker after a history of samples.
unfoldable pub after : List TimeoutSample → ExtAuthz
after [] = new_ext_authz
after (s ∷ older) = record_sample s.at_time s.timeout (after older)

-- The clock did not run backwards.
abbrev pub IsHistory : List TimeoutSample → Type 0
IsHistory [] = Unit
IsHistory (s ∷ []) = Unit
IsHistory (s ∷ t ∷ older) = (t.at_time ≤ s.at_time) × IsHistory (t ∷ older)

-- The sample is at most ten seconds old.
abbrev pub recent : ℕ → TimeoutSample → Bool
recent now s = leb now (s.at_time + rate_window)

abbrev pub count : (TimeoutSample → Bool) → List TimeoutSample → ℕ
count p [] = 0
count p (s ∷ ss) = if p s then 1 + count p ss else count p ss

-- The samples of the last ten seconds, and those of them that timed out.
abbrev pub recent_samples : ℕ → List TimeoutSample → ℕ
recent_samples now h = count (recent now) h

abbrev pub recent_timeouts : ℕ → List TimeoutSample → ℕ
recent_timeouts now h = count (λ s. recent now s && s.timeout) h

length-keep : (p : TimeoutSample → Bool) (ss : List TimeoutSample) → length (keep p ss) ≡ count p ss
length-keep p [] = refl
length-keep p (s ∷ ss) = let rest = length-keep p ss in ground arith

count-keep :
    (p q : TimeoutSample → Bool) (ss : List TimeoutSample)
    → count p (keep q ss) ≡ count (λ s. q s && p s) ss
count-keep p q [] = refl
count-keep p q (s ∷ ss) = let rest = count-keep p q ss in ground arith

count-append :
    (p : TimeoutSample → Bool) (ss : List TimeoutSample) (s : TimeoutSample)
    → count p (ss ++ s ∷ []) ≡ count p (s ∷ ss)
count-append p [] s = refl
count-append p (t ∷ ss) s = let rest = count-append p ss s in ground arith

-- Two tests that agree count the same.
count-agree :
    (p q : TimeoutSample → Bool) (ss : List TimeoutSample)
    → ((s : TimeoutSample) → p s ≡ q s)
    → count p ss ≡ count q ss
count-agree p q [] h = refl
count-agree p q (s ∷ ss) h = rw (h s, count-agree p q ss h) refl

always : TimeoutSample → Bool
always s = true

count-always : (ss : List TimeoutSample) → count always ss ≡ length ss
unfolding always
count-always [] = refl
count-always (s ∷ ss) = let rest = count-always ss in ground arith

-- One more sample is counted the same before equal counts.
counted_next :
    (p : TimeoutSample → Bool) (s : TimeoutSample) (ss ts : List TimeoutSample)
    → count p ss ≡ count p ts
    → count p (s ∷ ss) ≡ count p (s ∷ ts)
counted_next p s ss ts e = ground arith

record_sample_events :
    (now : ℕ) (timeout : Bool) (e : ExtAuthz)
    → (record_sample now timeout e).events ≡ window now timeout e
unfolding record_sample
record_sample_events now timeout e = ground arith

within-recent :
    (p : TimeoutSample → Bool) (now : ℕ) (s : TimeoutSample)
    → (within rate_window now s.at_time && p s) ≡ (recent now s && p s)
within-recent p now s = ground arith

count-window :
    (p : TimeoutSample → Bool) (s : TimeoutSample) (e : ExtAuthz)
    → count p (window s.at_time s.timeout e) ≡ count (λ u. recent s.at_time u && p u) (s ∷ e.events)
count-window p s e =
    count-keep p (λ u. within rate_window s.at_time u.at_time) (e.events ++ s ∷ [])
    ∙ count-append (λ u. within rate_window s.at_time u.at_time && p u) e.events s
    ∙ count-agree (λ u. within rate_window s.at_time u.at_time && p u)
        (λ u. recent s.at_time u && p u) (s ∷ e.events) (within-recent p s.at_time)

-- What is recent for a later sample was recent for an earlier one.
recent_earlier :
    (p : TimeoutSample → Bool) (before now : ℕ)
    → before ≤ now
    → (u : TimeoutSample) → (recent before u && (recent now u && p u)) ≡ (recent now u && p u)
recent_earlier p before now le u = ground arith

-- The samples that the breaker has dropped are not recent for the next one.
count-dropped :
    (p : TimeoutSample → Bool) (s : TimeoutSample) (older : List TimeoutSample)
    → IsHistory (s ∷ older)
    → count (λ u. recent s.at_time u && p u) (after older).events
      ≡ count (λ u. recent s.at_time u && p u) older
unfolding after
count-dropped p s [] h = refl
count-dropped p s (t ∷ older) (le, h) =
    let q : TimeoutSample → Bool = λ u. recent s.at_time u && p u in
    ap (count q) (record_sample_events t.at_time t.timeout (after older))
    ∙ count-window q t (after older)
    ∙ counted_next (λ u. recent t.at_time u && q u) t (after older).events older
        (count-dropped q t older h)
    ∙ count-agree (λ u. recent t.at_time u && q u) q (t ∷ older)
        (recent_earlier p t.at_time s.at_time le)

-- The window of the next sample counts the recent ones of the whole history.
count-window_after :
    (p : TimeoutSample → Bool) (s : TimeoutSample) (older : List TimeoutSample)
    → IsHistory (s ∷ older)
    → count p (window s.at_time s.timeout (after older))
      ≡ count (λ u. recent s.at_time u && p u) (s ∷ older)
count-window_after p s older h =
    count-window p s (after older)
    ∙ counted_next (λ u. recent s.at_time u && p u) s (after older).events older
        (count-dropped p s older h)

pub window_samples :
    (s : TimeoutSample) (older : List TimeoutSample)
    → IsHistory (s ∷ older)
    → length (window s.at_time s.timeout (after older)) ≡ recent_samples s.at_time (s ∷ older)
unfolding always
window_samples s older h =
    sym (count-always (window s.at_time s.timeout (after older)))
    ∙ count-window_after always s older h
    ∙ count-agree (λ u. recent s.at_time u && true) (recent s.at_time) (s ∷ older)
        (λ u. ground arith)

pub window_timeouts :
    (s : TimeoutSample) (older : List TimeoutSample)
    → IsHistory (s ∷ older)
    → timed (window s.at_time s.timeout (after older)) ≡ recent_timeouts s.at_time (s ∷ older)
window_timeouts s older h =
    length-keep (λ u. u.timeout) (window s.at_time s.timeout (after older))
    ∙ count-window_after (λ u. u.timeout) s older h

-- Whatever samples a new breaker was given while the clock did not run backwards: where they leave it
-- closed, the next sample opens it exactly where at least twenty samples of the whole history, that
-- sample included, are at most ten seconds old, and at least one in twenty of these timed out.
pub breaker_trips :
    (s : TimeoutSample) (older : List TimeoutSample)
    → IsHistory (s ∷ older)
    → (after older).tripped ≡ false
    → (((after (s ∷ older)).tripped ≡ true) ↔ (
        (20 ≤ recent_samples s.at_time (s ∷ older))
        × (recent_samples s.at_time (s ∷ older) ≤ recent_timeouts s.at_time (s ∷ older) * 20)))
unfolding after
breaker_trips s older h closed =
    rw (← window_samples s older h, ← window_timeouts s older h)
      (record_sample_trips s.at_time s.timeout (after older) closed)
