-- ===== src/Edge/Breaker/HalfOpen.antt =====
-- The half-open probes of lib/edgecore/external_authorization.go: a run of probes at given times.
use yu_feng.Base.{
  ℕ, ◌≡◌, true, false, ◌+◌, ◌≤◌, ◌<◌, List, [], ◌∷◌, Option, none, some, ◌⊎◌, inl, inr, ◌↔◌, arith,
  if◌then◌else◌, Bool-cases,
}
use yu_feng.Edge.Breaker.{ExtAuthz, second, try_half_open}

-- The times of those probes that are admitted, the breaker staying open.
unfoldable pub probes : List ℕ → ExtAuthz → List ℕ
probes [] e = []
probes (t ∷ ts) e =
    let rest = probes ts (try_half_open t e).1 in if (try_half_open t e).0 then t ∷ rest else rest

-- The clock does not run backwards.
abbrev pub IsClock : ℕ → List ℕ → Type 0
IsClock lo [] = Unit
IsClock lo (t ∷ ts) = (lo ≤ t) × IsClock t ts

-- Each time is more than a second after the one before it.
abbrev pub IsSpaced : Option ℕ → List ℕ → Type 0
IsSpaced last [] = Unit
IsSpaced none (t ∷ ts) = IsSpaced (some t) ts
IsSpaced (some last) (t ∷ ts) = (last + second < t) × IsSpaced (some t) ts

-- The probe that was admitted last is remembered, or is more than a second old.
Remembers : ℕ → ℕ → ExtAuthz → Type 0
Remembers last lo e = (e.half_open ≡ last ∷ []) ⊎ ((e.half_open ≡ []) × (last + second < lo))

refused_step :
    (last lo t : ℕ) (e : ExtAuthz)
    → Remembers last lo e
    → lo ≤ t
    → (try_half_open t e).0 ≡ false
    → Remembers last t (try_half_open t e).1
unfolding try_half_open Remembers
refused_step last lo t e (inl h) le r = inl (ground arith)
refused_step last lo t e (inr (h, old)) le r = ground arith

admitted_step :
    (last lo t : ℕ) (e : ExtAuthz)
    → Remembers last lo e
    → lo ≤ t
    → (try_half_open t e).0 ≡ true
    → (last + second < t) × ((try_half_open t e).1.half_open ≡ t ∷ [])
unfolding try_half_open Remembers
admitted_step last lo t e (inl h) le r = ground arith
admitted_step last lo t e (inr (h, old)) le r = ground arith

IsSpaced-after :
    (ts : List ℕ) (last lo : ℕ) (e : ExtAuthz)
    → Remembers last lo e
    → IsClock lo ts
    → IsSpaced (some last) (probes ts e)
unfolding probes Remembers
IsSpaced-after [] last lo e h clock = ground arith
IsSpaced-after (t ∷ ts) last lo e h clock = elim (Bool-cases (try_half_open t e).0) [
  | inl taken ↦ rw (taken) (
    (admitted_step last lo t e h clock.0 taken).0,
    IsSpaced-after ts t t (try_half_open t e).1 (inl (admitted_step last lo t e h clock.0 taken).1)
        clock.1,
  )
  | inr passed ↦ rw (passed) (
      IsSpaced-after ts last t (try_half_open t e).1 (refused_step last lo t e h clock.0 passed)
        clock.1)
]

first_step :
    (t : ℕ) (e : ExtAuthz)
    → e.half_open ≡ []
    → ((try_half_open t e).0 ≡ true) × ((try_half_open t e).1.half_open ≡ t ∷ [])
unfolding try_half_open
first_step t e h = ground arith

-- From a breaker with no probe on record that stays open, and with a clock that does not run backwards:
-- of the probes that arrive at the given times, each one admitted comes more than a second after the
-- one admitted before it.
pub probes-IsSpaced :
    (ts : List ℕ) (lo : ℕ) (e : ExtAuthz)
    → e.half_open ≡ []
    → IsClock lo ts
    → IsSpaced none (probes ts e)
unfolding probes Remembers
probes-IsSpaced [] lo e h clock = ground arith
probes-IsSpaced (t ∷ ts) lo e h clock =
    let (taken, kept) = first_step t e h in
    rw (taken) (IsSpaced-after ts t t (try_half_open t e).1 (inl kept) clock.1)

-- With one admitted probe on record, the next is admitted exactly where more than a second went by.
pub try_half_open_iff :
    (last now : ℕ) (e : ExtAuthz)
    → e.half_open ≡ last ∷ []
    → (((try_half_open now e).0 ≡ true) ↔ (last + second < now))
unfolding try_half_open
try_half_open_iff last now e h = (λ t. ground arith, λ t. ground arith)
