-- ===== src/Brain/Limits/Windows.antt =====
-- The sliding window of the limiters of lib/brain/ratelimit.go.
use yu_feng.Base.{
  ℕ, String, ◌≡◌, refl, sym, ◌∙◌, ◌≤◌, ◌+◌, Bool, true, false, Option, none, some, List, [], ◌∷◌,
  ◌++◌, length, keep, All, arith, inl, inr, Bool-cases, Option-cases, str_eq, if◌then◌else◌,
}
use yu_feng.Base.Assoc.{Assoc, lookup, IsSingle}
use yu_feng.Brain.Limits.{is_live, is_stale, or_empty, last_of, sweep}

-- How many of the times lie in the window that ends now.
abbrev pub live_count : ℕ → ℕ → List ℕ → ℕ
live_count window now ts = length (keep (is_live window now) ts)

-- Times in order, the last of them no later than `now`.
abbrev pub IsOrdered : ℕ → List ℕ → Type 0
IsOrdered now [] = Unit
IsOrdered now (t ∷ ts) = (t ≤ now) × All (λ u. t ≤ u) ts × IsOrdered now ts

pub live_count-keep :
    (window now later : ℕ) (ts : List ℕ)
    → now ≤ later
    → live_count window later (keep (is_live window now) ts) ≡ live_count window later ts
live_count-keep window now later [] h = refl
live_count-keep window now later (t ∷ ts) h =
    let rest = live_count-keep window now later ts h in ground arith

pub live_count-append :
    (window now : ℕ) (ts us : List ℕ)
    → live_count window now (ts ++ us) ≡ live_count window now ts + live_count window now us
live_count-append window now [] us = omega arith
live_count-append window now (t ∷ ts) us =
    let rest = live_count-append window now ts us in ground arith

last_of-some : (t : ℕ) (ts : List ℕ) → (u : ℕ) × (last_of (t ∷ ts) ≡ some u)
unfolding last_of
last_of-some t ts = elim (Option-cases (last_of ts)) [
  | inl e ↦ (t, rw (e) refl)
  | inr (u, e) ↦ (u, rw (e) refl)
]

-- The last of the times in order is the latest.
last_of-bound :
    (now : ℕ) (ts : List ℕ) (t : ℕ) → last_of ts ≡ some t → IsOrdered now ts → All (λ u. u ≤ t) ts
unfolding last_of
last_of-bound now [] t e h = tt
last_of-bound now (u ∷ []) t e h = (ground arith, tt)
last_of-bound now (u ∷ v ∷ ts) t e h =
    let (w, f) = last_of-some v ts in
    let g : last_of (v ∷ ts) ≡ some t = ground (arith, f) in
    let rest = last_of-bound now (v ∷ ts) t g h.2 in
    let first = rest.0 in let step = h.1.0 in (omega arith, rest)

dead_count :
    (window now t : ℕ) (ts : List ℕ)
    → is_live window now t ≡ false
    → All (λ u. u ≤ t) ts
    → live_count window now ts ≡ 0
dead_count window now t [] e h = refl
dead_count window now t (u ∷ ts) e h =
    let rest = dead_count window now t ts e h.1 in let le = h.0 in ground arith

pub stale_count :
    (window now later : ℕ) (ts : List ℕ)
    → now ≤ later
    → is_stale window now ts ≡ true
    → IsOrdered now ts
    → live_count window later ts ≡ 0
stale_count window now later [] le e h = refl
stale_count window now later (t ∷ ts) le e h =
    let (u, f) = last_of-some t ts in
    let dead : is_live window now u ≡ false = ground (arith, f) in
    dead_count window later u (t ∷ ts) (ground (arith, dead)) (last_of-bound now (t ∷ ts) u f h)

pub IsOrdered-later :
    (now later : ℕ) (ts : List ℕ) → now ≤ later → IsOrdered now ts → IsOrdered later ts
IsOrdered-later now later [] le h = tt
IsOrdered-later now later (t ∷ ts) le h =
    let first = h.0 in (omega arith, h.1, IsOrdered-later now later ts le h.2)

All-keep : (P : ℕ → Type 0) (p : ℕ → Bool) (ts : List ℕ) → All P ts → All P (keep p ts)
All-keep P p [] h = tt
All-keep P p (t ∷ ts) h = elim (Bool-cases (p t)) [
  | inl hit ↦ rw (hit) (h.0, All-keep P p ts h.1)
  | inr miss ↦ rw (miss) (All-keep P p ts h.1)
]

pub keep-IsOrdered :
    (now : ℕ) (p : ℕ → Bool) (ts : List ℕ) → IsOrdered now ts → IsOrdered now (keep p ts)
keep-IsOrdered now p [] h = tt
keep-IsOrdered now p (t ∷ ts) h = elim (Bool-cases (p t)) [
  | inl hit ↦ rw (hit) (h.0, All-keep (λ u. t ≤ u) p ts h.1, keep-IsOrdered now p ts h.2)
  | inr miss ↦ rw (miss) (keep-IsOrdered now p ts h.2)
]

All-append : (P : ℕ → Type 0) (ts : List ℕ) (u : ℕ) → All P ts → P u → All P (ts ++ u ∷ [])
All-append P [] u h k = (k, tt)
All-append P (t ∷ ts) u h k = (h.0, All-append P ts u h.1 k)

pub append-IsOrdered : (now : ℕ) (ts : List ℕ) → IsOrdered now ts → IsOrdered now (ts ++ now ∷ [])
append-IsOrdered now [] h = (omega arith, tt, tt)
append-IsOrdered now (t ∷ ts) h =
    (h.0, All-append (λ u. t ≤ u) ts now h.1 h.0, append-IsOrdered now ts h.2)

-- What a sweep leaves of an entry.
abbrev pub dropped : ℕ → ℕ → Option (List ℕ) → Option (List ℕ)
dropped window now none = none
dropped window now (some ts) = if is_stale window now ts then none else some ts

-- It loses no time that counts now or later.
pub dropped_times :
    (window now : ℕ) (o : Option (List ℕ))
    → IsOrdered now (or_empty o)
    → IsOrdered now (or_empty (dropped window now o))
      × ((later : ℕ)
          → now ≤ later
          → live_count window later (or_empty (dropped window now o))
            ≡ live_count window later (or_empty o))
dropped_times window now none h = (h, λ later le. refl)
dropped_times window now (some ts) h = elim (Bool-cases (is_stale window now ts)) [
  | inl stale ↦ rw (stale) (tt, λ later le. sym (stale_count window now later ts le stale h))
  | inr fresh ↦ rw (fresh) (h, λ later le. refl)
]

pub lookup-sweep :
    (window now : ℕ) (key : String) (entries : Assoc (List ℕ))
    → IsSingle key entries
    → lookup key (sweep window now entries) ≡ dropped window now (lookup key entries)
unfolding lookup sweep
lookup-sweep window now key [] h = refl
lookup-sweep window now key ((name, ts) ∷ entries) h =
    let rest = lookup-sweep window now key entries h.1 in
    elim (Bool-cases (str_eq name key)) [
      | inl hit ↦
          let gone : lookup key (sweep window now entries) ≡ none = rest ∙ rw (h.0 hit) refl in
          elim (Bool-cases (is_stale window now ts)) [
            | inl stale ↦ rw (hit, stale) gone
            | inr fresh ↦ rw (hit, fresh, lookup, hit) refl
          ]
      | inr miss ↦ elim (Bool-cases (is_stale window now ts)) [
        | inl stale ↦ rw (miss, stale) rest
        | inr fresh ↦ rw (miss, fresh, lookup, miss) rest
      ]
    ]

pub sweep-IsSingle :
    (window now : ℕ) (key : String) (entries : Assoc (List ℕ))
    → IsSingle key entries
    → IsSingle key (sweep window now entries)
unfolding sweep
sweep-IsSingle window now key [] h = tt
sweep-IsSingle window now key ((name, ts) ∷ entries) h =
    elim (Bool-cases (is_stale window now ts)) [
      | inl hit ↦ rw (hit) (sweep-IsSingle window now key entries h.1)
      | inr miss ↦ rw (miss) (
        λ e. rw (lookup-sweep window now key entries h.1, h.0 e) refl,
        sweep-IsSingle window now key entries h.1,
      )
    ]
