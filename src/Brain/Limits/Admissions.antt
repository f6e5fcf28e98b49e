-- ===== src/Brain/Limits/Admissions.antt =====
-- Sequences of calls of the limiters of lib/brain/ratelimit.go.
use yu_feng.Base.{
  ℕ, suc, String, ◌≡◌, refl, ◌≤◌, true, false, ◌&&◌, List, [], ◌∷◌, arith, inl, inr, Bool-cases,
  str_eq, eq_iff, if◌then◌else◌,
}
use yu_feng.Base.Assoc.{lookup}
use yu_feng.Brain.Limits.{
  Limiter, admitted, make_room, new_limiter, second, sweep_period, swept, unit_allow, unit_rpc_qps,
  window_allow,
}
use yu_feng.Brain.Limits.Windows.{live_count}
use yu_feng.Brain.Limits.Memory.{
  Remembers, Remembers-later, admitted-Remembers, admitted_below, evicted-Remembers,
  swept-Remembers,
}

-- A call: the entry that would be dropped, the key and the time.
pub record Call : Type 0 where
  pub victim : String
  pub key : String
  pub now : ℕ

-- The times at which a key is admitted, the latest first.
unfoldable pub admissions : ℕ → ℕ → String → List Call → Limiter → List ℕ → List ℕ
admissions limit window key [] l times = times
admissions limit window key (c ∷ calls) l times =
    let r = window_allow limit window c.victim c.key c.now l in
    admissions limit window key calls r.1 (if r.0 && str_eq c.key key then c.now ∷ times else times)

-- The clock does not go back, and no call drops the key.
abbrev pub IsSteady : String → ℕ → List Call → Type 0
IsSteady key now [] = Unit
IsSteady key now (c ∷ calls) =
    (now ≤ c.now) × (str_eq c.victim key ≡ false) × IsSteady key c.now calls

-- In the window that ends with any of the times there are no more than `limit` of them.
abbrev pub IsLimited : ℕ → ℕ → List ℕ → Type 0
IsLimited limit window [] = Unit
IsLimited limit window (t ∷ times) =
    (suc (live_count window t times) ≤ limit) × IsLimited limit window times

allowed-IsLimited :
    (limit window : ℕ) (key : String) (now : ℕ) (times : List ℕ) (other : String) (l : Limiter)
    → Remembers window key now times l.hits
    → IsLimited limit window times
    → IsLimited limit window
        (if (admitted limit window other now l).0 && str_eq other key then now ∷ times else times)
allowed-IsLimited limit window key now times other l h fine =
    elim (Bool-cases ((admitted limit window other now l).0 && str_eq other key)) [
      | inl both ↦
          let same : other ≡ key = ground (arith, both, eq_iff other key) in
          let let_in : (admitted limit window other now l).0 ≡ true = ground (arith, both) in
          rw (both) (admitted_below limit window key now times l h (rw same at let_in), fine)
      | inr not_both ↦ rw (not_both) fine
    ]

made_room-Remembers :
    (window period : ℕ) (key : String) (now : ℕ) (times : List ℕ) (victim other : String)
    (l : Limiter)
    → str_eq victim key ≡ false
    → Remembers window key now times l.hits
    → Remembers window key now times (make_room window period victim other now l).hits
made_room-Remembers window period key now times victim other l away h =
    evicted-Remembers window key now times victim other (swept window period now l).hits away
      (swept-Remembers window period key now times l h)

admissions_from :
    (limit window : ℕ) (key : String) (now : ℕ) (calls : List Call) (l : Limiter) (times : List ℕ)
    → IsSteady key now calls
    → Remembers window key now times l.hits
    → IsLimited limit window times
    → IsLimited limit window (admissions limit window key calls l times)
unfolding admissions window_allow
admissions_from limit window key now [] l times steady h fine = fine
admissions_from limit window key now (c ∷ calls) l times steady h fine =
    let period = sweep_period window in
    let l1 = make_room window period c.victim c.key c.now l in
    let h1 =
      made_room-Remembers window period key c.now times c.victim c.key l steady.1
        (Remembers-later window key now c.now times l.hits steady.0 h) in
    admissions_from limit window key c.now calls (admitted limit window c.key c.now l1).1
      (if (admitted limit window c.key c.now l1).0 && str_eq c.key key
        then c.now ∷ times
        else times)
      steady.2 (admitted-Remembers limit window key c.now times c.key l1 h1)
      (allowed-IsLimited limit window key c.now times c.key l1 h1 fine)

new_limiter-Remembers :
    (window : ℕ) (key : String) (now : ℕ) → Remembers window key now [] new_limiter.hits
unfolding lookup
new_limiter-Remembers window key now = record {
  single = tt;
  ordered = tt;
  counts = λ later le. refl;
}

-- Over any sequence of calls of a new limiter in which the clock does not go back and a full
-- limiter does not drop the key: of the times at which the key is admitted no more than `limit` lie
-- in the window that ends with any of them.
pub admissions-IsLimited :
    (limit window : ℕ) (key : String) (calls : List Call)
    → IsSteady key 0 calls
    → IsLimited limit window (admissions limit window key calls new_limiter [])
admissions-IsLimited limit window key calls steady =
    admissions_from limit window key 0 calls new_limiter [] steady
      (new_limiter-Remembers window key 0) tt

-- The limiter of units is the one of windows at ten calls a second.
pub unit_allow-eq-window_allow :
    (victim unit : String) (now : ℕ) (l : Limiter)
    → unit_allow victim unit now l ≡ window_allow unit_rpc_qps second victim unit now l
unfolding unit_allow window_allow
unit_allow-eq-window_allow victim unit now l = refl
