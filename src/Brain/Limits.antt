-- ===== src/Brain/Limits.antt =====
-- lib/brain/ratelimit.go: the limiters of calls, the gate of long polls and the bounds of pages.
-- Times are in nanoseconds. The entry that a full limiter drops is the first that Go's map iteration
-- meets, which is any of them: `victim` names it. A count of a page that is negative is 0 here.
pub mod Windows
pub mod Memory
pub mod Admissions
pub mod Bounds
pub mod Keys
use yu_feng.Base.{
  ℕ, suc, String, Bool, true, false, not, ◌&&◌, ◌||◌, ◌+◌, ◌-◌, ◌*◌, ◌^◌, List, [], ◌∷◌, ◌++◌,
  Option, none, some, ◌==◌, ltb, leb, keep, length, str_eq, is_some, if◌then◌else◌,
}
use yu_feng.Base.Assoc.{Assoc, lookup, insert, delete}

pub record Limiter : Type 0 where
  pub hits : Assoc (List ℕ)
  pub last_sweep : Option ℕ

abbrev pub new_limiter : Limiter
new_limiter = record { hits = []; last_sweep = none }

abbrev pub limiter_key_limit : ℕ
limiter_key_limit = 10000

-- time.Second, and kernel.UnitRPCQPS.
abbrev pub second : ℕ
second = 10 ^ 9

abbrev pub unit_rpc_qps : ℕ
unit_rpc_qps = 10

-- `t.After(now.Add(-window))`
abbrev pub is_live : ℕ → ℕ → ℕ → Bool
is_live window now t = ltb now (t + window)

-- `timestamps[len(timestamps)-1]`, where there is one.
unfoldable pub last_of : List ℕ → Option ℕ
last_of [] = none
last_of (t ∷ ts) = elim (last_of ts) [ none ↦ some t | some u ↦ some u ]

abbrev pub is_stale : ℕ → ℕ → List ℕ → Bool
is_stale window now ts = elim (last_of ts) [ none ↦ true | some t ↦ not (is_live window now t) ]

unfoldable pub sweep : ℕ → ℕ → Assoc (List ℕ) → Assoc (List ℕ)
sweep window now [] = []
sweep window now ((key, ts) ∷ entries) =
    if is_stale window now ts
    then sweep window now entries
    else (key, ts) ∷ sweep window now entries

-- Whether it is time to sweep again.
abbrev pub is_due : ℕ → ℕ → Option ℕ → Bool
is_due period now none = true
is_due period now (some last) = leb (last + period) now

unfoldable pub swept : ℕ → ℕ → ℕ → Limiter → Limiter
swept window period now l =
    if is_due period now l.last_sweep
    then record { hits = sweep window now l.hits; last_sweep = some now }
    else l

abbrev pub is_full : String → Assoc (List ℕ) → Bool
is_full key entries = not (is_some (lookup key entries)) && leb limiter_key_limit (length entries)

unfoldable pub evicted : String → String → Assoc (List ℕ) → Assoc (List ℕ)
evicted victim key entries = if is_full key entries then delete victim entries else entries

-- What Go reads where a key is missing.
abbrev pub or_empty : Option (List ℕ) → List ℕ
or_empty none = []
or_empty (some ts) = ts

abbrev pub or_zero : Option ℕ → ℕ
or_zero none = 0
or_zero (some n) = n

abbrev pub hits_of : String → Assoc (List ℕ) → List ℕ
hits_of key entries = or_empty (lookup key entries)

unfoldable pub admitted : ℕ → ℕ → String → ℕ → Limiter → Bool × Limiter
admitted limit window key now l =
    let kept = keep (is_live window now) (hits_of key l.hits) in
    if leb limit (length kept)
    then (false, record { hits = insert key kept l.hits; last_sweep = l.last_sweep })
    else (true, record { hits = insert key (kept ++ now ∷ []) l.hits; last_sweep = l.last_sweep })

abbrev pub make_room : ℕ → ℕ → String → String → ℕ → Limiter → Limiter
make_room window period victim key now l =
    let l1 = swept window period now l in
    record { hits = evicted victim key l1.hits; last_sweep = l1.last_sweep }

-- `min(l.window, time.Second)`
abbrev pub sweep_period : ℕ → ℕ
sweep_period window = if ltb window second then window else second

-- windowLimiter.Allow
unfoldable pub window_allow : ℕ → ℕ → String → String → ℕ → Limiter → Bool × Limiter
window_allow limit window victim key now l =
    admitted limit window key now (make_room window (sweep_period window) victim key now l)

-- UnitLimiter.Allow
unfoldable pub unit_allow : String → String → ℕ → Limiter → Bool × Limiter
unit_allow victim unit now l =
    admitted unit_rpc_qps second unit now (make_room second second victim unit now l)

-- kernel.LongPollConcurrencyPerAgent
abbrev pub long_poll_concurrency : ℕ
long_poll_concurrency = 4

abbrev pub count_of : String → Assoc ℕ → ℕ
count_of id n = or_zero (lookup id n)

-- pollGate.acquire: none where the error is returned.
unfoldable pub acquire : String → Assoc ℕ → Option (Assoc ℕ)
acquire id n =
    if leb long_poll_concurrency (count_of id n)
    then none
    else some (insert id (suc (count_of id n)) n)

-- pollGate.release: a count that would not stay above zero is dropped.
unfoldable pub release : String → Assoc ℕ → Assoc ℕ
release id n = if leb (count_of id n) 1 then delete id n else insert id (count_of id n - 1) n

unfoldable pub clamp_page_size : ℕ → ℕ
clamp_page_size n = if n == 0 then 50 else if ltb 200 n then 200 else n

unfoldable pub clamp_artifact_bytes : ℕ → ℕ
clamp_artifact_bytes n =
    if n == 0 then 4 * 2 ^ 20 else if ltb (16 * 2 ^ 20) n then 16 * 2 ^ 20 else n
