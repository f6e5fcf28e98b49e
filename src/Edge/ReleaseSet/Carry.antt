-- ===== src/Edge/ReleaseSet/Carry.antt =====
-- What becomes of the counters of lib/edgecore/release_set.go when the set is replaced, and of the
-- latencies that a counter keeps.
use yu_feng.Base.{
  ℕ, String, ◌≡◌, refl, ◌≤◌, ◌+◌, List, [], ◌∷◌, Option, none, some, arith, eq_iff, is_some,
  if◌then◌else◌, length, length-append, leb,
}
use yu_feng.Base.Assoc.{Assoc, lookup}
use yu_feng.Kernel.Generation.{AssetGeneration}
use yu_feng.Edge.Gate.{Counter, ManagedRelease, new_counter}
use yu_feng.Edge.ReleaseSet.{ReleaseSet}
use yu_feng.Edge.ReleaseSet.Counters.{latency_sample_cap, tail, with_latency}
use yu_feng.Edge.ReleaseSet.Swap.{carried, swap_from}

-- The counter that a release had, or a new one.
abbrev pub or_new : Option Counter → Counter
or_new none = new_counter
or_new (some c) = c

lookup-carried :
    (id : String) (releases : Assoc ManagedRelease) (old : Assoc Counter)
    → lookup id (carried releases old)
      ≡ (if is_some (lookup id releases) then some (or_new (lookup id old)) else none)
unfolding carried lookup
lookup-carried id [] old = refl
lookup-carried id ((j, r) ∷ rs) old =
    let rest = lookup-carried id rs old in ground (arith, eq_iff j id)

-- When the set is replaced, a release of the new set that had a counter keeps it as it stands, one that
-- had none starts from zero, and the counter of a release that is not in the new set is dropped.
pub swap_from_counters :
    {M : Type 0} (id : String) (next : ReleaseSet M) (active : Option AssetGeneration)
    (s : ReleaseSet M)
    → lookup id (swap_from next active s).counters
      ≡ (if is_some (lookup id next.releases) then some (or_new (lookup id s.counters)) else none)
unfolding swap_from
swap_from_counters id next active s = lookup-carried id next.releases s.counters

tail_shorter : (xs : List ℕ) → length xs ≤ length (tail xs) + 1
tail_shorter [] = omega arith
tail_shorter (x ∷ xs) = omega arith

tail_short : (xs : List ℕ) (n : ℕ) → length xs ≤ n + 1 → length (tail xs) ≤ n
tail_short [] n h = omega arith
tail_short (x ∷ xs) n h = omega (arith, h)

-- A counter that holds at most 256 latencies holds at most 256 after one more is recorded.
pub with_latency_bounded :
    (micros : ℕ) (c : Counter)
    → length c.latencies ≤ latency_sample_cap
    → length (with_latency micros c).latencies ≤ latency_sample_cap
with_latency_bounded micros c h =
    let l =
      length-append
        (if leb latency_sample_cap (length c.latencies) then tail c.latencies else c.latencies)
        (micros ∷ []) in
    let t = tail_short c.latencies 255 h in ground arith
