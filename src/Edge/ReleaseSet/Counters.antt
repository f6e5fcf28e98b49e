-- ===== src/Edge/ReleaseSet/Counters.antt =====
-- lib/edgecore/release_set.go: the gate of the set, and the counters that a heartbeat reports.
use yu_feng.Base.{
  ℕ, zero, suc, String, Bool, List, [], ◌∷◌, ◌++◌, Option, none, some, ◌-◌, ◌*◌, ◌/◌, ltb, leb,
  length, if◌then◌else◌,
}
use yu_feng.Base.Assoc.{Assoc, lookup, insert}
use yu_feng.Edge.Types.{CanonicalView, Detection, Inspection, Request, ReleaseMode}
use yu_feng.Edge.Text.{GoText}
use yu_feng.Edge.Status.{resolve_posture}
use yu_feng.Edge.Gate.{Bucket, Counter, Decision, ManagedRelease, gate_with}
use yu_feng.Edge.ReleaseSet.{ReleaseSet}

-- `r.expiresAt.After(now)`, over the releases in the order of the map.
unfoldable pub live : ℕ → Assoc ManagedRelease → List ManagedRelease
live now [] = []
live now ((id, r) ∷ rs) = if ltb now r.expires_at then r ∷ live now rs else live now rs

-- `ReleaseSet.Gate`: the decision, and the set with the counters that went up.
unfoldable pub gate :
    {M : Type 0}
    → GoText
    → (String → Bool)
    → Bucket
    → ℕ
    → Request
    → List Detection
    → CanonicalView
    → ReleaseSet M
    → Decision × ReleaseSet M
gate g uuid_charset bucket now req found view s =
    let insp : Inspection = record {
      detections = found;
      coverage = view.coverage;
      rejected = view.rejected;
    } in
    let (dec, counters) =
      gate_with g uuid_charset bucket (live now s.releases) (resolve_posture s.posture) req insp
        view s.counters in
    (dec, record s { counters = counters })

abbrev pub latency_sample_cap : ℕ
latency_sample_cap = 256

-- `s[1:]`
abbrev pub tail : List ℕ → List ℕ
tail [] = []
tail (x ∷ xs) = xs

abbrev pub with_latency : ℕ → Counter → Counter
with_latency micros c = record c {
  latencies =
      (if leb latency_sample_cap (length c.latencies) then tail c.latencies else c.latencies)
      ++ micros ∷ [];
}

abbrev pub recorded : {M : Type 0} → String → ℕ → ReleaseSet M → Option Counter → ReleaseSet M
recorded id micros s none = s
recorded id micros s (some c) = record s { counters = insert id (with_latency micros c) s.counters }

-- `RecordLatency`
unfoldable pub record_latency : {M : Type 0} → String → ℕ → ReleaseSet M → ReleaseSet M
record_latency id micros s = recorded id micros s (lookup id s.counters)

-- `sort.Slice`, as an insertion sort.
unfoldable pub insert_sorted : ℕ → List ℕ → List ℕ
insert_sorted x [] = x ∷ []
insert_sorted x (y ∷ ys) = if leb x y then x ∷ y ∷ ys else y ∷ insert_sorted x ys

unfoldable pub sort : List ℕ → List ℕ
sort [] = []
sort (x ∷ xs) = insert_sorted x (sort xs)

-- `s[i]`, and 0 out of range.
unfoldable pub at_index : List ℕ → ℕ → ℕ
at_index [] i = 0
at_index (x ∷ xs) zero = x
at_index (x ∷ xs) (suc i) = at_index xs i

-- `p99`
unfoldable pub p99 : Counter → ℕ
p99 c =
    let n = length c.latencies in
    let idx = n * 99 / 100 in
    if leb n 0 then 0 else at_index (sort c.latencies) (if leb n idx then n - 1 else idx)

pub record ReleaseCounter : Type 0 where
  pub release_id : String
  pub artifact_id : String
  pub mode : ReleaseMode
  pub requests_total : ℕ
  pub blocks_total : ℕ
  pub observe_total : ℕ
  pub canary_selected_total : ℕ
  pub p99_micros : ℕ

counted : String → ManagedRelease → Counter → ReleaseCounter
counted id r c = record {
  release_id = id;
  artifact_id = r.artifact_id;
  mode = r.mode;
  requests_total = c.requests;
  blocks_total = c.blocks;
  observe_total = c.observed;
  canary_selected_total = c.canary_sel;
  p99_micros = p99 c;
}

report : Assoc Counter → Assoc ManagedRelease → List ReleaseCounter
report cs [] = []
report cs ((id, r) ∷ rs) = elim (lookup id cs) [
  | none ↦ report cs rs
  | some c ↦ counted id r c ∷ report cs rs
]

-- `Counters`
unfoldable pub counters_report : {M : Type 0} → ReleaseSet M → List ReleaseCounter
unfolding counted report
counters_report s = report s.counters s.releases
