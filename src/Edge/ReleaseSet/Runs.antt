-- ===== src/Edge/ReleaseSet/Runs.antt =====
-- Any sequence of the calls of lib/edgecore/release_set.go that change the set.
use yu_feng.Base.{
  ℕ, String, ◌≡◌, refl, ◌∙◌, sym, Bool, List, [], ◌∷◌, Option, none, some, arith, eq_iff,
}
use yu_feng.Base.Assoc.{Assoc, lookup, insert, lookup-insert}
use yu_feng.Base.Result.{Result, ok, err}
use yu_feng.Kernel.Artifact.{Bytes, Crypto}
use yu_feng.Kernel.Generation.{AssetGeneration, GenerationCodec, ReleaseItem}
use yu_feng.Edge.Types.{CanonicalView, Detection, Request}
use yu_feng.Edge.Text.{GoText}
use yu_feng.Edge.Status.{resolve_posture}
use yu_feng.Edge.Gate.{Bucket, Counter, ManagedRelease}
use yu_feng.Edge.Gate.Keys.{gate_with-SameKeys}
use yu_feng.Edge.Member.{ApplyError, Payloads}
use yu_feng.Edge.ReleaseSet.{ReleaseSet, apply, new_release_set}
use yu_feng.Edge.ReleaseSet.Swap.{apply_generation, apply_snapshot}
use yu_feng.Edge.ReleaseSet.Counters.{gate, live, record_latency, recorded, with_latency}
use yu_feng.Edge.ReleaseSet.Sound.{EntryOk, IsWellFormed, Tracked, apply-All, apply-Tracked}
use yu_feng.Edge.ReleaseSet.Replace.{apply_generation-IsWellFormed, apply_snapshot-IsWellFormed}

-- A call, with the time of it where the call reads the clock.
pub data Command : Type 0 where
  apply_item : ℕ → ReleaseItem → Command
  take_snapshot : ℕ → List (Option ReleaseItem) → Command
  take_generation :
      ℕ → (Option AssetGeneration → AssetGeneration → Bool) → AssetGeneration → Command
  check_request : ℕ → Request → List Detection → CanonicalView → Command
  latency : String → ℕ → Command

-- `Apply` leaves the set as it was where it returns an error.
abbrev pub or_same : {M : Type 0} → ReleaseSet M → Result ApplyError (ReleaseSet M) → ReleaseSet M
or_same s (ok t) = t
or_same s (err e) = s

latency-Tracked :
    (id : String) (micros : ℕ) (releases : Assoc ManagedRelease) (counters : Assoc Counter)
    (c : Counter)
    → lookup id counters ≡ some c
    → Tracked releases counters
    → Tracked releases (insert id (with_latency micros c) counters)
latency-Tracked id micros releases counters c e h k =
    let hk = h k in
    rw (lookup-insert id k (with_latency micros c) counters) (ground (arith, e, eq_iff id k))

module _ {M : Type 0} (g : GoText) (uuid_charset : String → Bool) (p : Payloads M) (c : Crypto)
    (pub_key : Bytes) (codec : GenerationCodec) (bucket : Bucket) where
  unfoldable pub command : Command → ReleaseSet M → ReleaseSet M
  command (apply_item now item) s = or_same s (apply g uuid_charset p c pub_key now (some item) s)
  command (take_snapshot now items) s = (apply_snapshot g uuid_charset p c pub_key now items s).0
  command (take_generation now persist gen) s =
      (apply_generation g uuid_charset p c pub_key codec now persist (some gen) s).0
  command (check_request now req found view) s = (gate g uuid_charset bucket now req found view s).1
  command (latency id micros) s = record_latency id micros s

  unfoldable pub run : List Command → ReleaseSet M → ReleaseSet M
  run [] s = s
  run (cmd ∷ cmds) s = run cmds (command cmd s)

  recorded_step :
      (id : String) (micros : ℕ) (s : ReleaseSet M) (o : Option Counter)
      → lookup id s.counters ≡ o
      → IsWellFormed s
      → IsWellFormed (recorded id micros s o)
  recorded_step id micros s none e h = h
  recorded_step id micros s (some d) e h = record {
    entries = h.entries;
    tracked = latency-Tracked id micros s.releases s.counters d e h.tracked;
  }

  applied :
      (now : ℕ) (item : ReleaseItem) (s : ReleaseSet M) (r : Result ApplyError (ReleaseSet M))
      → apply g uuid_charset p c pub_key now (some item) s ≡ r
      → IsWellFormed s
      → IsWellFormed (or_same s r)
  applied now item s (err e) eq h = h
  applied now item s (ok t) eq h = record {
    entries =
        apply-All g uuid_charset p c pub_key EntryOk now item s t (λ a parts f. (refl, f.in_range))
          h.entries eq;
    tracked = apply-Tracked g uuid_charset p c pub_key now item s t h.tracked eq;
  }

  command-IsWellFormed :
      (cmd : Command) (s : ReleaseSet M) → IsWellFormed s → IsWellFormed (command cmd s)
  unfolding command gate record_latency
  command-IsWellFormed (apply_item now item) s h =
      applied now item s (apply g uuid_charset p c pub_key now (some item) s) refl h
  command-IsWellFormed (take_snapshot now items) s h =
      apply_snapshot-IsWellFormed g uuid_charset p c pub_key now items s h
  command-IsWellFormed (take_generation now persist gen) s h =
      apply_generation-IsWellFormed g uuid_charset p c pub_key codec now persist gen s h
  command-IsWellFormed (check_request now req found view) s h = record {
    entries = h.entries;
    tracked = λ id.
        h.tracked id
        ∙ sym (
            gate_with-SameKeys g uuid_charset bucket (live now s.releases)
              (resolve_posture s.posture) req _ view s.counters id);
  }
  command-IsWellFormed (latency id micros) s h =
      recorded_step id micros s (lookup id s.counters) refl h

  run_from : (cmds : List Command) (s : ReleaseSet M) → IsWellFormed s → IsWellFormed (run cmds s)
  unfolding run
  run_from [] s h = h
  run_from (cmd ∷ cmds) s h = run_from cmds (command cmd s) (command-IsWellFormed cmd s h)

  -- Whatever items, snapshots and generations are applied to an empty set, and whatever requests are
  -- checked and latencies recorded between them, each release is filed under its own id, no canary has
  -- a percentage out of range, and a release is there exactly if its counter is.
  pub run-IsWellFormed :
      (version : String) (cmds : List Command) → IsWellFormed (run cmds (new_release_set version))
  unfolding lookup
  run-IsWellFormed version cmds =
      run_from cmds (new_release_set version) (record { entries = tt; tracked = λ id. refl })
