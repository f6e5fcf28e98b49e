-- ===== src/Edge/ReleaseSet/Swap.antt =====
-- lib/edgecore/release_set.go: replacing the whole set, by a snapshot or by a signed generation. `persist`
-- writes the current and the new generation before the new one is activated.
use yu_feng.Base.{
  String, ℕ, Bool, true, false, not, ◌&&◌, ◌||◌, List, [], ◌∷◌, Option, none, some, any, str_eq,
  is_empty, if◌then◌else◌,
}
use yu_feng.Base.Assoc.{Assoc, lookup}
use yu_feng.Base.Result.{Result, ok, err, require, or_fail, ◌>>=◌, ◌>>◌}
use yu_feng.Kernel.Artifact.{Artifact, Bytes, Crypto, Kind}
use yu_feng.Kernel.Generation.{AssetGeneration, GenerationCodec, ReleaseItem}
use yu_feng.Edge.Generations.{GenerationStore, LoadError, empty_store, load}
use yu_feng.Edge.Text.{GoText}
use yu_feng.Edge.Policy.{PolicyCandidate, PolicyDependencies}
use yu_feng.Edge.Version.{edge_version_compatible}
use yu_feng.Edge.Gate.{ManagedRelease, Counter, new_counter}
use yu_feng.Edge.Member.{
  Payloads, ApplyError, payload_error, persist_failed, edge_version_required, edge_version_too_low,
  policy_dependencies_incomplete, manifest_mismatch, profile_mismatch, edge_version_mismatch,
  load_error,
}
use yu_feng.Edge.ReleaseSet.{ReleaseSet, new_release_set, apply}

abbrev carried_counter : Option Counter → Counter
carried_counter none = new_counter
carried_counter (some c) = c

-- The counters of the new set: a release that was there keeps its counter.
unfoldable pub carried : Assoc ManagedRelease → Assoc Counter → Assoc Counter
carried [] old = []
carried ((id, r) ∷ rs) old = (id, carried_counter (lookup id old)) ∷ carried rs old

abbrev active_or : Option AssetGeneration → Option AssetGeneration → Option AssetGeneration
active_or none old = old
active_or (some g) old = some g

-- `swapFrom`
unfoldable pub swap_from :
    {M : Type 0} → ReleaseSet M → Option AssetGeneration → ReleaseSet M → ReleaseSet M
swap_from next active s = record s {
  releases = next.releases;
  inspectors = next.inspectors;
  inspector_by_rel = next.inspector_by_rel;
  mapper = next.mapper;
  profile = next.profile;
  digest = next.digest;
  evidence_policy = next.evidence_policy;
  forward_policy = next.forward_policy;
  review_policy = next.review_policy;
  review_digest = next.review_digest;
  model_profile = next.model_profile;
  model_digest = next.model_digest;
  active_gen = active_or active s.active_gen;
  counters = carried next.releases s.counters;
}

-- The empty set that a replacement is built in.
abbrev pub next_of : {M : Type 0} → ReleaseSet M → ReleaseSet M
next_of s = record (new_release_set s.edge_version) { posture = s.posture }

-- The end of `ApplyGeneration`: persist what was built, and swap.
abbrev pub persisted :
    {M : Type 0}
    → (Option AssetGeneration → AssetGeneration → Bool)
    → AssetGeneration
    → GenerationStore
    → ReleaseSet M
    → Result ApplyError (ReleaseSet M)
    → ReleaseSet M × Option ApplyError
persisted persist gen store s (err e) = (s, some e)
persisted persist gen store s (ok next) =
    if persist s.active_gen gen
    then (swap_from next store.current s, none)
    else (s, some persist_failed)

abbrev pub store_of : {M : Type 0} → ReleaseSet M → GenerationStore
store_of s = record empty_store { current = s.active_gen }

-- The end of `ApplySnapshot`.
abbrev pub taken :
    {M : Type 0}
    → ReleaseSet M
    → Result ApplyError (ReleaseSet M)
    → ReleaseSet M × Option ApplyError
taken s (err e) = (s, some e)
taken s (ok next) = (swap_from next none s, none)

-- The dependencies of one policy, against what the generation brings.
abbrev pub dependencies_ok :
    List String → String → String → Option PolicyDependencies → Result ApplyError (Unit {0})
dependencies_ok manifests profile version none = err policy_dependencies_incomplete
dependencies_ok manifests profile version (some d) = do
  require
      (not (
        is_empty d.detector_manifest_digest
        || is_empty d.normalizer_profile_digest
        || is_empty d.min_edge_version))
      policy_dependencies_incomplete
  require (any (λ m. str_eq m d.detector_manifest_digest) manifests) manifest_mismatch
  require (not (is_empty profile) && str_eq d.normalizer_profile_digest profile) profile_mismatch
  require (str_eq d.min_edge_version version) edge_version_mismatch

-- One round of the loop; a release with no policy is passed over.
abbrev pub policy_ok :
    List String → String → String → Option PolicyCandidate → Result ApplyError (Unit {0})
policy_ok manifests profile version none = ok tt
policy_ok manifests profile version (some cand) =
    dependencies_ok manifests profile version cand.dependencies

-- The loop over the releases.
unfoldable pub policies_ok :
    List String → String → String → Assoc ManagedRelease → Result ApplyError (Unit {0})
policies_ok manifests profile version [] = ok tt
policies_ok manifests profile version ((id, r) ∷ rs) = do
  policy_ok manifests profile version r.policy
  policies_ok manifests profile version rs

abbrev with_digest : String → List String → List String
with_digest d digests = if is_empty d then digests else d ∷ digests

abbrev is_manifest : Kind → Bool
is_manifest Kind.detector_manifest = true
is_manifest _ = false

abbrev pub is_profile : Kind → Bool
is_profile Kind.normalizer_profile = true
is_profile _ = false

-- The artifacts of the members that have one.
abbrev pub artifacts_of : List (Option ReleaseItem) → List Artifact
artifacts_of [] = []
artifacts_of (none ∷ ms) = artifacts_of ms
artifacts_of (some m ∷ ms) = elim m.artifact [
  | none ↦ artifacts_of ms
  | some a ↦ a ∷ artifacts_of ms
]

module _ {M : Type 0} (g : GoText) (uuid_charset : String → Bool) (p : Payloads M) where
  -- The digests of the detector manifests among the members.
  unfoldable pub manifest_digests : List Artifact → Result ApplyError (List String)
  manifest_digests [] = ok []
  manifest_digests (a ∷ arts) =
      if is_manifest a.kind
      then (do
        man ← or_fail (p.manifest a.payload) payload_error
        rest ← manifest_digests arts
        ok (with_digest man.tarball_sha256 rest))
      else manifest_digests arts

  -- `validateGenerationDependencies`
  unfoldable pub validate_generation_dependencies :
      AssetGeneration → ReleaseSet M → Result ApplyError (Unit {0})
  unfolding manifest_digests
  validate_generation_dependencies gen next = do
    require (not (is_empty gen.min_edge_version)) edge_version_required
    require (edge_version_compatible g next.edge_version gen.min_edge_version) edge_version_too_low
    manifests ← manifest_digests (artifacts_of gen.members)
    let present = any (λ a. is_profile a.kind) (artifacts_of gen.members) in
        policies_ok manifests (if present then p.profile_digest next.profile else "")
          gen.min_edge_version next.releases

  module _ (c : Crypto) (pub_key : Bytes) where
    -- The loop over the items, where a nil item is passed over.
    unfoldable pub apply_all :
        ℕ → List (Option ReleaseItem) → ReleaseSet M → Result ApplyError (ReleaseSet M)
    apply_all now [] s = ok s
    apply_all now (none ∷ items) s = apply_all now items s
    apply_all now (some item ∷ items) s =
        apply g uuid_charset p c pub_key now (some item) s >>= λ s'. apply_all now items s'

    -- `ApplySnapshot`: the set, and the error where there is one.
    unfoldable pub apply_snapshot :
        ℕ → List (Option ReleaseItem) → ReleaseSet M → ReleaseSet M × Option ApplyError
    apply_snapshot now items s = taken s (apply_all now items (next_of s))

    -- What `ApplyGeneration` builds before it persists.
    unfoldable pub build_generation :
        ℕ → AssetGeneration → ReleaseSet M → Result ApplyError (ReleaseSet M)
    build_generation now gen s = do
      next ← apply_all now gen.members (next_of s)
      validate_generation_dependencies gen next
      ok next

    -- What follows once a store of its own has loaded the generation.
    abbrev pub activate :
        ℕ
        → (Option AssetGeneration → AssetGeneration → Bool)
        → AssetGeneration
        → ReleaseSet M
        → GenerationStore
        → Option LoadError
        → ReleaseSet M × Option ApplyError
    activate now persist gen s store (some e) = (s, some (load_error e))
    activate now persist gen s store none =
        persisted persist gen store s (build_generation now gen s)

    -- `ApplyGeneration`: the set, and the error where there is one.
    unfoldable pub apply_generation :
        GenerationCodec
        → ℕ
        → (Option AssetGeneration → AssetGeneration → Bool)
        → Option AssetGeneration
        → ReleaseSet M
        → ReleaseSet M × Option ApplyError
    apply_generation codec now persist none s = (s, some (load_error LoadError.incomplete))
    apply_generation codec now persist (some gen) s =
        let loaded = load c codec pub_key now (some gen) (store_of s) in
        activate now persist gen s loaded.0 loaded.1
