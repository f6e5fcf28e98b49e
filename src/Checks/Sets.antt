-- ===== src/Checks/Sets.antt =====
-- Tests of the generations and of the set of releases.
use yu_feng.Base.{ℕ, Bool, true, false, [], ◌∷◌, Option, none, some, ◌≡◌, refl, ◌↔◌, All}
use yu_feng.Base.Assoc.{insert, lookup}
use yu_feng.Kernel.Artifact.{Artifact, Bytes, verify_artifact}
use yu_feng.Kernel.Generation.{
  AssetGeneration, GenerationCodec, ReleaseItem, generation_canonical, verify_generation,
}
use yu_feng.Edge.Types.{ReleaseMode}
use yu_feng.Edge.Generations.{LoadError, admit, empty_store, generation_error, load, replace}
use yu_feng.Edge.Generations.Laws.{Follows, admit_iff}
use yu_feng.Edge.Generations.Chain.{Chained, IsChained, loads, loads-IsChained}
use yu_feng.Edge.Rule.{new_rule_detector, compile_rules, compile_rule, id_in, known_target}
use yu_feng.Edge.Member.{Payloads, load_error, rule_parts}
use yu_feng.Edge.ReleaseSet.{
  ReleaseSet, apply, apply_kind, apply_member, expiry, install_release, new_release_set,
}
use yu_feng.Edge.ReleaseSet.Swap.{
  apply_all, apply_generation, build_generation, policies_ok, validate_generation_dependencies,
}
use yu_feng.Edge.ReleaseSet.Atomic.{Backed, apply_generation-Backed, apply_generation_atomic}
use yu_feng.Edge.ReleaseSet.Sound.{IsWellFormed}
use yu_feng.Edge.ReleaseSet.Runs.{latency, run, run-IsWellFormed, take_generation}
use yu_feng.Edge.Version.{edge_version_compatible, trimmed_compatible}
use yu_feng.Checks.Data.{
  bare_artifact, fill, test_bucket, test_crypto, test_release, test_text, test_uuid,
}

abbrev test_public : Bytes
test_public = fill 32

abbrev test_codec : GenerationCodec
test_codec g = some (2 ∷ [])

abbrev member_artifact : Artifact
member_artifact = record bare_artifact {
  id = "sha256:h";
  signature = some (record { key_id = "k"; sig = fill 64; signed_at = 9 });
}

abbrev test_item : ReleaseItem
test_item = record {
  release_id = "r1";
  artifact = some member_artifact;
  asset_id = "asset";
  mode = ReleaseMode.canary;
  canary_percent = 5;
  retired = false;
}

abbrev test_generation : AssetGeneration
test_generation = record {
  generation_id = "g1";
  asset_id = "asset";
  generation_seq = 1;
  parent_generation_id = "";
  members = some test_item ∷ [];
  min_edge_version = "dev";
  not_before = none;
  envelope_signature = some (record { key_id = "k"; sig = fill 64; signed_at = 9 });
  rollback_of = 0;
}

abbrev test_payloads : Payloads ℕ
test_payloads = record {
  rules = λ b. some (record { id = "1"; pattern = "x"; target = "query" } ∷ []);
  policy = λ b. none;
  shape_source = λ b. none;
  manifest = λ b. none;
  message = λ k b. some 0;
  review_policy = λ b. none;
  compile_inspector = λ m. none;
  normalize_model_profile = λ m. some m;
  profile_digest = λ m. "d";
}

abbrev empty_set : ReleaseSet ℕ
empty_set = new_release_set "dev"

abbrev persists : Option AssetGeneration → AssetGeneration → Bool
persists old new = true

applies :
    (apply_generation test_text test_uuid test_payloads test_crypto test_public test_codec 10
      persists
      (some test_generation)
      empty_set).1
    ≡ none
unfolding apply_generation load generation_error verify_artifact verify_generation
    generation_canonical admit build_generation apply_all apply apply_member apply_kind rule_parts
    new_rule_detector compile_rules compile_rule id_in known_target install_release expiry
    validate_generation_dependencies policies_ok edge_version_compatible trimmed_compatible insert
    lookup
applies = refl

apply_generation-Backed_example :
    All
      (Backed test_text test_uuid test_payloads test_crypto test_public 10 test_generation.members)
      (apply_generation test_text test_uuid test_payloads test_crypto test_public test_codec 10
        persists
        (some test_generation)
        empty_set).0.releases
apply_generation-Backed_example =
    apply_generation-Backed test_text test_uuid test_payloads test_crypto test_public test_codec 10
      persists test_generation empty_set applies

abbrev nameless : AssetGeneration
nameless = record test_generation { asset_id = "" }

refuses_nameless :
    (apply_generation test_text test_uuid test_payloads test_crypto test_public test_codec 10
      persists
      (some nameless)
      empty_set).1
    ≡ some (load_error LoadError.incomplete)
unfolding apply_generation load generation_error
refuses_nameless = refl

apply_generation_atomic_example :
    (apply_generation test_text test_uuid test_payloads test_crypto test_public test_codec 10
      persists
      (some nameless)
      empty_set).0
    ≡ empty_set
apply_generation_atomic_example =
    apply_generation_atomic test_text test_uuid test_payloads test_crypto test_public test_codec 10
      persists (some nameless) empty_set (load_error LoadError.incomplete) refuses_nameless

run-IsWellFormed_example : IsWellFormed (
    run test_text test_uuid test_payloads test_crypto test_public test_codec test_bucket
      (take_generation 10 persists test_generation ∷ latency "r1" 250 ∷ [])
      (new_release_set "dev"))
run-IsWellFormed_example =
    run-IsWellFormed test_text test_uuid test_payloads test_crypto test_public test_codec
      test_bucket "dev" (take_generation 10 persists test_generation ∷ latency "r1" 250 ∷ [])

abbrev one_release : ReleaseSet ℕ
one_release = record empty_set { releases = ("r1", test_release) ∷ [] }

abbrev next_generation : AssetGeneration
next_generation = record test_generation {
  generation_id = "g2";
  generation_seq = 2;
  parent_generation_id = "g1";
}

admit_iff_example :
    (admit (some test_generation) next_generation ≡ replace)
    ↔ Follows test_generation next_generation
admit_iff_example = admit_iff test_generation next_generation

empty_IsChained : IsChained test_crypto test_codec test_public empty_store
unfolding IsChained Chained
empty_IsChained = tt

loads-IsChained_example : IsChained test_crypto test_codec test_public (
    loads test_crypto test_codec test_public
      ((10, some test_generation) ∷ (20, some next_generation) ∷ [])
      empty_store)
loads-IsChained_example =
    loads-IsChained test_crypto test_codec test_public
      ((10, some test_generation) ∷ (20, some next_generation) ∷ []) empty_store empty_IsChained

load_refuses :
    (load test_crypto test_codec test_public 10 (some nameless) empty_store).1
    ≡ some LoadError.incomplete
unfolding load generation_error
load_refuses = refl
