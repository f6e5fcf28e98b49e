-- ===== src/Checks/Dependencies.antt =====
-- A test of a generation with a policy, the detector manifest and the profile that it names.
use yu_feng.Base.{ℕ, String, Bool, true, false, List, [], ◌∷◌, Option, none, some, ◌≡◌, refl, All}
use yu_feng.Base.Result.{ok}
use yu_feng.Base.Assoc.{insert, lookup}
use yu_feng.Kernel.Artifact.{Bytes, Kind, verify_artifact}
use yu_feng.Kernel.Generation.{
  AssetGeneration, GenerationCodec, ReleaseItem, generation_canonical, verify_generation,
}
use yu_feng.Edge.Types.{ReleaseMode}
use yu_feng.Edge.Generations.{admit, generation_error, load}
use yu_feng.Edge.Member.{Payloads, policy_parts}
use yu_feng.Edge.ReleaseSet.{
  ReleaseSet, apply, apply_kind, apply_member, expiry, install_manifest, install_release,
  keep_message, new_release_set,
}
use yu_feng.Edge.ReleaseSet.Swap.{
  apply_all, apply_generation, artifacts_of, build_generation, manifest_digests, policies_ok,
  validate_generation_dependencies,
}
use yu_feng.Edge.ReleaseSet.Dependencies.{MetBy, apply_generation-MetBy, profile_of}
use yu_feng.Edge.Version.{edge_version_compatible, trimmed_compatible}
use yu_feng.Checks.Data.{bare_artifact, fill, test_crypto, test_policy, test_text, test_uuid}

abbrev public_key : Bytes
public_key = fill 32

abbrev codec : GenerationCodec
codec g = some (2 ∷ [])

abbrev item_of : String → Kind → String → Option ReleaseItem
item_of id kind schema = some (record {
  release_id = id;
  artifact = some (record bare_artifact {
    id = "sha256:h";
    kind = kind;
    payload_schema = schema;
    signature = some (record { key_id = "k"; sig = fill 64; signed_at = 9 });
  });
  asset_id = "asset";
  mode = ReleaseMode.enforce;
  canary_percent = 0;
  retired = false;
})

abbrev three_members : AssetGeneration
three_members = record {
  generation_id = "g1";
  asset_id = "asset";
  generation_seq = 1;
  parent_generation_id = "";
  members =
      item_of "r1" Kind.policy "policy/v1"
      ∷ item_of "r2" Kind.detector_manifest "detector-manifest/v1"
      ∷ item_of "r3" Kind.normalizer_profile ""
      ∷ [];
  min_edge_version = "dev";
  not_before = none;
  envelope_signature = some (record { key_id = "k"; sig = fill 64; signed_at = 9 });
  rollback_of = 0;
}

abbrev payloads : Payloads ℕ
payloads = record {
  rules = λ b. none;
  policy = λ b. some (record test_policy {
    dependencies = some (record {
      detector_manifest_digest = "tar";
      normalizer_profile_digest = "profile";
      min_edge_version = "dev";
    });
  });
  shape_source = λ b. none;
  manifest = λ b. some (record { detector_id = "crs"; version = "4"; tarball_sha256 = "tar" });
  message = λ k b. some 0;
  review_policy = λ b. none;
  compile_inspector = λ m. some (record { id = m.detector_id });
  normalize_model_profile = λ m. some m;
  profile_digest = λ m. "profile";
}

abbrev before_apply : ReleaseSet ℕ
before_apply = new_release_set "dev"

abbrev persists : Option AssetGeneration → AssetGeneration → Bool
persists old new = true

three_apply :
    (apply_generation test_text test_uuid payloads test_crypto public_key codec 10 persists
      (some three_members)
      before_apply).1
    ≡ none
unfolding apply_generation load generation_error verify_artifact verify_generation
    generation_canonical admit build_generation apply_all apply apply_member apply_kind policy_parts
    install_manifest keep_message install_release expiry validate_generation_dependencies
    manifest_digests policies_ok edge_version_compatible trimmed_compatible insert lookup
three_apply = refl

apply_generation-MetBy_example :
    (manifests : List String) × (manifest_digests test_text test_uuid payloads
        (artifacts_of three_members.members)
      ≡ ok manifests)
    × All
        (λ e.
          MetBy manifests
            (profile_of test_text test_uuid payloads test_crypto public_key three_members
              (apply_generation test_text test_uuid payloads test_crypto public_key codec 10
                persists
                (some three_members)
                before_apply).0)
            "dev"
            e.1.policy)
        (apply_generation test_text test_uuid payloads test_crypto public_key codec 10 persists
          (some three_members)
          before_apply).0.releases
apply_generation-MetBy_example =
    apply_generation-MetBy test_text test_uuid payloads test_crypto public_key codec 10 persists
      three_members before_apply three_apply
