-- ===== src/Checks/Envelopes.antt =====
-- Tests of signatures, releases and generations.
use yu_feng.Base.{[], ◌∷◌, none, some, ◌≡◌, refl}
use yu_feng.Base.Result.{Result, ok, err}
use yu_feng.Kernel.Artifact.{
  Artifact, KernelError, ReplayReport, Signer, sign_artifact, sign_artifact_with_signer,
  verify_artifact,
}
use yu_feng.Kernel.Generation.{
  AssetGeneration, GenerationCodec, generation_canonical, sign_generation, verify_generation,
}
use yu_feng.Kernel.Generation.Laws.{verify_generation-sign_generation}
use yu_feng.Kernel.Artifact.Laws.{IsSignerOf, verify-sign}
use yu_feng.Kernel.Release.{
  Draft, Signed, gate, gate_with_signer, gate_passed, of_draft, of_signed, of_shadow, prepared,
  start_shadow, state, release_id,
}
use yu_feng.Kernel.Release.Steps.{Reach, here, next, observe, pass_signer}
use yu_feng.Kernel.Release.Laws.{IsSound, Reach-IsSound}
use yu_feng.Kernel.Release.Traces.{key_signer}
use yu_feng.Checks.Data.{bare_artifact, test_crypto, test_key, test_laws, test_report}

abbrev sealed : Result KernelError Artifact → Artifact
sealed (ok a) = a
sealed (err e) = bare_artifact

abbrev signed_artifact : Artifact
signed_artifact = sealed (sign_artifact test_crypto test_key 9 (some bare_artifact))

signs : sign_artifact test_crypto test_key 9 (some bare_artifact) ≡ ok signed_artifact
unfolding sign_artifact
signs = refl

verify-sign_example :
    verify_artifact test_crypto (some signed_artifact) (test_crypto.public_of test_key) ≡ ok tt
verify-sign_example =
    verify-sign test_crypto test_laws test_key 9 (some bare_artifact) signed_artifact signs

abbrev test_draft : Draft
test_draft = record { id = "r1"; envelope = bare_artifact; created_by = "brain" }

abbrev test_signed : Signed
test_signed = record {
  id = "r1";
  envelope =
      sealed (sign_artifact test_crypto test_key 9 (some (prepared 9 test_draft test_report)));
}

passes : (gate test_crypto test_key 9 test_draft (some test_report)).0.signed ≡ some test_signed
unfolding gate gate_passed sign_artifact
passes = refl

abbrev test_signer : Signer
test_signer = key_signer test_crypto test_key

test_signer-IsSignerOf : IsSignerOf test_crypto test_key test_signer
test_signer-IsSignerOf = record {
  signs = λ message sig h. cc;
  signs_typed = λ typed a envelope canonical sig h e f g. cc;
}

signer_passes :
    (gate_with_signer test_crypto (some test_signer) 9 test_draft (some test_report)).0.signed
    ≡ some test_signed
unfolding gate_with_signer gate_passed sign_artifact_with_signer sign_artifact
signer_passes = refl

abbrev observed_reach :
    Reach test_crypto test_key test_signer
      (of_draft test_draft)
      (state (of_shadow (start_shadow test_signed))
        ∷ state (of_signed test_signed)
        ∷ state (of_draft test_draft)
        ∷ [])
      (of_shadow (start_shadow test_signed))
observed_reach =
    next
      (next (here refl) (pass_signer 9 test_draft (some test_report) test_signed signer_passes)
        refl)
      (observe test_signed) refl

Reach-IsSound_example :
    IsSound test_crypto test_key
      (state (of_shadow (start_shadow test_signed))
        ∷ state (of_signed test_signed)
        ∷ state (of_draft test_draft)
        ∷ [])
      (of_shadow (start_shadow test_signed))
    × (release_id (of_shadow (start_shadow test_signed)) ≡ "r1")
Reach-IsSound_example =
    Reach-IsSound test_crypto test_key test_laws test_signer test_signer-IsSignerOf test_draft
      observed_reach

abbrev missed : ReplayReport
missed = record test_report { malicious_blocked = 1 }

abbrev failed_draft : Draft
failed_draft = record test_draft { envelope = record bare_artifact { replay_report = some missed } }

fails : (gate test_crypto test_key 9 test_draft (some missed)).0.draft ≡ some failed_draft
unfolding gate gate_passed
fails = refl

abbrev test_codec : GenerationCodec
test_codec g = some (2 ∷ [])

abbrev bare_generation : AssetGeneration
bare_generation = record {
  generation_id = "g1";
  asset_id = "asset";
  generation_seq = 1;
  parent_generation_id = "";
  members = [];
  min_edge_version = "dev";
  not_before = none;
  envelope_signature = none;
  rollback_of = 0;
}

abbrev sealed_generation : Result KernelError AssetGeneration → AssetGeneration
sealed_generation (ok g) = g
sealed_generation (err e) = bare_generation

abbrev signed_generation : AssetGeneration
signed_generation =
    sealed_generation (sign_generation test_crypto test_codec test_key 9 (some bare_generation))

generation_signs :
    sign_generation test_crypto test_codec test_key 9 (some bare_generation) ≡ ok signed_generation
unfolding sign_generation generation_canonical
generation_signs = refl

verify_generation-sign_generation_example :
    verify_generation test_crypto test_codec
      (some signed_generation)
      (test_crypto.public_of test_key)
    ≡ ok tt
verify_generation-sign_generation_example =
    verify_generation-sign_generation test_crypto test_laws test_codec test_key 9
      (some bare_generation) signed_generation generation_signs
