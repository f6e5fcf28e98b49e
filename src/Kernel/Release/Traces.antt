-- ===== src/Kernel/Release/Traces.antt =====
-- The two gates of lib/kernel/release.go, and what its functions do where they are used in ways that its
-- comments rule out.
use yu_feng.Base.{ℕ, ◌≡◌, refl, true, false, Option, none, some, ◌⊎◌, arith, length}
use yu_feng.Base.Result.{ok, err}
use yu_feng.Kernel.Artifact.{
  Artifact, Bytes, Crypto, ReplayReport, Signer, sign_artifact, sign_artifact_with_signer, key_id,
  unknown_retire_reason, draft_has_report,
}
use yu_feng.Kernel.Release.{
  Release, Draft, RetireReason, gate, gate_with_signer, retire_active, artifact, release_id,
  gate_passed, prepared, is_retire_reason,
}

module _ (c : Crypto) (key : Bytes) where
  -- The in-process signer of a key.
  abbrev pub key_signer : Signer
  key_signer = record {
    signer_key_id = key_id c (c.public_of key);
    sign = λ message. some (c.ed25519_sign key message);
    sign_typed = none;
  }

  sign-with_signer :
      (now : ℕ) (a : Artifact)
      → length key ≡ 64
      → sign_artifact_with_signer c (some key_signer) now (some a)
        ≡ sign_artifact c key now (some a)
  unfolding sign_artifact sign_artifact_with_signer
  sign-with_signer now a h = ground arith

  -- The two gates are one: with an untyped signer that holds a key of the right size,
  -- `GateWithSigner` returns what `Gate` returns with that key.
  pub gate_with_signer-eq-gate :
      (now : ℕ) (d : Draft) (report : Option ReplayReport)
      → length key ≡ 64
      → gate_with_signer c (some key_signer) now d report ≡ gate c key now d report
  unfolding gate gate_with_signer
  gate_with_signer-eq-gate now d none h = refl
  gate_with_signer-eq-gate now d (some report) h =
      rw (sign-with_signer now (prepared now d report) h)

  -- A draft that failed the gate keeps the report in its envelope, so a second failure returns an
  -- error and no draft.
  pub gate_fails_twice :
      (now later : ℕ) (d d' : Draft) (report again : ReplayReport)
      → (gate c key now d (some report)).0.draft ≡ some d'
      → gate_passed again ≡ false
      → gate c key later d' (some again) ≡ (
        record { passed = false; draft = none; signed = none; report = some again },
        some draft_has_report,
      )
  unfolding gate gate_passed
  gate_fails_twice now later d d' report again h f = ground arith

-- `RetireActive` looks at the reason alone: a release in any state, a draft or a retired one too, is
-- retired with its id and envelope for an accepted reason, and refused for any other.
pub retire_active_any_state :
    (r : Release) (reason : RetireReason)
    → ((is_retire_reason reason ≡ true)
        × (retire_active r reason
            ≡ ok (record { id = release_id r; envelope = artifact r; reason = reason })))
      ⊎ ((is_retire_reason reason ≡ false) × (retire_active r reason ≡ err unknown_retire_reason))
unfolding retire_active
retire_active_any_state r reason = ground arith
