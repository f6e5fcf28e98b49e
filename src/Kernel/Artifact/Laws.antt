-- ===== src/Kernel/Artifact/Laws.antt =====
-- What a signature made by lib/kernel/artifact.go proves.
use Prim.Native.String.{◌++◌ as text_append}
use yu_feng.Base.{ℕ, ◌≡◌, true, Option, none, some, inl, inr, arith, length, eq_iff, Option-cases}
use yu_feng.Base.Result.{ok}
use yu_feng.Kernel.Artifact.{
  Artifact, Bytes, Crypto, Signer, sign_artifact, sign_artifact_with_signer, verify_artifact,
}

-- RFC 8032: key sizes, and a signature verifies under its public key and is not empty.
pub record Ed25519Laws (c : Crypto) : Type 0 where
  pub public_size : (key : Bytes) → length (c.public_of key) ≡ 32
  pub signature_size : (key message : Bytes) → length (c.ed25519_sign key message) ≡ 64
  pub verifies :
      (key message : Bytes)
      → c.ed25519_verify (c.public_of key) message (c.ed25519_sign key message) ≡ true

abbrev pub unaddressed : Artifact → Artifact
unaddressed a = record a { id = ""; signature = none }

-- A signer that holds the key, whatever else it refuses: `Sign` signs the message that it is sent, and
-- `SignTyped` the canonical bytes of the envelope that it is sent.
pub record IsSignerOf (c : Crypto) (key : Bytes) (signer : Signer) : Type 0 where
  pub signs :
      (message sig : Bytes) → signer.sign message ≡ some sig → sig ≡ c.ed25519_sign key message
  pub signs_typed :
      (typed : Bytes → Option Bytes) (a : Artifact) (envelope canonical sig : Bytes)
      → signer.sign_typed ≡ some typed
      → c.marshal a ≡ some envelope
      → c.marshal (unaddressed a) ≡ some canonical
      → typed envelope ≡ some sig
      → sig ≡ c.ed25519_sign key canonical

module _ (c : Crypto) (laws : Ed25519Laws c) where
  -- Whatever `SignArtifact` signs, `VerifyArtifact` accepts under the public half of the key.
  pub verify-sign :
      (key : Bytes) (now : ℕ) (a : Option Artifact) (b : Artifact)
      → sign_artifact c key now a ≡ ok b
      → verify_artifact c (some b) (c.public_of key) ≡ ok tt
  unfolding sign_artifact verify_artifact
  verify-sign key now none b h = ground arith
  verify-sign key now (some a) b h = elim (Option-cases (c.marshal (unaddressed a))) [
    | inl e ↦ ground arith
    | inr (m, e) ↦ ground (
      arith,
      laws.public_size key,
      laws.signature_size key m,
      laws.verifies key m,
      eq_iff b.id b.id,
    )
  ]

  -- Whatever `SignArtifactWithSigner` signs by a signer that holds the key, `VerifyArtifact` accepts
  -- under the public half of the key.
  pub verify-sign_with_signer :
      (key : Bytes) (signer : Signer) (now : ℕ) (a b : Artifact)
      → IsSignerOf c key signer
      → sign_artifact_with_signer c (some signer) now (some a) ≡ ok b
      → verify_artifact c (some b) (c.public_of key) ≡ ok tt
  unfolding sign_artifact_with_signer verify_artifact
  verify-sign_with_signer key signer now a b holds h =
      elim (Option-cases (c.marshal (unaddressed a))) [
        | inl e ↦ ground arith
        | inr (m, e) ↦ elim (Option-cases signer.sign_typed) [
          | inl untyped ↦ elim (Option-cases (signer.sign m)) [
            | inl bad ↦ ground (arith, untyped, bad)
            | inr (sig, signed) ↦ ground (
              arith,
              untyped,
              holds.signs m sig signed,
              laws.public_size key,
              laws.signature_size key m,
              laws.verifies key m,
              eq_iff b.id b.id,
            )
          ]
          | inr (typed, is_typed) ↦
              let named = record a { id = text_append "sha256:" (c.sha256_hex m) } in
              elim (Option-cases (c.marshal named)) [
                | inl bad ↦ ground (arith, is_typed, bad)
                | inr (envelope, sent) ↦ elim (Option-cases (typed envelope)) [
                  | inl bad ↦ ground (arith, is_typed, sent, bad)
                  | inr (sig, signed) ↦ ground (
                    arith,
                    is_typed,
                    sent,
                    holds.signs_typed typed named envelope m sig is_typed sent e signed,
                    laws.public_size key,
                    laws.signature_size key m,
                    laws.verifies key m,
                    eq_iff b.id b.id,
                  )
                ]
              ]
        ]
      ]
