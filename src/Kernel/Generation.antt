-- ===== src/Kernel/Generation.antt =====
-- lib/kernel/generation.go: the signature of an asset generation, and the messages of
-- proto/yufeng/artifact/v1/service.proto that it covers. `GenerationCodec` is the protocol-buffer
-- marshalling of a generation.
pub mod Laws
use yu_feng.Base.{ℕ, String, Bool, not, List, Option, none, some, ◌==◌, ltb, length}
use yu_feng.Base.Result.{Result, ok, err, require, ◌>>=◌, ◌>>◌}
use yu_feng.Kernel.Artifact.{
  Artifact, Bytes, Crypto, KernelError, Signature, Signer, signature_bytes, key_id, marshal_failed,
  signer_failed, bad_private_key, bad_public_key, already_signed, signer_nil, generation_nil,
  generation_unsigned, bad_signature,
}
use yu_feng.Edge.Types.{ReleaseMode}

pub record ReleaseItem : Type 0 where
  pub release_id : String
  pub artifact : Option Artifact
  pub asset_id : String
  pub mode : ReleaseMode
  pub canary_percent : ℕ
  pub retired : Bool

pub record AssetGeneration : Type 0 where
  pub generation_id : String
  pub asset_id : String
  pub generation_seq : ℕ
  pub parent_generation_id : String
  pub members : List (Option ReleaseItem)
  pub min_edge_version : String
  pub not_before : Option ℕ
  pub envelope_signature : Option Signature
  pub rollback_of : ℕ

abbrev pub GenerationCodec : Type 0
GenerationCodec = AssetGeneration → Option Bytes

abbrev marshalled : Option Bytes → Result KernelError Bytes
marshalled none = err marshal_failed
marshalled (some b) = ok b

abbrev signer_reply : Option Bytes → Result KernelError Bytes
signer_reply none = err signer_failed
signer_reply (some b) = ok b

abbrev pub has_signature : AssetGeneration → Bool
has_signature g = ltb 0 (length (signature_bytes g.envelope_signature))

module _ (c : Crypto) (codec : GenerationCodec) where
  unfoldable pub generation_canonical : AssetGeneration → Result KernelError Bytes
  generation_canonical g = marshalled (codec (record g { envelope_signature = none }))

  unfoldable pub sign_generation :
      Bytes → ℕ → Option AssetGeneration → Result KernelError AssetGeneration
  unfolding generation_canonical
  sign_generation key now none = err generation_nil
  sign_generation key now (some g) = do
    require (length key == 64) bad_private_key
    require (not (has_signature g)) already_signed
    canonical ← generation_canonical g
    ok (record g {
      envelope_signature = some (record {
        key_id = key_id c (c.public_of key);
        sig = c.ed25519_sign key canonical;
        signed_at = now;
      });
    })

  generation_bytes : Signer → AssetGeneration → Bytes → Result KernelError Bytes
  generation_bytes s g canonical = elim s.sign_typed [
    | none ↦ signer_reply (s.sign canonical)
    | some typed ↦ (do envelope ← marshalled (codec g); signer_reply (typed envelope))
  ]

  unfoldable pub sign_generation_with_signer :
      Option Signer → ℕ → Option AssetGeneration → Result KernelError AssetGeneration
  unfolding generation_canonical generation_bytes
  sign_generation_with_signer none now g = err signer_nil
  sign_generation_with_signer (some s) now none = err generation_nil
  sign_generation_with_signer (some s) now (some g) = do
    require (not (has_signature g)) already_signed
    canonical ← generation_canonical g
    sig ← generation_bytes s g canonical
    ok (record g {
      envelope_signature = some (record { key_id = s.signer_key_id; sig = sig; signed_at = now });
    })

  unfoldable pub verify_generation : Option AssetGeneration → Bytes → Result KernelError (Unit {0})
  unfolding generation_canonical
  verify_generation none pub_key = err generation_nil
  verify_generation (some g) pub_key = do
    require (has_signature g) generation_unsigned
    require (length pub_key == 32) bad_public_key
    canonical ← generation_canonical g
    require (c.ed25519_verify pub_key canonical (signature_bytes g.envelope_signature))
        bad_signature
