-- ===== src/Kernel/Generation/Laws.antt =====
-- What a signature made by lib/kernel/generation.go proves.
use yu_feng.Base.{ℕ, ◌≡◌, Option, none, some, inl, inr, arith, Option-cases}
use yu_feng.Base.Result.{ok}
use yu_feng.Kernel.Artifact.{Bytes, Crypto}
use yu_feng.Kernel.Artifact.Laws.{Ed25519Laws}
use yu_feng.Kernel.Generation.{
  AssetGeneration, GenerationCodec, generation_canonical, sign_generation, verify_generation,
}

abbrev unsigned : AssetGeneration → AssetGeneration
unsigned g = record g { envelope_signature = none }

module _ (c : Crypto) (laws : Ed25519Laws c) (codec : GenerationCodec) where
  -- Whatever `SignGeneration` signs, `VerifyGeneration` accepts under the public half of the key.
  pub verify_generation-sign_generation :
      (key : Bytes) (now : ℕ) (g : Option AssetGeneration) (signed : AssetGeneration)
      → sign_generation c codec key now g ≡ ok signed
      → verify_generation c codec (some signed) (c.public_of key) ≡ ok tt
  unfolding sign_generation verify_generation generation_canonical
  verify_generation-sign_generation key now none signed h = ground arith
  verify_generation-sign_generation key now (some g) signed h =
      elim (Option-cases (codec (unsigned g))) [
        | inl e ↦ ground arith
        | inr (m, e) ↦
            ground (arith, laws.public_size key, laws.signature_size key m, laws.verifies key m)
      ]
