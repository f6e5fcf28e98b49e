-- ===== src/Kernel/Artifact.antt =====
-- lib/kernel/artifact.go: the identity and the signature of an artifact. Protocol-buffer marshalling,
-- SHA-256 and Ed25519 are the fields of a `Crypto`, which every function here takes.
pub mod Laws
use Prim.Native.String.{◌++◌ as text_append}
use yu_feng.Base.{
  ℕ, String, Bool, true, ◌||◌, not, Option, none, some, List, [], ◌==◌, ltb, length, str_eq,
  is_empty,
}
use yu_feng.Base.Result.{Result, ok, err, require, ◌>>=◌, ◌>>◌}

abbrev pub Bytes : Type 0
Bytes = List ℕ

pub data Kind : Type 0 where
  unspecified rule profile procedure skill tool_descriptor bpf_object seccomp_profile : Kind
  nftables_rules policy shape detector_manifest normalizer_profile taxonomy_mapper : Kind
  listen_plan evidence_policy evidence_digest forward_policy traffic_review_policy : Kind
  model_profile : Kind

pub record Scope : Type 0 where
  pub asset_ids : List String
  pub route_selector : String

pub record Signature : Type 0 where
  pub key_id : String
  pub sig : Bytes
  pub signed_at : ℕ

pub record ReplayReport : Type 0 where
  pub malicious_total : ℕ
  pub malicious_blocked : ℕ
  pub benign_total : ℕ
  pub benign_blocked : ℕ
  pub management_total : ℕ
  pub management_blocked : ℕ
  pub passed : Bool
  pub corpus_ref : String

pub record Artifact : Type 0 where
  pub id : String
  pub kind : Kind
  pub payload : Bytes
  pub payload_schema : String
  pub scope : Option Scope
  pub ttl : Option ℕ
  pub supersedes : String
  pub evidence_refs : List String
  pub replay_report : Option ReplayReport
  pub created_by : String
  pub created_at : Option ℕ
  pub signature : Option Signature

pub data KernelError : Type 0 where
  artifact_nil marshal_failed id_mismatch missing_signature bad_public_key bad_private_key :
      KernelError
  bad_signature already_signed signer_nil signer_failed : KernelError
  release_id_empty draft_signed draft_has_id draft_has_report report_nil : KernelError
  percent_out_of_range unknown_retire_reason not_active : KernelError
  generation_nil generation_unsigned listen_plan_nil key_id_mismatch : KernelError

-- google.golang.org/protobuf, crypto/sha256 and crypto/ed25519.
pub record Crypto : Type 0 where
  pub marshal : Artifact → Option Bytes
  pub sha256_hex : Bytes → String
  pub ed25519_sign : Bytes → Bytes → Bytes
  pub ed25519_verify : Bytes → Bytes → Bytes → Bool
  pub public_of : Bytes → Bytes

-- The `Signer` interface; `sign_typed` is there if the signer is a `typedSigner`.
pub record Signer : Type 0 where
  pub signer_key_id : String
  pub sign : Bytes → Option Bytes
  pub sign_typed : Option (Bytes → Option Bytes)

abbrev pub signature_bytes : Option Signature → Bytes
signature_bytes none = []
signature_bytes (some s) = s.sig

-- `a.Signature != nil && len(a.Signature.Sig) > 0`
abbrev pub is_signed : Artifact → Bool
is_signed a = ltb 0 (length (signature_bytes a.signature))

abbrev marshalled : Option Bytes → Result KernelError Bytes
marshalled none = err marshal_failed
marshalled (some b) = ok b

abbrev signer_reply : Option Bytes → Result KernelError Bytes
signer_reply none = err signer_failed
signer_reply (some b) = ok b

module _ (c : Crypto) where
  unfoldable pub canonical_bytes : Artifact → Result KernelError Bytes
  canonical_bytes a = marshalled (c.marshal (record a { id = ""; signature = none }))

  unfoldable pub artifact_id : Option Artifact → Result KernelError String
  unfolding canonical_bytes
  artifact_id none = err artifact_nil
  artifact_id (some a) = do
    canonical ← canonical_bytes a
    ok (text_append "sha256:" (c.sha256_hex canonical))

  unfoldable pub verify_artifact : Option Artifact → Bytes → Result KernelError (Unit {0})
  unfolding artifact_id canonical_bytes
  verify_artifact none pub_key = err artifact_nil
  verify_artifact (some a) pub_key = do
    want ← artifact_id (some a)
    require (str_eq a.id want) id_mismatch
    require (is_signed a) missing_signature
    require (length pub_key == 32) bad_public_key
    canonical ← canonical_bytes a
    require (c.ed25519_verify pub_key canonical (signature_bytes a.signature)) bad_signature

  unfoldable pub key_id : Bytes → String
  key_id pub_key = c.sha256_hex pub_key

  -- The id of the envelope, filled in or checked.
  addressed : Artifact → Result KernelError Artifact
  unfolding artifact_id
  addressed a = do
    require (not (is_signed a)) already_signed
    want ← artifact_id (some a)
    require (is_empty a.id || str_eq a.id want) id_mismatch
    ok (record a { id = want })

  unfoldable pub sign_artifact : Bytes → ℕ → Option Artifact → Result KernelError Artifact
  unfolding addressed canonical_bytes key_id
  sign_artifact key now none = do require (length key == 64) bad_private_key; err artifact_nil
  sign_artifact key now (some a) = do
    require (length key == 64) bad_private_key
    b ← addressed a
    canonical ← canonical_bytes b
    ok (record b {
      signature = some (record {
        key_id = key_id (c.public_of key);
        sig = c.ed25519_sign key canonical;
        signed_at = now;
      });
    })

  -- A typed signer is sent the marshalled envelope, any other the canonical bytes.
  signed_bytes : Signer → Artifact → Bytes → Result KernelError Bytes
  signed_bytes s b canonical = elim s.sign_typed [
    | none ↦ signer_reply (s.sign canonical)
    | some typed ↦ (do envelope ← marshalled (c.marshal b); signer_reply (typed envelope))
  ]

  unfoldable pub sign_artifact_with_signer :
      Option Signer → ℕ → Option Artifact → Result KernelError Artifact
  unfolding addressed canonical_bytes signed_bytes
  sign_artifact_with_signer none now a = err signer_nil
  sign_artifact_with_signer (some s) now none = err artifact_nil
  sign_artifact_with_signer (some s) now (some a) = do
    b ← addressed a
    canonical ← canonical_bytes b
    sig ← signed_bytes s b canonical
    ok (record b {
      signature = some (record { key_id = s.signer_key_id; sig = sig; signed_at = now });
    })
