-- ===== src/Kernel/ListenPlan.antt =====
-- lib/kernel/listen_plan.go: the signature of the listen plan of a unit, which is the message
-- UnitListenPlan of proto/yufeng/artifact/v1/v1.proto. `PlanCodec` is its protocol-buffer marshalling.
pub mod Laws
use yu_feng.Base.{ℕ, String, Bool, not, Option, none, some, ◌==◌, ltb, length, str_eq}
use yu_feng.Base.Result.{Result, ok, err, require, or_fail, ◌>>=◌, ◌>>◌}
use yu_feng.Kernel.Artifact.{
  Bytes, Crypto, KernelError, Signature, Signer, signature_bytes, key_id, marshal_failed,
  signer_failed, bad_private_key, bad_public_key, already_signed, signer_nil, listen_plan_nil,
  missing_signature, key_id_mismatch, bad_signature,
}
use yu_feng.Edge.Types.{Posture}

-- The source policy and the ingress window are kept as they are encoded.
pub record UnitListenPlan : Type 0 where
  pub unit_id : String
  pub posture : Posture
  pub traffic_key : String
  pub follow_unit_id : String
  pub version : ℕ
  pub listen_address : String
  pub upstream_url : String
  pub signature : Option Signature
  pub client_source : Option Bytes
  pub model_ingress_window : Option Bytes

abbrev pub PlanCodec : Type 0
PlanCodec = UnitListenPlan → Option Bytes

abbrev pub plan_is_signed : UnitListenPlan → Bool
plan_is_signed plan = ltb 0 (length (signature_bytes plan.signature))

-- `Signature.GetKeyId()`
abbrev pub signature_key : Option Signature → String
signature_key none = ""
signature_key (some s) = s.key_id

module _ (c : Crypto) (codec : PlanCodec) where
  unfoldable pub unit_listen_plan_bytes : UnitListenPlan → Result KernelError Bytes
  unit_listen_plan_bytes plan = or_fail (codec (record plan { signature = none })) marshal_failed

  unfoldable pub sign_unit_listen_plan :
      Bytes → ℕ → Option UnitListenPlan → Result KernelError UnitListenPlan
  unfolding unit_listen_plan_bytes
  sign_unit_listen_plan key now none = do
    require (length key == 64) bad_private_key
    err listen_plan_nil
  sign_unit_listen_plan key now (some plan) = do
    require (length key == 64) bad_private_key
    require (not (plan_is_signed plan)) already_signed
    raw ← unit_listen_plan_bytes plan
    ok (record plan {
      signature = some (record {
        key_id = key_id c (c.public_of key);
        sig = c.ed25519_sign key raw;
        signed_at = now;
      });
    })

  -- A typed signer is sent the whole plan, any other the bytes without a signature.
  plan_reply : Signer → UnitListenPlan → Bytes → Result KernelError Bytes
  plan_reply s plan raw = elim s.sign_typed [
    | none ↦ or_fail (s.sign raw) signer_failed
    | some typed ↦ (do
      envelope ← or_fail (codec plan) marshal_failed
      or_fail (typed envelope) signer_failed)
  ]

  unfoldable pub sign_unit_listen_plan_with_signer :
      Option Signer → ℕ → Option UnitListenPlan → Result KernelError UnitListenPlan
  unfolding unit_listen_plan_bytes plan_reply
  sign_unit_listen_plan_with_signer none now plan = err signer_nil
  sign_unit_listen_plan_with_signer (some s) now none = err listen_plan_nil
  sign_unit_listen_plan_with_signer (some s) now (some plan) = do
    require (not (plan_is_signed plan)) already_signed
    raw ← unit_listen_plan_bytes plan
    sig ← plan_reply s plan raw
    ok (record plan {
      signature = some (record { key_id = s.signer_key_id; sig = sig; signed_at = now });
    })

  unfoldable pub verify_unit_listen_plan :
      Option UnitListenPlan → Bytes → Result KernelError (Unit {0})
  unfolding unit_listen_plan_bytes
  verify_unit_listen_plan none pub_key = err listen_plan_nil
  verify_unit_listen_plan (some plan) pub_key = do
    require (length pub_key == 32) bad_public_key
    require (plan_is_signed plan) missing_signature
    require (str_eq (signature_key plan.signature) (key_id c pub_key)) key_id_mismatch
    raw ← unit_listen_plan_bytes plan
    require (c.ed25519_verify pub_key raw (signature_bytes plan.signature)) bad_signature
