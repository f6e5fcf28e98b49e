-- ===== src/Kernel/ListenPlan/Laws.antt =====
-- What a signature made by lib/kernel/listen_plan.go proves.
use yu_feng.Base.{ℕ, ◌≡◌, Option, none, some, inl, inr, arith, eq_iff, Option-cases}
use yu_feng.Base.Result.{ok}
use yu_feng.Kernel.Artifact.{Bytes, Crypto, key_id}
use yu_feng.Kernel.Artifact.Laws.{Ed25519Laws}
use yu_feng.Kernel.ListenPlan.{
  PlanCodec, UnitListenPlan, sign_unit_listen_plan, unit_listen_plan_bytes, verify_unit_listen_plan,
}

abbrev unsigned_plan : UnitListenPlan → UnitListenPlan
unsigned_plan plan = record plan { signature = none }

module _ (c : Crypto) (laws : Ed25519Laws c) (codec : PlanCodec) where
  -- Whatever SignUnitListenPlan signs, VerifyUnitListenPlan accepts under the public half of the key.
  pub verify_unit_listen_plan-sign_unit_listen_plan :
      (key : Bytes) (now : ℕ) (plan : Option UnitListenPlan) (signed : UnitListenPlan)
      → sign_unit_listen_plan c codec key now plan ≡ ok signed
      → verify_unit_listen_plan c codec (some signed) (c.public_of key) ≡ ok tt
  unfolding sign_unit_listen_plan verify_unit_listen_plan unit_listen_plan_bytes
  verify_unit_listen_plan-sign_unit_listen_plan key now none signed h = ground arith
  verify_unit_listen_plan-sign_unit_listen_plan key now (some plan) signed h =
      elim (Option-cases (codec (unsigned_plan plan))) [
        | inl e ↦ ground arith
        | inr (m, e) ↦ ground (
          arith,
          laws.public_size key,
          laws.signature_size key m,
          laws.verifies key m,
          eq_iff (key_id c (c.public_of key)) (key_id c (c.public_of key)),
        )
      ]
