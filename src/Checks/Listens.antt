-- ===== src/Checks/Listens.antt =====
-- Tests of the listen plans of a unit.
use yu_feng.Base.{true, List, [], ◌∷◌, Option, none, some, Bool, ◌≡◌, refl}
use yu_feng.Base.Result.{ok}
use yu_feng.Kernel.Artifact.{key_id}
use yu_feng.Kernel.ListenPlan.{
  PlanCodec, UnitListenPlan, sign_unit_listen_plan, verify_unit_listen_plan,
}
use yu_feng.Kernel.ListenPlan.Laws.{verify_unit_listen_plan-sign_unit_listen_plan}
use yu_feng.Edge.Types.{Posture}
use yu_feng.Edge.Listen.{ListenState, PlanChecks, listen_plans}
use yu_feng.Edge.Listen.Laws.{Follows, listen_plans-Follows}
use yu_feng.Checks.Data.{fill, test_crypto, test_key, test_laws}

abbrev bare_plan : UnitListenPlan
bare_plan = record {
  unit_id = "u";
  posture = Posture.tap_alert;
  traffic_key = "t";
  follow_unit_id = "";
  version = 1;
  listen_address = "";
  upstream_url = "";
  signature = none;
  client_source = none;
  model_ingress_window = none;
}

abbrev plan_codec : PlanCodec
plan_codec plan = some (2 ∷ [])

abbrev signed_plan : UnitListenPlan
signed_plan = record bare_plan {
  signature = some (record { key_id = "h"; sig = fill 64; signed_at = 9 });
}

plan_signs :
    sign_unit_listen_plan test_crypto plan_codec test_key 9 (some bare_plan) ≡ ok signed_plan
unfolding sign_unit_listen_plan key_id
plan_signs = refl

verify_unit_listen_plan-sign_unit_listen_plan_example :
    verify_unit_listen_plan test_crypto plan_codec
      (some signed_plan)
      (test_crypto.public_of test_key)
    ≡ ok tt
verify_unit_listen_plan-sign_unit_listen_plan_example =
    verify_unit_listen_plan-sign_unit_listen_plan test_crypto test_laws plan_codec test_key 9
      (some bare_plan) signed_plan plan_signs

abbrev test_checks : PlanChecks
test_checks = record { trim_space = λ s. s; valid = λ plan. true; equal = λ a b. true }

abbrev persists : Option UnitListenPlan → UnitListenPlan → Bool
persists old new = true

abbrev arrivals : List (UnitListenPlan × (Option UnitListenPlan → UnitListenPlan → Bool))
arrivals = (signed_plan, persists) ∷ (record signed_plan { version = 2 }, persists) ∷ []

abbrev no_plan : ListenState
no_plan = record { listen = none; posture = Posture.reverse_proxy }

listen_plans-Follows_example :
    Follows test_crypto plan_codec
      (fill 32)
      test_checks
      "u"
      no_plan
      (listen_plans test_crypto plan_codec (fill 32) test_checks "u" arrivals no_plan)
listen_plans-Follows_example =
    listen_plans-Follows test_crypto plan_codec (fill 32) test_checks "u" arrivals no_plan tt
