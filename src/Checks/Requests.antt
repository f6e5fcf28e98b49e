-- ===== src/Checks/Requests.antt =====
-- Tests of the gate, the policies, the rules, the shapes and the answers.
use mathlib.Core.List.Perm
use yu_feng.Base.{
  false, not, ◌||◌, ◌&&◌, List, [], ◌∷◌, none, some, ◌≡◌, refl, arith, any, ◌↔◌, if◌then◌else◌,
}
use yu_feng.Base.Assoc.{Assoc, lookup}
use yu_feng.Edge.Types.{allow, is_block, Posture}
use yu_feng.Edge.Gate.{Counter, gate_with, ManagedRelease, new_counter}
use yu_feng.Edge.Gate.Judge.{summary}
use yu_feng.Edge.Gate.Decide.{blocking, decided, gate_decides, gate_order_irrelevant, observing}
use yu_feng.Edge.Gate.Account.{Moved, gate_with-Moved}
use yu_feng.Edge.Status.{StatusInput, http_status, intercepts, observes, resolve_posture}
use yu_feng.Edge.Status.Laws.{
  ext_authz_denies_iff, reverse_proxy_forwards_iff, has_failed, is_malformed,
}
use yu_feng.Checks.Data.{
  test_bucket, test_inspection, test_release, test_request, test_status, test_text, test_uuid,
  test_view,
}

abbrev two_releases : List ManagedRelease
two_releases = test_release ∷ record test_release { release_id = "r2"; policy = none } ∷ []

gate_decides_example :
    ((decided test_text test_uuid test_bucket test_request test_inspection test_view
        Posture.reverse_proxy two_releases []).would_have_blocked
      ≡ any
          (blocking test_text test_uuid test_bucket test_request test_inspection test_view)
          two_releases)
    × ((decided test_text test_uuid test_bucket test_request test_inspection test_view
          Posture.reverse_proxy two_releases []).action
        ≡ (if observes Posture.reverse_proxy
            then allow
            else summary
                (any
                  (blocking test_text test_uuid test_bucket test_request test_inspection test_view)
                  two_releases)
                (any
                  (observing test_text test_uuid test_bucket test_request test_inspection test_view)
                  two_releases)))
gate_decides_example =
    gate_decides test_text test_uuid test_bucket test_request test_inspection test_view
      Posture.reverse_proxy two_releases []

gate_order_irrelevant_example :
    ((decided test_text test_uuid test_bucket test_request test_inspection test_view
        Posture.reverse_proxy two_releases []).action
      ≡ (decided test_text test_uuid test_bucket test_request test_inspection test_view
          Posture.reverse_proxy two_releases []).action)
    × ((decided test_text test_uuid test_bucket test_request test_inspection test_view
          Posture.reverse_proxy two_releases []).would_have_blocked
        ≡ (decided test_text test_uuid test_bucket test_request test_inspection test_view
            Posture.reverse_proxy two_releases []).would_have_blocked)
gate_order_irrelevant_example =
    gate_order_irrelevant test_text test_uuid test_bucket test_request test_inspection test_view
      Posture.reverse_proxy two_releases two_releases [] [] (Perm.refl two_releases)

abbrev one_counter : Assoc Counter
one_counter = ("r1", new_counter) ∷ []

r1_counted : lookup "r1" one_counter ≡ some new_counter
unfolding lookup
r1_counted = refl

gate_with-Moved_example :
    (c' : Counter) × (lookup "r1"
        (gate_with test_text test_uuid test_bucket two_releases Posture.reverse_proxy test_request
          test_inspection test_view one_counter).1
      ≡ some c')
    × Moved test_text test_uuid test_bucket test_request test_inspection.detections test_view
        (intercepts Posture.reverse_proxy)
        "r1"
        two_releases
        new_counter
        c'
gate_with-Moved_example =
    gate_with-Moved test_text test_uuid test_bucket two_releases Posture.reverse_proxy test_request
      test_inspection test_view one_counter "r1" new_counter r1_counted
      (omega arith, omega arith, omega arith)

tap_cannot : intercepts Posture.tap_alert ≡ false
unfolding intercepts
tap_cannot = refl

abbrev authz : StatusInput
authz = record test_status { posture = Posture.ext_authz }

resolves : resolve_posture test_status.posture ≡ Posture.reverse_proxy
unfolding resolve_posture
resolves = refl

reverse_proxy_forwards_iff_example : ((http_status test_status).0 ≡ 200) ↔ (
    (has_failed test_status
      || test_status.oversize
      || is_malformed test_status
      || is_block test_status.gate_action)
    ≡ false)
reverse_proxy_forwards_iff_example = reverse_proxy_forwards_iff test_status resolves

ext_authz_denies_iff_example :
    (((http_status authz).0 ≡ 200) ↔ (
      (authz.in_flight_exceeded
        || not (authz.missing_request_id || authz.engine_crash || authz.ext_authz_timeout)
          && (if authz.oversize
              then authz.body_present
              else is_malformed authz || is_block authz.gate_action))
      ≡ false))
ext_authz_denies_iff_example = ext_authz_denies_iff authz refl
