-- ===== src/Checks/Expired.antt =====
-- A test of the gate of a set with a release that has run out beside one that has not.
use yu_feng.Base.{ℕ, ◌≡◌, ◌&&◌, [], ◌∷◌, any, ltb}
use yu_feng.Edge.Gate.Decide.{blocking}
use yu_feng.Edge.ReleaseSet.{ReleaseSet, new_release_set}
use yu_feng.Edge.ReleaseSet.Counters.{gate}
use yu_feng.Edge.ReleaseSet.Expiry.{gate_ignores_expired, inspection_of}
use yu_feng.Checks.Data.{
  test_bucket, test_detection, test_release, test_request, test_text, test_uuid, test_view,
}

abbrev old_and_new : ReleaseSet ℕ
old_and_new = record (new_release_set "dev") {
  releases =
      ("r1", test_release) ∷ ("r2", record test_release { release_id = "r2"; expires_at = 7 }) ∷ [];
}

gate_ignores_expired_example :
    (gate test_text test_uuid test_bucket 10 test_request
      (test_detection ∷ [])
      test_view
      old_and_new).0.would_have_blocked
    ≡ any
        (λ e.
          ltb 10 e.1.expires_at
          && blocking test_text test_uuid test_bucket test_request
              (inspection_of (test_detection ∷ []) test_view)
              test_view
              e.1)
        old_and_new.releases
gate_ignores_expired_example =
    gate_ignores_expired test_text test_uuid test_bucket 10 test_request (test_detection ∷ [])
      test_view old_and_new
