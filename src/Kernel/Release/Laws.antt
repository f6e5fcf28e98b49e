-- ===== src/Kernel/Release/Laws.antt =====
-- What every release that the functions of lib/kernel/release.go can reach has been through.
use yu_feng.Base.{
  ℕ, ◌≡◌, refl, ◌∙◌, Bool, true, false, ◌≤◌, ◌<◌, List, ◌∷◌, Option, none, some, ◌⊎◌, inl, inr,
  arith, any,
}
use yu_feng.Base.Result.{ok}
use yu_feng.Kernel.Artifact.{
  Artifact, Bytes, Crypto, ReplayReport, Signer, sign_artifact, sign_artifact_with_signer,
  verify_artifact,
}
use yu_feng.Kernel.Artifact.Laws.{Ed25519Laws, IsSignerOf, verify-sign, verify-sign_with_signer}
use yu_feng.Kernel.Release.{
  Release, ReleaseState, Draft, Signed, Retired, RetireReason, of_draft, of_signed, of_shadow,
  of_canary, of_enforce, of_retired, gate, gate_with_signer, start_shadow, promote_canary,
  promote_shadow, promote_enforce, retire_active, artifact, release_id, prepared, state, signed,
}
use yu_feng.Kernel.Release.Steps.{
  Step, Reach, pass, fail, pass_signer, fail_signer, observe, widen, skip, complete, withdraw, here,
  next,
}

-- A report that blocks all malicious samples and no other.
abbrev pub Clean : Option ReplayReport → Type 0
Clean none = ⊥
Clean (some r) =
    (0 < r.malicious_total)
    × (r.malicious_blocked ≡ r.malicious_total)
    × (r.benign_blocked ≡ 0)
    × (r.management_blocked ≡ 0)

-- Signed under the key, with a clean report in the signed envelope.
pub record IsGated (c : Crypto) (key : Bytes) (a : Artifact) : Type 0 where
  pub verified : verify_artifact c (some a) (c.public_of key) ≡ ok tt
  pub clean : Clean a.replay_report

abbrev pub is_signed_state : ReleaseState → Bool
is_signed_state signed = true
is_signed_state _ = false

-- The release was never signed on its way.
abbrev pub IsUnsigned : List ReleaseState → Type 0
IsUnsigned trace = any is_signed_state trace ≡ false

-- What holds of a release that was reached by way of some states.
abbrev pub IsSound : Crypto → Bytes → List ReleaseState → Release → Type 0
IsSound c key trace (of_draft d) = IsUnsigned trace
IsSound c key trace (of_canary n) =
    IsGated c key n.envelope × (1 ≤ n.canary_percent) × (n.canary_percent ≤ 25)
IsSound c key trace (of_retired t) = IsUnsigned trace ⊎ IsGated c key t.envelope
IsSound c key trace r = IsGated c key (artifact r)

module _ (c : Crypto) (key : Bytes) (laws : Ed25519Laws c) (signer : Signer)
    (holds : IsSignerOf c key signer) where
  report-sign :
      (now : ℕ) (a b : Artifact)
      → sign_artifact c key now (some a) ≡ ok b
      → b.replay_report ≡ a.replay_report
  unfolding sign_artifact
  report-sign now a b h = ground arith

  report-sign_with_signer :
      (now : ℕ) (a b : Artifact)
      → sign_artifact_with_signer c (some signer) now (some a) ≡ ok b
      → b.replay_report ≡ a.replay_report
  unfolding sign_artifact_with_signer
  report-sign_with_signer now a b h = ground arith

  gate-signed :
      (now : ℕ) (d : Draft) (report : ReplayReport) (s : Signed)
      → (gate c key now d (some report)).0.signed ≡ some s
      → Clean (some report)
        × (sign_artifact c key now (some (prepared now d report)) ≡ ok s.envelope)
        × (s.id ≡ d.id)
  unfolding gate
  gate-signed now d report s h = ground arith

  gate_with_signer-signed :
      (now : ℕ) (d : Draft) (report : ReplayReport) (s : Signed)
      → (gate_with_signer c (some signer) now d (some report)).0.signed ≡ some s
      → Clean (some report)
        × (sign_artifact_with_signer c (some signer) now (some (prepared now d report))
            ≡ ok s.envelope)
        × (s.id ≡ d.id)
  unfolding gate_with_signer
  gate_with_signer-signed now d report s h = ground arith

  gate-IsGated :
      (now : ℕ) (d : Draft) (report : Option ReplayReport) (s : Signed)
      → (gate c key now d report).0.signed ≡ some s
      → IsGated c key s.envelope × (s.id ≡ d.id)
  unfolding gate
  gate-IsGated now d none s h = cc
  gate-IsGated now d (some report) s h =
      let (clean, signs, same) = gate-signed now d report s h in
      let a = prepared now d report in
      (
        record {
          verified = verify-sign c laws key now (some a) s.envelope signs;
          clean = rw (report-sign now a s.envelope signs) clean;
        },
        same,
      )

  gate_with_signer-IsGated :
      (now : ℕ) (d : Draft) (report : Option ReplayReport) (s : Signed)
      → (gate_with_signer c (some signer) now d report).0.signed ≡ some s
      → IsGated c key s.envelope × (s.id ≡ d.id)
  unfolding gate_with_signer
  gate_with_signer-IsGated now d none s h = cc
  gate_with_signer-IsGated now d (some report) s h =
      let (clean, signs, same) = gate_with_signer-signed now d report s h in
      let a = prepared now d report in
      (
        record {
          verified = verify-sign_with_signer c laws key signer now a s.envelope holds signs;
          clean = rw (report-sign_with_signer now a s.envelope signs) clean;
        },
        same,
      )

  gate-draft_id :
      (now : ℕ) (d : Draft) (report : Option ReplayReport) (d' : Draft)
      → (gate c key now d report).0.draft ≡ some d'
      → d'.id ≡ d.id
  unfolding gate
  gate-draft_id now d none d' h = cc
  gate-draft_id now d (some report) d' h = ground arith

  gate_with_signer-draft_id :
      (now : ℕ) (d : Draft) (report : Option ReplayReport) (d' : Draft)
      → (gate_with_signer c (some signer) now d report).0.draft ≡ some d'
      → d'.id ≡ d.id
  unfolding gate_with_signer
  gate_with_signer-draft_id now d none d' h = cc
  gate_with_signer-draft_id now d (some report) d' h = ground arith

  withdrawn :
      (trace : List ReleaseState) (r : Release) (reason : RetireReason) (t : Retired)
      → retire_active r reason ≡ ok t
      → IsSound c key trace r
      → (IsUnsigned trace ⊎ IsGated c key t.envelope) × (t.id ≡ release_id r)
  unfolding retire_active
  withdrawn trace (of_draft d) reason t h p = (inl p, ground arith)
  withdrawn trace (of_signed s) reason t h p = ground arith
  withdrawn trace (of_shadow s) reason t h p = ground arith
  withdrawn trace (of_canary n) reason t h p = ground arith
  withdrawn trace (of_enforce n) reason t h p = ground arith
  withdrawn trace (of_retired n) reason t h (inl p) = (inl p, ground arith)
  withdrawn trace (of_retired n) reason t h (inr p) = ground arith

  Step-IsSound :
      (trace : List ReleaseState) {r t : Release}
      → Step c key signer r t
      → IsSound c key trace r
      → IsSound c key (state t ∷ trace) t × (release_id t ≡ release_id r)
  unfolding start_shadow promote_canary promote_shadow promote_enforce
  Step-IsSound trace (pass now d report s h) p = gate-IsGated now d report s h
  Step-IsSound trace (fail now d report d' h) p = (p, gate-draft_id now d report d' h)
  Step-IsSound trace (pass_signer now d report s h) p = gate_with_signer-IsGated now d report s h
  Step-IsSound trace (fail_signer now d report d' h) p =
      (p, gate_with_signer-draft_id now d report d' h)
  Step-IsSound trace (observe s) p = (p, refl)
  Step-IsSound trace (widen s percent n h) p = ground arith
  Step-IsSound trace (skip s) p = (p, refl)
  Step-IsSound trace (complete n) p = (p.0, refl)
  Step-IsSound trace (withdraw r reason t h) p = withdrawn trace r reason t h p

  -- With a signer that holds the signing key: whatever `Gate`, `GateWithSigner`, `StartShadow`, the
  -- promotions and `RetireActive`, the last in any state, reach from a draft keeps the draft's id. A
  -- signed, shadow, canary or enforce release has an envelope that verifies under that key and holds
  -- a report in which all malicious samples were blocked and no benign or management one; so has a
  -- retired one, unless it was never signed on its way; and a canary percentage lies in 1..25.
  pub Reach-IsSound :
      (d : Draft) {trace : List ReleaseState} {r : Release}
      → Reach c key signer (of_draft d) trace r
      → IsSound c key trace r × (release_id r ≡ d.id)
  Reach-IsSound d (here e) = (rw (e) refl, refl)
  Reach-IsSound d (next {trace = trace} reach step e) =
      let (sound, same) = Reach-IsSound d reach in
      let (sound', same') = Step-IsSound trace step sound in (rw (e) sound', same' ∙ same)
