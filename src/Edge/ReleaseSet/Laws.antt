-- ===== src/Edge/ReleaseSet/Laws.antt =====
-- What one item does to the releases and the counters of the set of lib/edgecore/release_set.go.
use yu_feng.Base.{
  ℕ, String, ◌≡◌, refl, Bool, true, false, not, ◌||◌, Option, none, some, ◌⊎◌, inl, inr, arith, ltb,
  str_eq, if◌then◌else◌, Bool-cases,
}
use yu_feng.Base.Assoc.{insert, delete}
use yu_feng.Base.Result.{Result, ok, err, wrap_err, ◌>>=◌, >>=-eq-ok, wrap_err-eq-ok}
use yu_feng.Kernel.Artifact.{Artifact, Bytes, Crypto, Kind, verify_artifact}
use yu_feng.Kernel.Generation.{ReleaseItem}
use yu_feng.Edge.Text.{GoText}
use yu_feng.Edge.Gate.{is_canary}
use yu_feng.Edge.Member.{
  Payloads, Parts, ApplyError, unsupported_kind, rule_parts, policy_parts, shape_parts,
}
use yu_feng.Edge.ReleaseSet.{
  ReleaseSet, apply, apply_kind, apply_member, expiry, in_range, install_manifest, install_release,
  managed, retire_item, with_counter, install_review_policy, install_model_profile, keep_message,
  apply_artifact,
}

-- The releases and the counters are as they were.
pub record SameReleases {M : Type 0} (s t : ReleaseSet M) : Type 0 where
  pub releases : t.releases ≡ s.releases
  pub counters : t.counters ≡ s.counters

-- One release was installed from an artifact.
pub record Installed {M : Type 0} (now : ℕ) (item : ReleaseItem) (a : Artifact) (s t : ReleaseSet M)
    : Type 0 where
  pub parts : Parts
  pub in_range : (not (is_canary item.mode) || in_range item.canary_percent) ≡ true
  pub unexpired : ltb now (expiry now a) ≡ true
  pub releases :
      t.releases ≡ insert item.release_id (managed (expiry now a) item a parts) s.releases
  pub counters : t.counters ≡ with_counter item.release_id s.counters

-- The release and its counter are gone.
pub record Retired {M : Type 0} (id : String) (s t : ReleaseSet M) : Type 0 where
  pub releases : t.releases ≡ delete id s.releases
  pub counters : t.counters ≡ delete id s.counters

installs :
    {M : Type 0} (now : ℕ) (item : ReleaseItem) (a : Artifact) (parts : Parts) (s t : ReleaseSet M)
    → install_release now item a parts s ≡ ok t
    → Installed now item a s t
unfolding install_release
installs now item a parts s t h = record {
  parts = parts;
  in_range = ground arith;
  unexpired = ground arith;
  releases = ground arith;
  counters = ground arith;
}

-- What an item that is not retired does, one or the other.
abbrev pub Effect : {M : Type 0} → ℕ → ReleaseItem → Artifact → ReleaseSet M → ReleaseSet M → Type 0
Effect now item a s t = SameReleases s t ⊎ Installed now item a s t

-- What follows a step that may fail, once the whole returned.
after :
    {M : Type 0} {A : Type 0} {P : Type 0} (m : Result ApplyError A)
    (f : A → Result ApplyError (ReleaseSet M)) (t : ReleaseSet M)
    → ((a : A) → f a ≡ ok t → P)
    → (m >>= f) ≡ ok t
    → P
after m f t k h = let (a, e, h') = >>=-eq-ok m f h in k a h'

under_schema :
    {M : Type 0} {P : Type 0} (fits_schema : Bool) (r : Result ApplyError (ReleaseSet M))
    (t : ReleaseSet M)
    → (r ≡ ok t → P)
    → (if fits_schema then r else err unsupported_kind) ≡ ok t
    → P
under_schema true r t k h = k h
under_schema false r t k h = cc

module _ {M : Type 0} (g : GoText) (uuid_charset : String → Bool) (p : Payloads M) where
  review_effect :
      (now : ℕ) (item : ReleaseItem) (a : Artifact) (s t : ReleaseSet M)
      → install_review_policy g uuid_charset p a s ≡ ok t
      → SameReleases s t
  unfolding install_review_policy
  review_effect now item a s t h = record { releases = ground arith; counters = ground arith }

  profile_effect :
      (now : ℕ) (item : ReleaseItem) (a : Artifact) (s t : ReleaseSet M)
      → install_model_profile g uuid_charset p a s ≡ ok t
      → SameReleases s t
  unfolding install_model_profile
  profile_effect now item a s t h = record { releases = ground arith; counters = ground arith }

  manifest_effect :
      (now : ℕ) (item : ReleaseItem) (a : Artifact) (s t : ReleaseSet M)
      → install_manifest g uuid_charset p item.release_id a s ≡ ok t
      → SameReleases s t
  unfolding install_manifest
  manifest_effect now item a s t h = record { releases = ground arith; counters = ground arith }

  parts-Effect :
      (now : ℕ) (item : ReleaseItem) (a : Artifact) (parts : Result ApplyError Parts)
      (s t : ReleaseSet M)
      → (parts >>= λ q. install_release now item a q s) ≡ ok t
      → Effect now item a s t
  parts-Effect now item a parts s t h =
      after parts (λ q. install_release now item a q s) t (λ q e. inr (installs now item a q s t e))
        h

  kind-Effect :
      (kind : Kind) (now : ℕ) (item : ReleaseItem) (a : Artifact) (s t : ReleaseSet M)
      → apply_kind g uuid_charset p kind now item a s ≡ ok t
      → Effect now item a s t
  unfolding apply_kind keep_message
  kind-Effect Kind.rule now item a s t h =
      under_schema (str_eq a.payload_schema "rules/v1")
        (rule_parts g uuid_charset p a >>= λ q. install_release now item a q s) t
        (λ e. parts-Effect now item a (rule_parts g uuid_charset p a) s t e) h
  kind-Effect Kind.policy now item a s t h =
      under_schema (str_eq a.payload_schema "policy/v1")
        (policy_parts g uuid_charset p a >>= λ q. install_release now item a q s) t
        (λ e. parts-Effect now item a (policy_parts g uuid_charset p a) s t e) h
  kind-Effect Kind.shape now item a s t h =
      parts-Effect now item a (shape_parts g uuid_charset p a) s t h
  kind-Effect Kind.detector_manifest now item a s t h =
      under_schema (str_eq a.payload_schema "detector-manifest/v1" || str_eq a.payload_schema "")
        (install_manifest g uuid_charset p item.release_id a s) t
        (λ e. inl (manifest_effect now item a s t e)) h
  kind-Effect Kind.traffic_review_policy now item a s t h =
      under_schema (str_eq a.payload_schema "traffic-review-policy/v1")
        (install_review_policy g uuid_charset p a s) t (λ e. inl (review_effect now item a s t e)) h
  kind-Effect Kind.model_profile now item a s t h =
      under_schema (str_eq a.payload_schema "model-profile/v1")
        (install_model_profile g uuid_charset p a s) t (λ e. inl (profile_effect now item a s t e))
        h
  kind-Effect Kind.taxonomy_mapper now item a s t h =
      inl (record { releases = ground arith; counters = ground arith })
  kind-Effect Kind.normalizer_profile now item a s t h =
      inl (record { releases = ground arith; counters = ground arith })
  kind-Effect Kind.evidence_policy now item a s t h =
      inl (record { releases = ground arith; counters = ground arith })
  kind-Effect Kind.evidence_digest now item a s t h =
      inl (record { releases = ground arith; counters = ground arith })
  kind-Effect Kind.forward_policy now item a s t h =
      inl (record { releases = ground arith; counters = ground arith })
  kind-Effect _ now item a s t h = cc

  -- The artifact is there and verified, and what follows is its effect.
  abbrev pub Loaded :
      Crypto → Bytes → ℕ → ReleaseItem → Option Artifact → ReleaseSet M → ReleaseSet M → Type 0
  Loaded c pub_key now item o s t =
      (a : Artifact) × (o ≡ some a)
      × (verify_artifact c (some a) pub_key ≡ ok tt)
      × Effect now item a s t

  artifact_effect :
      (c : Crypto) (pub_key : Bytes) (now : ℕ) (item : ReleaseItem) (o : Option Artifact)
      (s t : ReleaseSet M)
      → item.retired ≡ false
      → apply_artifact g uuid_charset p c pub_key now item o s ≡ ok t
      → Loaded c pub_key now item o s t
  unfolding apply_artifact apply_member apply_kind install_release
  artifact_effect c pub_key now item none s t live h = cc
  artifact_effect c pub_key now item (some a) s t live h =
      let h' = rw live at h in
      let (u, e, h'') = >>=-eq-ok (wrap_err _ (verify_artifact c (some a) pub_key)) _ h' in
      (a, refl, wrap_err-eq-ok _ _ e, kind-Effect a.kind now item a s t h'')

  retired_effect :
      (c : Crypto) (pub_key : Bytes) (now : ℕ) (item : ReleaseItem) (o : Option Artifact)
      (s t : ReleaseSet M)
      → item.retired ≡ true
      → apply_artifact g uuid_charset p c pub_key now item o s ≡ ok t
      → Retired item.release_id s t
  unfolding apply_artifact retire_item
  retired_effect c pub_key now item none s t gone h = cc
  retired_effect c pub_key now item (some a) s t gone h = record {
    releases = ground arith;
    counters = ground arith;
  }

  -- What any item does, retired or not.
  pub apply-cases :
      (c : Crypto) (pub_key : Bytes) (now : ℕ) (item : ReleaseItem) (s t : ReleaseSet M)
      → apply g uuid_charset p c pub_key now (some item) s ≡ ok t
      → Retired item.release_id s t ⊎ Loaded c pub_key now item item.artifact s t
  unfolding apply
  apply-cases c pub_key now item s t h = elim (Bool-cases item.retired) [
    | inl gone ↦ inl (retired_effect c pub_key now item item.artifact s t gone h)
    | inr live ↦ inr (artifact_effect c pub_key now item item.artifact s t live h)
  ]
