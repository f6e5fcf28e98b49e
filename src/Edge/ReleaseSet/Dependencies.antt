-- ===== src/Edge/ReleaseSet/Dependencies.antt =====
-- What `validateGenerationDependencies` of lib/edgecore/release_set.go asks of the policies.
use yu_feng.Base.{
  if◌then◌else◌, ℕ, String, ◌≡◌, refl, Bool, true, false, not, ◌||◌, List, [], ◌∷◌, Option, none,
  some, arith, All, any, str_eq, eq_iff, is_empty,
}
use yu_feng.Base.Assoc.{Assoc}
use yu_feng.Base.Result.{ok, require, >>=-eq-ok}
use yu_feng.Edge.Gate.{ManagedRelease}
use yu_feng.Edge.Policy.{PolicyCandidate, PolicyDependencies}
use yu_feng.Edge.Member.{Payloads, edge_version_required, edge_version_too_low}
use yu_feng.Edge.ReleaseSet.Swap.{
  apply_generation, artifacts_of, dependencies_ok, is_profile, manifest_digests, policies_ok,
  policy_ok, swap_from, validate_generation_dependencies,
}
use yu_feng.Edge.ReleaseSet.Atomic.{built, generation_swaps}
use yu_feng.Edge.ReleaseSet.{ReleaseSet}
use yu_feng.Edge.Text.{GoText}
use yu_feng.Edge.Version.{edge_version_compatible}
use yu_feng.Kernel.Artifact.{Bytes, Crypto}
use yu_feng.Kernel.Generation.{AssetGeneration, GenerationCodec}

-- The dependencies of a policy are there and name what the generation brings.
pub record Met (manifests : List String) (profile version : String) (d : PolicyDependencies)
    : Type 0 where
  pub has_manifest : any (λ m. str_eq m d.detector_manifest_digest) manifests ≡ true
  pub same_profile : d.normalizer_profile_digest ≡ profile
  pub same_version : d.min_edge_version ≡ version
  pub named : (is_empty d.detector_manifest_digest || is_empty d.normalizer_profile_digest) ≡ false

pub MetBy : List String → String → String → Option PolicyCandidate → Type 0
MetBy manifests profile version none = Unit
MetBy manifests profile version (some cand) =
    (d : PolicyDependencies) × (cand.dependencies ≡ some d) × Met manifests profile version d

dependencies-Met :
    (manifests : List String) (profile version : String) (o : Option PolicyDependencies)
    → dependencies_ok manifests profile version o ≡ ok tt
    → (d : PolicyDependencies) × (o ≡ some d) × Met manifests profile version d
dependencies-Met manifests profile version none h = cc
dependencies-Met manifests profile version (some d) h = (
  d,
  refl,
  record {
    has_manifest = ground arith;
    same_profile = ground (arith, eq_iff d.normalizer_profile_digest profile);
    same_version = ground (arith, eq_iff d.min_edge_version version);
    named = ground arith;
  },
)

policy-MetBy :
    (manifests : List String) (profile version : String) (o : Option PolicyCandidate)
    → policy_ok manifests profile version o ≡ ok tt
    → MetBy manifests profile version o
unfolding MetBy
policy-MetBy manifests profile version none h = tt
policy-MetBy manifests profile version (some cand) h =
    dependencies-Met manifests profile version cand.dependencies h

policies_ok-MetBy :
    (manifests : List String) (profile version : String) (releases : Assoc ManagedRelease)
    → policies_ok manifests profile version releases ≡ ok tt
    → All (λ e. MetBy manifests profile version e.1.policy) releases
unfolding policies_ok
policies_ok-MetBy manifests profile version [] h = tt
policies_ok-MetBy manifests profile version ((id, r) ∷ rs) h =
    let (u, e, h') =
      >>=-eq-ok (policy_ok manifests profile version r.policy)
        (λ _. policies_ok manifests profile version rs) h in
    (
      policy-MetBy manifests profile version r.policy e,
      policies_ok-MetBy manifests profile version rs h',
    )

module _ {M : Type 0} (g : GoText) (uuid_charset : String → Bool) (p : Payloads M) (c : Crypto)
    (pub_key : Bytes) where
  -- The digest that policies are to name: that of the profile, if a member brings one.
  abbrev pub profile_of : AssetGeneration → ReleaseSet M → String
  profile_of gen s =
      if any (λ a. is_profile a.kind) (artifacts_of gen.members)
      then p.profile_digest s.profile
      else ""

  validated :
      (gen : AssetGeneration) (next : ReleaseSet M)
      → validate_generation_dependencies g uuid_charset p gen next ≡ ok tt
      → (manifests : List String) × (manifest_digests g uuid_charset p (artifacts_of gen.members)
          ≡ ok manifests)
        × (edge_version_compatible g next.edge_version gen.min_edge_version ≡ true)
        × All
            (λ e. MetBy manifests (profile_of gen next) gen.min_edge_version e.1.policy)
            next.releases
  unfolding validate_generation_dependencies
  validated gen next h =
      let (u, e, h1) =
        >>=-eq-ok (require (not (is_empty gen.min_edge_version)) edge_version_required) _ h in
      let (u', e', h2) =
        >>=-eq-ok
          (require (edge_version_compatible g next.edge_version gen.min_edge_version)
            edge_version_too_low)
          _ h1 in
      let (manifests, e'', h3) =
        >>=-eq-ok (manifest_digests g uuid_charset p (artifacts_of gen.members)) _ h2 in
      (
        manifests,
        e'',
        ground (arith, e'),
        policies_ok-MetBy manifests (profile_of gen next) gen.min_edge_version next.releases h3,
      )

  -- Where a generation is applied with no error, every policy that is then in force names dependencies
  -- that the generation brings: the digest of one of its detector manifests, that of its normalizer
  -- profile, and its minimal edge version.
  pub apply_generation-MetBy :
      (codec : GenerationCodec) (now : ℕ)
      (persist : Option AssetGeneration → AssetGeneration → Bool) (gen : AssetGeneration)
      (s : ReleaseSet M)
      → (apply_generation g uuid_charset p c pub_key codec now persist (some gen) s).1 ≡ none
      → (manifests : List String) × (manifest_digests g uuid_charset p (artifacts_of gen.members)
          ≡ ok manifests)
        × All
            (λ e.
              MetBy manifests
                (profile_of gen
                  (apply_generation g uuid_charset p c pub_key codec now persist (some gen) s).0)
                gen.min_edge_version
                e.1.policy)
            (apply_generation g uuid_charset p c pub_key codec now persist (some gen) s).0.releases
  unfolding swap_from
  apply_generation-MetBy codec now persist gen s h =
      let (next, b, e) = generation_swaps g uuid_charset p c pub_key codec now persist gen s h in
      let (manifests, listed, fits, met) =
        validated gen next (built g uuid_charset p c pub_key now gen s next b).1 in
      (manifests, listed, rw (e, swap_from) met)
