-- ===== src/Edge/ReleaseSet.antt =====
-- lib/edgecore/release_set.go: the set of releases that the edge holds, and loading one item into it. The
-- lock is left out: a method is one step. Left out too are the listen plan, which is a unit's and not a
-- generation's, and the cache of compiled inspectors.
pub mod Swap
pub mod Counters
pub mod Laws
pub mod Sound
pub mod Atomic
pub mod Replace
pub mod Runs
pub mod Carry
pub mod Expiry
pub mod Dependencies
use yu_feng.Base.{
  ℕ, String, Bool, true, false, not, ◌&&◌, ◌||◌, List, [], ◌∷◌, ◌++◌, Option, none, some, ◌+◌, ◌*◌,
  ◌^◌, ltb, leb, length, str_eq, is_empty, is_some, if◌then◌else◌,
}
use yu_feng.Base.Assoc.{Assoc, lookup, insert, delete}
use yu_feng.Base.Result.{Result, ok, err, require, or_fail, wrap_err, ◌>>=◌, ◌>>◌}
use yu_feng.Kernel.Artifact.{Artifact, Bytes, Crypto, Kind, KernelError, Scope, verify_artifact}
use yu_feng.Kernel.Release.{canary_percent_min, canary_percent_max}
use yu_feng.Kernel.Generation.{AssetGeneration, ReleaseItem}
use yu_feng.Edge.Types.{CanonicalView, Detection, Inspection, Posture, reverse_proxy, ReleaseMode}
use yu_feng.Edge.Text.{GoText}
use yu_feng.Edge.Policy.{PolicyCandidate, PolicyPredicate}
use yu_feng.Edge.Rule.{Rule, RuleDetector, RuleError, new_rule_detector}
use yu_feng.Edge.Shape.{ShapeSource, CompiledShape, ShapeError, compile_shape}
use yu_feng.Edge.Review.{TrafficReviewPolicy, ReviewError, validate_traffic_review_policy}
use yu_feng.Edge.Member.{
  DetectorManifest, Inspector, Payloads, ApplyError, Parts, rule_parts, policy_parts, shape_parts,
  empty_item, payload_error, inspector_error, unsupported_kind, listen_plan_not_here,
  canary_out_of_range, expired, kernel_error, review_error,
}
use yu_feng.Edge.Gate.{ManagedRelease, Counter, new_counter, is_canary}

pub record ReleaseSet (M : Type 0) : Type 0 where
  pub releases : Assoc ManagedRelease
  pub counters : Assoc Counter
  pub inspectors : List Inspector
  pub inspector_by_rel : Assoc String
  pub mapper : Option M
  pub profile : Option M
  pub digest : Option M
  pub evidence_policy : Option M
  pub forward_policy : Option M
  pub review_policy : Option TrafficReviewPolicy
  pub review_digest : String
  pub model_profile : Option M
  pub model_digest : String
  pub posture : Posture
  pub active_gen : Option AssetGeneration
  pub edge_version : String

abbrev pub new_release_set : {M : Type 0} → String → ReleaseSet M
new_release_set version = record {
  releases = [];
  counters = [];
  inspectors = [];
  inspector_by_rel = [];
  mapper = none;
  profile = none;
  digest = none;
  evidence_policy = none;
  forward_policy = none;
  review_policy = none;
  review_digest = "";
  model_profile = none;
  model_digest = "";
  posture = reverse_proxy;
  active_gen = none;
  edge_version = version;
}

-- defaultReleaseTTL
abbrev pub default_release_ttl : ℕ
default_release_ttl = 24 * 3600 * 10 ^ 9

-- When the artifact of a release runs out.
unfoldable pub expiry : ℕ → Artifact → ℕ
expiry now a = elim a.created_at [
  | none ↦ now + default_release_ttl
  | some t ↦ elim a.ttl [ none ↦ now + default_release_ttl | some d ↦ t + d ]
]

-- `removeInspectorLocked`: the first of that id.
unfoldable pub remove_inspector : String → List Inspector → List Inspector
remove_inspector id [] = []
remove_inspector id (i ∷ is) = if str_eq i.id id then is else i ∷ remove_inspector id is

abbrev route_of : Option Scope → String
route_of none = ""
route_of (some s) = s.route_selector

abbrev pub managed : ℕ → ReleaseItem → Artifact → Parts → ManagedRelease
managed expires item a parts = record {
  release_id = item.release_id;
  artifact_id = a.id;
  detector = parts.detector;
  prefix = route_of a.scope;
  policy = parts.policy;
  shape = parts.shape;
  mode = item.mode;
  canary_percent = item.canary_percent;
  expires_at = expires;
}

-- `if _, ok := counters[id]; !ok { counters[id] = &counter{} }`
abbrev pub with_counter : String → Assoc Counter → Assoc Counter
with_counter id counters = elim (lookup id counters) [
  | none ↦ insert id new_counter counters
  | some c ↦ counters
]

abbrev pub in_range : ℕ → Bool
in_range percent = leb canary_percent_min percent && leb percent canary_percent_max

-- The end of `applyMember`, for the kinds that the gate runs.
unfoldable pub install_release :
    {M : Type 0}
    → ℕ
    → ReleaseItem
    → Artifact
    → Parts
    → ReleaseSet M
    → Result ApplyError (ReleaseSet M)
install_release now item a parts s = do
  require (not (is_canary item.mode) || in_range item.canary_percent) canary_out_of_range
  require (ltb now (expiry now a)) expired
  ok (record s {
    releases = insert item.release_id (managed (expiry now a) item a parts) s.releases;
    counters = with_counter item.release_id s.counters;
  })

-- The kinds that have one schema, or two.
abbrev schema_is : String → Artifact → Bool
schema_is schema a = str_eq a.payload_schema schema

module _ {M : Type 0} (g : GoText) (uuid_charset : String → Bool) (p : Payloads M) where
  -- `installManifest`
  unfoldable pub install_manifest :
      String → Artifact → ReleaseSet M → Result ApplyError (ReleaseSet M)
  install_manifest release_id a s = do
    man ← or_fail (p.manifest a.payload) payload_error
    ins ← or_fail (p.compile_inspector man) inspector_error
    ok (record s {
      inspectors =
          elim (lookup release_id s.inspector_by_rel) [
            | none ↦ s.inspectors
            | some prev ↦ remove_inspector prev s.inspectors
          ]
          ++ ins ∷ [];
      inspector_by_rel = insert release_id ins.id s.inspector_by_rel;
    })

  unfoldable install_review_policy : Artifact → ReleaseSet M → Result ApplyError (ReleaseSet M)
  install_review_policy a s = do
    policy ← or_fail (p.review_policy a.payload) payload_error
    wrap_err review_error (validate_traffic_review_policy policy)
    ok (record s { review_policy = some policy; review_digest = a.id })

  unfoldable install_model_profile : Artifact → ReleaseSet M → Result ApplyError (ReleaseSet M)
  install_model_profile a s = do
    profile ← or_fail (p.message a.kind a.payload) payload_error
    normalized ← or_fail (p.normalize_model_profile profile) payload_error
    ok (record s { model_profile = some normalized; model_digest = a.id })

  -- A message that the set only keeps.
  unfoldable pub keep_message : Artifact → (M → ReleaseSet M) → Result ApplyError (ReleaseSet M)
  keep_message a put = or_fail (p.message a.kind a.payload) payload_error >>= λ m. ok (put m)

  abbrev where_schema : Bool → Result ApplyError (ReleaseSet M) → Result ApplyError (ReleaseSet M)
  where_schema fits_schema r = if fits_schema then r else err unsupported_kind

  -- The `switch` of `applyMember`; where the source's `switch` tests a schema too, another schema is not supported.
  unfoldable pub apply_kind :
      Kind → ℕ → ReleaseItem → Artifact → ReleaseSet M → Result ApplyError (ReleaseSet M)
  unfolding keep_message install_review_policy install_model_profile
  apply_kind kind now item a s = elim kind [
    | Kind.rule ↦
        where_schema (schema_is "rules/v1" a)
          (rule_parts g uuid_charset p a >>= λ parts. install_release now item a parts s)
    | Kind.policy ↦
        where_schema (schema_is "policy/v1" a)
          (policy_parts g uuid_charset p a >>= λ parts. install_release now item a parts s)
    | Kind.shape ↦ shape_parts g uuid_charset p a >>= λ parts. install_release now item a parts s
    | Kind.detector_manifest ↦
        where_schema (schema_is "detector-manifest/v1" a || schema_is "" a)
          (install_manifest item.release_id a s)
    | Kind.taxonomy_mapper ↦
        where_schema (schema_is "taxonomy/v1" a)
          (keep_message a (λ m. record s { mapper = some m }))
    | Kind.normalizer_profile ↦ keep_message a (λ m. record s { profile = some m })
    | Kind.evidence_policy ↦ keep_message a (λ m. record s { evidence_policy = some m })
    | Kind.evidence_digest ↦ keep_message a (λ m. record s { digest = some m })
    | Kind.forward_policy ↦ keep_message a (λ m. record s { forward_policy = some m })
    | Kind.traffic_review_policy ↦
        where_schema (schema_is "traffic-review-policy/v1" a) (install_review_policy a s)
    | Kind.model_profile ↦ where_schema (schema_is "model-profile/v1" a) (install_model_profile a s)
    | Kind.listen_plan ↦ err listen_plan_not_here
    | _ ↦ err unsupported_kind
  ]

  -- `applyMember`
  unfoldable pub apply_member :
      ℕ → ReleaseItem → Artifact → ReleaseSet M → Result ApplyError (ReleaseSet M)
  apply_member now item a s = apply_kind a.kind now item a s

  -- What a retired item does to the set.
  unfoldable pub retire_item : String → ReleaseSet M → ReleaseSet M
  retire_item id s = record s {
    inspectors = elim (lookup id s.inspector_by_rel) [
      | none ↦ s.inspectors
      | some ins ↦ remove_inspector ins s.inspectors
    ];
    inspector_by_rel = delete id s.inspector_by_rel;
    releases = delete id s.releases;
    counters = delete id s.counters;
  }

  unfoldable apply_artifact :
      Crypto
      → Bytes
      → ℕ
      → ReleaseItem
      → Option Artifact
      → ReleaseSet M
      → Result ApplyError (ReleaseSet M)
  apply_artifact c pub_key now item none s = err empty_item
  apply_artifact c pub_key now item (some a) s =
      if item.retired then ok (retire_item item.release_id s) else (do
        wrap_err kernel_error (verify_artifact c (some a) pub_key)
        apply_member now item a s)

  -- `Apply`
  unfoldable pub apply :
      Crypto → Bytes → ℕ → Option ReleaseItem → ReleaseSet M → Result ApplyError (ReleaseSet M)
  unfolding apply_artifact
  apply c pub_key now none s = err empty_item
  apply c pub_key now (some item) s = apply_artifact c pub_key now item item.artifact s
