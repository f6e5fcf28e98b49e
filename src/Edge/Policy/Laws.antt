-- ===== src/Edge/Policy/Laws.antt =====
-- What it takes for a policy of lib/edgecore/evaluate.go to block a request.
use mathlib.Core.List.{Memᴰ}
use yu_feng.Base.{
  ℕ, ◌≡◌, refl, Bool, true, false, not, ◌&&◌, List, [], ◌∷◌, Option, none, some, ◌*◌, ◌+◌, ◌-◌, ◌/◌,
  ◌≤◌, ◌<◌, ◌↔◌, ◌⊎◌, inl, inr, arith, ltb, length, str_eq, Bool-cases, Option-cases, All,
}
use yu_feng.Edge.Types.{CanonicalView, Coverage, Detection, Request, full, status_eq}
use yu_feng.Edge.Text.{GoText}
use yu_feng.Edge.Policy.{
  DetectionKey, PolicyPredicate, PolicyCandidate, uncovered, policy_matches_detection_key, any_key,
  max_detection_score, policy_scope_matches, predicate_blocks, policy_candidate_blocks_on,
  auto_canary_allowed,
}
use yu_feng.Edge.Policy.Keys.{Hit, any_key_iff}

-- What a policy must satisfy before its keys count.
pub record InForce (g : GoText) (cand : PolicyCandidate) (p : PolicyPredicate)
    (found : List Detection) (view : CanonicalView) (req : Request) : Type 0 where
  pub predicate : cand.predicate ≡ some p
  pub not_log : str_eq cand.action "log" ≡ false
  pub in_scope : policy_scope_matches g cand.scope req view ≡ true
  pub scored : p.min_anomaly_score ≤ max_detection_score found

abbrev pub needs_full : PolicyPredicate → Bool
needs_full p = status_eq p.coverage_requirement full

-- Either a key has hit, or the policy is of the kind that asks for full coverage and no match, has
-- keys, and none of them hit.
abbrev pub Reason : PolicyPredicate → List Detection → CanonicalView → Type 0
Reason p found view =
    Hit found (needs_full p) view.coverage p.detection_keys
    ⊎ ((p.require_match_present ≡ false)
        × (needs_full p ≡ true)
        × (any_key found (needs_full p) view.coverage p.detection_keys ≡ false))

-- The coverage tests refuse every key.
abbrev pub Uncovered : List Coverage → Option DetectionKey → Type 0
Uncovered cov none = Unit
Uncovered cov (some k) = uncovered k.target_location true cov ≡ true

any_key-Uncovered :
    (found : List Detection) (cov : List Coverage) (keys : List (Option DetectionKey))
    → All (Uncovered cov) keys
    → any_key found true cov keys ≡ false
unfolding any_key policy_matches_detection_key
any_key-Uncovered found cov [] u = refl
any_key-Uncovered found cov (none ∷ keys) u = any_key-Uncovered found cov keys u.1
any_key-Uncovered found cov (some k ∷ keys) u = rw u.0 (any_key-Uncovered found cov keys u.1)

length_of_mem {ℓ} : {A : Type ℓ} {a : A} {l : List A} → Memᴰ a l → ltb 0 (length l) ≡ true
length_of_mem (Memᴰ.head e) = ground arith
length_of_mem (Memᴰ.tail m) = ground arith

in_force_scored :
    (p : PolicyPredicate) (found : List Detection)
    → p.min_anomaly_score ≤ max_detection_score found
    → (ltb 0 p.min_anomaly_score && ltb (max_detection_score found) p.min_anomaly_score) ≡ false
in_force_scored p found h = ground arith

module _ (g : GoText) (found : List Detection) (view : CanonicalView) (req : Request) where
  predicate-Reason :
      (p : PolicyPredicate) → predicate_blocks g p found view ≡ true → Reason p found view
  unfolding predicate_blocks
  predicate-Reason p h =
      elim (Bool-cases (any_key found (needs_full p) view.coverage p.detection_keys)) [
        | inl e ↦ inl ((any_key_iff found (needs_full p) view.coverage p.detection_keys).0 e)
        | inr e ↦ inr (ground (arith, e))
      ]

  predicate_scored :
      (p : PolicyPredicate)
      → predicate_blocks g p found view ≡ true
      → p.min_anomaly_score ≤ max_detection_score found
  unfolding predicate_blocks
  predicate_scored p h = ground arith

  -- A policy blocks only with a predicate, with another action than "log", inside its scope, at its
  -- least score, and for one of two reasons: a key that hit, or keys of which none hit where the
  -- policy asks for full coverage and not for a match.
  pub policy_block_sound :
      (cand : PolicyCandidate)
      → policy_candidate_blocks_on g (some cand) found view req ≡ true
      → (p : PolicyPredicate) × InForce g cand p found view req × Reason p found view
  unfolding policy_candidate_blocks_on
  policy_block_sound cand h = elim (Option-cases cand.predicate) [
    | inl e ↦ ground (arith, e)
    | inr (p, e) ↦
        let b : predicate_blocks g p found view ≡ true = ground (arith, e) in
        (
          p,
          record {
            predicate = e;
            not_log = ground (arith, e);
            in_scope = ground (arith, e);
            scored = predicate_scored p b;
          },
          predicate-Reason p b,
        )
  ]

  -- A policy in force whose predicate asks for a match, or not for full coverage, blocks whenever
  -- one of its keys hits.
  pub policy_block_complete :
      (cand : PolicyCandidate) (p : PolicyPredicate)
      → InForce g cand p found view req
      → (needs_full p && not p.require_match_present) ≡ false
      → Hit found (needs_full p) view.coverage p.detection_keys
      → policy_candidate_blocks_on g (some cand) found view req ≡ true
  unfolding policy_candidate_blocks_on predicate_blocks
  policy_block_complete cand p f k h =
      let hits = (any_key_iff found (needs_full p) view.coverage p.detection_keys).1 h in
      let some_key = length_of_mem h.listed in
      rw (f.predicate, f.not_log, f.in_scope)
        (rw (in_force_scored p found f.scored, hits, some_key) (ground arith))

  -- The other kind: in force, asking for full coverage and not for a match, and with keys, a policy
  -- blocks every request on which no surface that its keys name is fully covered, whatever was found.
  pub policy_blocks-Uncovered :
      (cand : PolicyCandidate) (p : PolicyPredicate)
      → InForce g cand p found view req
      → needs_full p ≡ true
      → p.require_match_present ≡ false
      → 0 < length p.detection_keys
      → All (Uncovered view.coverage) p.detection_keys
      → policy_candidate_blocks_on g (some cand) found view req ≡ true
  unfolding policy_candidate_blocks_on predicate_blocks
  policy_blocks-Uncovered cand p f full_asked no_match keys u =
      let miss = any_key-Uncovered found view.coverage p.detection_keys u in
      rw (f.predicate, f.not_log, f.in_scope)
        (rw (in_force_scored p found f.scored, full_asked, miss, no_match) (ground arith))

ceil_sufficient : (u p : ℕ) → 0 < p → (100 + p - 1) / p ≤ u → 100 ≤ u * p
ceil_sufficient u p h n = grind arith

ceil_least : (u p : ℕ) → 0 < p → 100 ≤ u * p → (100 + p - 1) / p ≤ u
ceil_least u p h n = grind arith

-- Automatic canary needs as many units as the percentage takes to make one unit of a hundred.
pub auto_canary_iff :
    (units percent : ℕ)
    → 0 < percent
    → (auto_canary_allowed units percent ≡ true) ↔ (100 ≤ units * percent)
unfolding auto_canary_allowed
auto_canary_iff units percent h = (
  λ e. ceil_sufficient units percent h (ground arith),
  λ e. let n = ceil_least units percent h e in ground arith,
)
