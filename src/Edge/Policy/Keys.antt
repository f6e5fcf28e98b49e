-- ===== src/Edge/Policy/Keys.antt =====
-- Which detections the keys of a policy of lib/edgecore/evaluate.go hit.
use mathlib.Core.List.{Memᴰ}
use yu_feng.Base.{
  ◌≡◌, refl, Bool, true, false, ◌&&◌, List, [], ◌∷◌, Option, none, some, ◌↔◌, inl, inr, arith,
  is_some, Bool-cases,
}
use yu_feng.Edge.Types.{Coverage, Detection}
use yu_feng.Edge.Policy.{
  DetectionKey, detection_matches_key, any_detection, uncovered, policy_matches_detection_key,
  any_key,
}

-- A detection that a key names, the key not nil and its surface covered.
pub record Hit (found : List Detection) (require_full : Bool) (cov : List Coverage)
    (keys : List (Option DetectionKey)) : Type 0 where
  pub key : DetectionKey
  pub detection : Detection
  pub listed : Memᴰ (some key) keys
  pub seen : Memᴰ detection found
  pub covered : uncovered key.target_location require_full cov ≡ false
  pub matched : detection_matches_key detection key ≡ true

any_detection_sound :
    (found : List Detection) (key : DetectionKey)
    → any_detection found key ≡ true
    → (d : Detection) × Memᴰ d found × (detection_matches_key d key ≡ true)
unfolding any_detection
any_detection_sound [] key h = cc
any_detection_sound (d ∷ found) key h = elim (Bool-cases (detection_matches_key d key)) [
  | inl e ↦ (d, Memᴰ.head refl, e)
  | inr e ↦
      let (d', m, e') = any_detection_sound found key (ground (arith, e)) in (d', Memᴰ.tail m, e')
]

any_detection_complete :
    (d : Detection) (key : DetectionKey) {found : List Detection}
    → Memᴰ d found
    → detection_matches_key d key ≡ true
    → any_detection found key ≡ true
unfolding any_detection
any_detection_complete d key (Memᴰ.head e) h = ground (arith, e)
any_detection_complete d key (Memᴰ.tail m) h = ground (arith, any_detection_complete d key m h)

module _ (found : List Detection) (full_needed : Bool) (cov : List Coverage) where
  -- What one key of a policy contributes.
  abbrev key_hits : Option DetectionKey → Bool
  key_hits key = is_some key && policy_matches_detection_key found key full_needed cov

  Hit-tail :
      (key : Option DetectionKey) {keys : List (Option DetectionKey)}
      → Hit found full_needed cov keys
      → Hit found full_needed cov (key ∷ keys)
  Hit-tail key h = record {
    key = h.key;
    detection = h.detection;
    listed = Memᴰ.tail h.listed;
    seen = h.seen;
    covered = h.covered;
    matched = h.matched;
  }

  Hit-head :
      (key : Option DetectionKey) (keys : List (Option DetectionKey))
      → key_hits key ≡ true
      → Hit found full_needed cov (key ∷ keys)
  unfolding policy_matches_detection_key
  Hit-head none keys h = cc
  Hit-head (some k) keys h =
      let (d, m, e) = any_detection_sound found k (ground arith) in
      record {
        key = k;
        detection = d;
        listed = Memᴰ.head refl;
        seen = m;
        covered = ground arith;
        matched = e;
      }

  any_key_sound :
      (keys : List (Option DetectionKey))
      → any_key found full_needed cov keys ≡ true
      → Hit found full_needed cov keys
  unfolding any_key
  any_key_sound [] h = cc
  any_key_sound (key ∷ keys) h = elim (Bool-cases (key_hits key)) [
    | inl e ↦ Hit-head key keys e
    | inr e ↦ Hit-tail key (any_key_sound keys (rw e at h))
  ]

  key_hits_complete :
      (k : DetectionKey) (d : Detection)
      → Memᴰ d found
      → uncovered k.target_location full_needed cov ≡ false
      → detection_matches_key d k ≡ true
      → key_hits (some k) ≡ true
  unfolding policy_matches_detection_key
  key_hits_complete k d m u h = rw (u, any_detection_complete d k m h)

  any_key_complete :
      (key : Option DetectionKey) {keys : List (Option DetectionKey)}
      → Memᴰ key keys
      → key_hits key ≡ true
      → any_key found full_needed cov keys ≡ true
  unfolding any_key
  any_key_complete key (Memᴰ.head e) h = ground (arith, e)
  any_key_complete key (Memᴰ.tail m) h = ground (arith, any_key_complete key m h)

  -- The loop over the keys of a policy finds a hit exactly when some key that is not nil names a
  -- detection that was found, on a surface that the coverage tests let through.
  pub any_key_iff :
      (keys : List (Option DetectionKey))
      → (any_key found full_needed cov keys ≡ true) ↔ Hit found full_needed cov keys
  any_key_iff keys = (
    any_key_sound keys,
    λ h.
        any_key_complete (some h.key) h.listed
          (key_hits_complete h.key h.detection h.seen h.covered h.matched),
  )
