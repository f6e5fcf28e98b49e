-- ===== src/Edge/ReleaseSet/Atomic.antt =====
-- Replacing the whole set of lib/edgecore/release_set.go by a signed generation or a snapshot.
use yu_feng.Base.{
  ℕ, String, ◌≡◌, refl, ◌∙◌, Bool, true, false, List, [], ◌∷◌, Option, none, some, ◌⊎◌, inl, inr,
  arith, All, Bool-cases,
}
use yu_feng.Base.Result.{Result, ok, err, ◌>>=◌, >>=-eq-ok, ok_injective}
use yu_feng.Kernel.Artifact.{Artifact, Bytes, Crypto}
use yu_feng.Kernel.Generation.{AssetGeneration, GenerationCodec, ReleaseItem}
use yu_feng.Edge.Text.{GoText}
use yu_feng.Edge.Generations.{GenerationStore, load, LoadError}
use yu_feng.Edge.Gate.{ManagedRelease}
use yu_feng.Edge.Member.{ApplyError, Payloads, Parts}
use yu_feng.Edge.ReleaseSet.{ReleaseSet, apply, expiry, managed}
use yu_feng.Edge.ReleaseSet.Sound.{EntryOk, Fresh, apply-All}
use yu_feng.Edge.ReleaseSet.Swap.{
  activate, persisted, apply_all, apply_generation, build_generation, next_of, store_of, swap_from,
  validate_generation_dependencies,
}

-- The item is one of the members.
pub IsMember : ReleaseItem → List (Option ReleaseItem) → Type 0
IsMember item [] = true ≡ false
IsMember item (o ∷ items) = (o ≡ some item) ⊎ IsMember item items

module _ {M : Type 0} (g : GoText) (uuid_charset : String → Bool) (p : Payloads M) (c : Crypto)
    (pub_key : Bytes) where
  apply_all-All :
      (P : String × ManagedRelease → Type 0) (now : ℕ) (items : List (Option ReleaseItem))
      (s t : ReleaseSet M)
      → ((item : ReleaseItem) (a : Artifact) (parts : Parts)
          → IsMember item items
          → Fresh g uuid_charset p c pub_key now item a
          → P (item.release_id, managed (expiry now a) item a parts))
      → All P s.releases
      → apply_all g uuid_charset p c pub_key now items s ≡ ok t
      → All P t.releases
  unfolding apply_all IsMember
  apply_all-All P now [] s t fresh h e = rw (← ok_injective e) h
  apply_all-All P now (none ∷ items) s t fresh h e =
      apply_all-All P now items s t (λ item a parts m. fresh item a parts (inr m)) h e
  apply_all-All P now (some item ∷ items) s t fresh h e =
      let (u, e1, e2) =
        >>=-eq-ok (apply g uuid_charset p c pub_key now (some item) s)
          (apply_all g uuid_charset p c pub_key now items) e in
      apply_all-All P now items u t (λ i a parts m. fresh i a parts (inr m))
        (apply-All g uuid_charset p c pub_key P now item s u
          (λ a parts f. fresh item a parts (inl refl) f) h e1)
        e2

  -- A release of the set is backed by a member: it has the member's id, mode and percentage, and its
  -- artifact was verified, had not run out and is the one that the release names.
  pub record Backed (now : ℕ) (items : List (Option ReleaseItem)) (e : String × ManagedRelease)
      : Type 0 where
    pub item : ReleaseItem
    pub artifact : Artifact
    pub member : IsMember item items
    pub fresh : Fresh g uuid_charset p c pub_key now item artifact
    pub id : item.release_id ≡ e.0
    pub artifact_id : e.1.artifact_id ≡ artifact.id
    pub mode : e.1.mode ≡ item.mode
    pub canary_percent : e.1.canary_percent ≡ item.canary_percent
    pub expires_at : e.1.expires_at ≡ expiry now artifact

  apply_all-Backed :
      (now : ℕ) (items : List (Option ReleaseItem)) (s t : ReleaseSet M)
      → apply_all g uuid_charset p c pub_key now items (next_of s) ≡ ok t
      → All (Backed now items) t.releases
  apply_all-Backed now items s t e =
      apply_all-All (Backed now items) now items (next_of s) t
        (λ item a parts m f. record {
          item = item;
          artifact = a;
          member = m;
          fresh = f;
          id = refl;
          artifact_id = refl;
          mode = refl;
          canary_percent = refl;
          expires_at = refl;
        })
        tt e

  pub apply_all-EntryOk :
      (now : ℕ) (items : List (Option ReleaseItem)) (s t : ReleaseSet M)
      → apply_all g uuid_charset p c pub_key now items (next_of s) ≡ ok t
      → All EntryOk t.releases
  apply_all-EntryOk now items s t e =
      apply_all-All EntryOk now items (next_of s) t (λ item a parts m f. (refl, f.in_range)) tt e

  -- What a build goes through.
  pub built :
      (now : ℕ) (gen : AssetGeneration) (s next : ReleaseSet M)
      → build_generation g uuid_charset p c pub_key now gen s ≡ ok next
      → (apply_all g uuid_charset p c pub_key now gen.members (next_of s) ≡ ok next)
        × (validate_generation_dependencies g uuid_charset p gen next ≡ ok tt)
  unfolding build_generation
  built now gen s next h =
      let (n, e, h') =
        >>=-eq-ok (apply_all g uuid_charset p c pub_key now gen.members (next_of s))
          (λ n. validate_generation_dependencies g uuid_charset p gen n >>= λ _. ok n) h in
      let (u, e', h'') =
        >>=-eq-ok (validate_generation_dependencies g uuid_charset p gen n) (λ _. ok n) h' in
      (e ∙ h'', (rw (← ok_injective h'') e'))

  -- The set was replaced by what was built.
  abbrev pub Swapped :
      ℕ → AssetGeneration → Option AssetGeneration → ReleaseSet M → ReleaseSet M → Type 0
  Swapped now gen active s t =
      (next : ReleaseSet M) × (build_generation g uuid_charset p c pub_key now gen s ≡ ok next)
      × (t ≡ swap_from next active s)

  activated :
      (now : ℕ) (persist : Option AssetGeneration → AssetGeneration → Bool) (gen : AssetGeneration)
      (store : GenerationStore) (s : ReleaseSet M) (r : Result ApplyError (ReleaseSet M))
      → build_generation g uuid_charset p c pub_key now gen s ≡ r
      → (persisted persist gen store s r).1 ≡ none
      → Swapped now gen store.current s (persisted persist gen store s r).0
  activated now persist gen store s (err e) b h = cc
  activated now persist gen store s (ok next) b h = elim (Bool-cases (persist s.active_gen gen)) [
    | inl fine ↦ rw (fine) (next, b, refl)
    | inr bad ↦ ground arith
  ]

  activate_swaps :
      (now : ℕ) (persist : Option AssetGeneration → AssetGeneration → Bool) (gen : AssetGeneration)
      (s : ReleaseSet M) (store : GenerationStore) (e : Option LoadError)
      → (activate g uuid_charset p c pub_key now persist gen s store e).1 ≡ none
      → Swapped now gen store.current s
          (activate g uuid_charset p c pub_key now persist gen s store e).0
  activate_swaps now persist gen s store (some e) h = cc
  activate_swaps now persist gen s store none h =
      activated now persist gen store s (build_generation g uuid_charset p c pub_key now gen s) refl
        h

  pub generation_swaps :
      (codec : GenerationCodec) (now : ℕ)
      (persist : Option AssetGeneration → AssetGeneration → Bool) (gen : AssetGeneration)
      (s : ReleaseSet M)
      → (apply_generation g uuid_charset p c pub_key codec now persist (some gen) s).1 ≡ none
      → Swapped now gen
          (load c codec pub_key now (some gen) (store_of s)).0.current
          s
          (apply_generation g uuid_charset p c pub_key codec now persist (some gen) s).0
  unfolding apply_generation
  generation_swaps codec now persist gen s h =
      activate_swaps now persist gen s (load c codec pub_key now (some gen) (store_of s)).0
        (load c codec pub_key now (some gen) (store_of s)).1 h

  -- Where a generation is applied with no error, every release that is then in force is backed by one of
  -- its members: verified with the key, not out of date, and a canary only of a percentage in range.
  pub apply_generation-Backed :
      (codec : GenerationCodec) (now : ℕ)
      (persist : Option AssetGeneration → AssetGeneration → Bool) (gen : AssetGeneration)
      (s : ReleaseSet M)
      → (apply_generation g uuid_charset p c pub_key codec now persist (some gen) s).1 ≡ none
      → All
          (Backed now gen.members)
          (apply_generation g uuid_charset p c pub_key codec now persist (some gen) s).0.releases
  unfolding swap_from
  apply_generation-Backed codec now persist gen s h =
      let (next, b, e) = generation_swaps codec now persist gen s h in
      rw (e, swap_from) (apply_all-Backed now gen.members s next (built now gen s next b).0)

  persisted_keeps :
      (persist : Option AssetGeneration → AssetGeneration → Bool) (gen : AssetGeneration)
      (store : GenerationStore) (s : ReleaseSet M) (r : Result ApplyError (ReleaseSet M))
      (e : ApplyError)
      → (persisted persist gen store s r).1 ≡ some e
      → (persisted persist gen store s r).0 ≡ s
  persisted_keeps persist gen store s (err e') e h = refl
  persisted_keeps persist gen store s (ok next) e h = elim (Bool-cases (persist s.active_gen gen)) [
    | inl fine ↦ ground arith
    | inr bad ↦ rw (bad) refl
  ]

  activate_keeps :
      (now : ℕ) (persist : Option AssetGeneration → AssetGeneration → Bool) (gen : AssetGeneration)
      (s : ReleaseSet M) (store : GenerationStore) (o : Option LoadError) (e : ApplyError)
      → (activate g uuid_charset p c pub_key now persist gen s store o).1 ≡ some e
      → (activate g uuid_charset p c pub_key now persist gen s store o).0 ≡ s
  activate_keeps now persist gen s store (some e') e h = refl
  activate_keeps now persist gen s store none e h =
      persisted_keeps persist gen store s (build_generation g uuid_charset p c pub_key now gen s) e
        h

  -- Where a generation is refused, for whatever reason, the whole set is as it was.
  pub apply_generation_atomic :
      (codec : GenerationCodec) (now : ℕ)
      (persist : Option AssetGeneration → AssetGeneration → Bool) (gen : Option AssetGeneration)
      (s : ReleaseSet M) (e : ApplyError)
      → (apply_generation g uuid_charset p c pub_key codec now persist gen s).1 ≡ some e
      → (apply_generation g uuid_charset p c pub_key codec now persist gen s).0 ≡ s
  unfolding apply_generation
  apply_generation_atomic codec now persist none s e h = refl
  apply_generation_atomic codec now persist (some gen) s e h =
      activate_keeps now persist gen s (load c codec pub_key now (some gen) (store_of s)).0
        (load c codec pub_key now (some gen) (store_of s)).1 e h
