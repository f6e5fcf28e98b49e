-- ===== src/Edge/Generations/Chain.antt =====
-- The store of lib/edgecore/generation.go over any sequence of loads.
use yu_feng.Base.{ℕ, ◌≡◌, refl, true, false, List, [], ◌∷◌, Option, none, some, arith}
use yu_feng.Kernel.Artifact.{Bytes, Crypto}
use yu_feng.Kernel.Generation.{AssetGeneration, GenerationCodec}
use yu_feng.Edge.Generations.{
  GenerationStore, LoadError, Admission, replace, same, refuse, admit, admitted, generation_error,
  load, loaded,
}
use yu_feng.Edge.Generations.Laws.{Follows, admit_iff}

module _ (c : Crypto) (codec : GenerationCodec) (pub_key : Bytes) where
  -- The current generation was verified, and it follows the previous one where there is one.
  unfoldable pub Chained : Option AssetGeneration → Option AssetGeneration → Type 0
  Chained none none = Unit
  Chained none (some p) = true ≡ false
  Chained (some cur) none = generation_error c codec pub_key cur ≡ none
  Chained (some cur) (some p) = (generation_error c codec pub_key cur ≡ none) × Follows p cur

  unfoldable pub IsChained : GenerationStore → Type 0
  IsChained s = Chained s.current s.prev

  -- The generations of the store are as they were.
  pub record SameGenerations (s t : GenerationStore) : Type 0 where
    pub current : t.current ≡ s.current
    pub prev : t.prev ≡ s.prev

  -- A load that returns an error leaves the current and the previous generation as they were.
  pub load_error_keeps :
      (now : ℕ) (next : Option AssetGeneration) (s : GenerationStore) (e : LoadError)
      → (load c codec pub_key now next s).1 ≡ some e
      → SameGenerations s (load c codec pub_key now next s).0
  unfolding load
  load_error_keeps now none s e h = record { current = refl; prev = refl }
  load_error_keeps now (some next) s e h = ground arith

  unfoldable pub loads : List (ℕ × Option AssetGeneration) → GenerationStore → GenerationStore
  loads [] s = s
  loads ((now, next) ∷ rest) s = loads rest (load c codec pub_key now next s).0

  replaced :
      (cur prev : Option AssetGeneration) (next : AssetGeneration)
      → Chained cur prev
      → generation_error c codec pub_key next ≡ none
      → admit cur next ≡ replace
      → Chained (some next) (elim cur [ none ↦ prev | some g ↦ some g ])
  unfolding Chained
  replaced none none next h valid a = valid
  replaced none (some p) next h valid a = ground arith
  replaced (some g) prev next h valid a = (valid, (admit_iff g next).0 a)

  admitted_Chained :
      (s : GenerationStore) (next : AssetGeneration) (a : Admission)
      → IsChained s
      → generation_error c codec pub_key next ≡ none
      → admit s.current next ≡ a
      → IsChained (admitted s next a).0
  unfolding IsChained
  admitted_Chained s next (refuse e) h valid eq = h
  admitted_Chained s next same h valid eq = h
  admitted_Chained s next replace h valid eq = replaced s.current s.prev next h valid eq

  loaded_Chained :
      (now : ℕ) (next : AssetGeneration) (s : GenerationStore) (e : Option LoadError)
      → IsChained s
      → generation_error c codec pub_key next ≡ e
      → IsChained (loaded now next s e).0
  unfolding IsChained
  loaded_Chained now next s (some e) h eq = h
  loaded_Chained now next s none h eq =
      let replaced = admitted_Chained s next (admit s.current next) h eq refl in ground arith

  load-IsChained :
      (now : ℕ) (next : Option AssetGeneration) (s : GenerationStore)
      → IsChained s
      → IsChained (load c codec pub_key now next s).0
  unfolding load IsChained
  load-IsChained now none s h = h
  load-IsChained now (some next) s h =
      loaded_Chained now next s (generation_error c codec pub_key next) h refl

  -- Whatever generations are loaded, at whatever times, into an empty store or one where this holds
  -- already, the current one has passed every check of a generation by itself, and where there is a
  -- previous one the current one follows it.
  pub loads-IsChained :
      (rest : List (ℕ × Option AssetGeneration)) (s : GenerationStore)
      → IsChained s
      → IsChained (loads rest s)
  unfolding loads
  loads-IsChained [] s h = h
  loads-IsChained ((now, next) ∷ rest) s h =
      loads-IsChained rest (load c codec pub_key now next s).0 (load-IsChained now next s h)
