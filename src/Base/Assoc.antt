-- ===== src/Base/Assoc.antt =====
-- Go maps with string keys, as association lists. `insert` replaces in place and `delete` removes
-- every entry of the key, so that a key stands once.
use Prim.Native.Nat.{ℕ, suc, ◌+◌, ◌≤◌}
use Prim.Native.String.{String}
use mathlib.Core.Path.{◌≡◌, refl, subst}
use mathlib.Core.Bool.{true}
use mathlib.Core.Option.{Option, none, some}
use mathlib.Core.List.{List, [], ◌∷◌}
use native.Mathlib.Omega.{arith}
use text.Mathlib.Text.{◌==◌ as str_eq}
use text.Mathlib.TextEquality.{eq_iff}
use mathlib.Core.Logic.{inl, inr}
use yu_feng.Base.Lists.{All, length}
use yu_feng.Base.Tests.{if◌then◌else◌, Bool-cases}

abbrev pub Assoc {ℓ} : Type ℓ → Type ℓ
Assoc V = List (String × V)

module _ {ℓ} {V : Type ℓ} where
  unfoldable pub lookup : String → Assoc V → Option V
  lookup key [] = none
  lookup key ((name, held) ∷ rest) = if str_eq name key then some held else lookup key rest

  unfoldable pub insert : String → V → Assoc V → Assoc V
  insert key new [] = (key, new) ∷ []
  insert key new ((name, held) ∷ rest) =
      if str_eq name key then (key, new) ∷ rest else (name, held) ∷ insert key new rest

  unfoldable pub delete : String → Assoc V → Assoc V
  delete key [] = []
  delete key ((name, held) ∷ rest) =
      if str_eq name key then delete key rest else (name, held) ∷ delete key rest

  pub lookup-insert :
      (key asked : String) (new : V) (entries : Assoc V)
      → lookup asked (insert key new entries)
        ≡ (if str_eq key asked then some new else lookup asked entries)
  unfolding lookup insert
  lookup-insert key asked new [] = refl
  lookup-insert key asked new ((name, held) ∷ rest) =
      let later = lookup-insert key asked new rest in
      ground (arith, eq_iff name asked, eq_iff name key, eq_iff key asked)

  pub lookup-delete :
      (key asked : String) (entries : Assoc V)
      → lookup asked (delete key entries)
        ≡ (if str_eq key asked then none else lookup asked entries)
  unfolding lookup delete
  lookup-delete key asked [] = ground arith
  lookup-delete key asked ((name, held) ∷ rest) =
      let later = lookup-delete key asked rest in
      ground (arith, eq_iff name key, eq_iff name asked, eq_iff key asked)

  pub All-insert {κ} :
      (P : String × V → Type κ) (k : String) (v : V) (m : Assoc V)
      → P (k, v)
      → All P m
      → All P (insert k v m)
  unfolding insert
  All-insert P k v [] h hm = (h, tt)
  All-insert P k v ((j, w) ∷ m) h hm = elim (Bool-cases (str_eq j k)) [
    | inl hit ↦ rw (hit, insert) (h, hm.1)
    | inr miss ↦ rw (miss, insert) (hm.0, All-insert P k v m h hm.1)
  ]

  pub All-delete {κ} :
      (P : String × V → Type κ) (k : String) (m : Assoc V) → All P m → All P (delete k m)
  unfolding delete
  All-delete P k [] hm = hm
  All-delete P k ((j, w) ∷ m) hm = elim (Bool-cases (str_eq j k)) [
    | inl hit ↦ rw (hit, delete) (All-delete P k m hm.1)
    | inr miss ↦ rw (miss, delete) (hm.0, All-delete P k m hm.1)
  ]

  -- The key stands once at most.
  abbrev pub IsSingle : String → Assoc V → Type ℓ
  IsSingle key [] = Unit
  IsSingle key ((name, held) ∷ rest) =
      (str_eq name key ≡ true → lookup key rest ≡ none) × IsSingle key rest

  pub insert-IsSingle :
      (key other : String) (new : V) (entries : Assoc V)
      → IsSingle key entries
      → IsSingle key (insert other new entries)
  unfolding insert lookup
  insert-IsSingle key other new [] h = (λ e. refl, tt)
  insert-IsSingle key other new ((name, held) ∷ rest) h = elim (Bool-cases (str_eq name other)) [
    | inl hit ↦
        let same : name ≡ other = ground (arith, hit, eq_iff name other) in
        rw (hit) (λ e. h.0 (rw (same) e), h.1)
    | inr miss ↦ rw (miss) (
      λ e.
          let own : name ≡ key = ground (arith, e, eq_iff name key) in
          rw (lookup-insert other key new rest)
            (ground (arith, miss, h.0 e, eq_iff name other, eq_iff other key, own)),
      insert-IsSingle key other new rest h.1,
    )
  ]

  pub delete-IsSingle :
      (key other : String) (entries : Assoc V)
      → IsSingle key entries
      → IsSingle key (delete other entries)
  unfolding delete
  delete-IsSingle key other [] h = tt
  delete-IsSingle key other ((name, held) ∷ rest) h = elim (Bool-cases (str_eq name other)) [
    | inl hit ↦ rw (hit) (delete-IsSingle key other rest h.1)
    | inr miss ↦ rw (miss) (
      λ e. rw (lookup-delete other key rest) (ground (arith, h.0 e)),
      delete-IsSingle key other rest h.1,
    )
  ]

  -- A sum over the entries.
  unfoldable pub total : (V → ℕ) → Assoc V → ℕ
  total f [] = 0
  total f ((name, held) ∷ rest) = f held + total f rest

  pub total-insert :
      (f : V → ℕ) (key : String) (old new : V) (entries : Assoc V)
      → lookup key entries ≡ some old
      → total f (insert key new entries) + f old ≡ total f entries + f new
  unfolding lookup insert total
  total-insert f key old new [] h = cc
  total-insert f key old new ((name, held) ∷ rest) h =
      let later = total-insert f key old new rest in ground arith

  pub total-insert_new :
      (f : V → ℕ) (key : String) (new : V) (entries : Assoc V)
      → lookup key entries ≡ none
      → total f (insert key new entries) ≡ total f entries + f new
  unfolding lookup insert total
  total-insert_new f key new [] h = omega arith
  total-insert_new f key new ((name, held) ∷ rest) h =
      let later = total-insert_new f key new rest in ground arith

  pub length-insert_le :
      (key : String) (new : V) (entries : Assoc V)
      → length (insert key new entries) ≤ suc (length entries)
  unfolding insert
  length-insert_le key new [] = omega arith
  length-insert_le key new ((name, held) ∷ rest) =
      let later = length-insert_le key new rest in ground arith

  delete_absent :
      (key : String) (entries : Assoc V) → lookup key entries ≡ none → delete key entries ≡ entries
  unfolding lookup delete
  delete_absent key [] h = refl
  delete_absent key ((name, held) ∷ rest) h = let later = delete_absent key rest in ground arith

  pub total-delete :
      (f : V → ℕ) (key : String) (old : V) (entries : Assoc V)
      → IsSingle key entries
      → lookup key entries ≡ some old
      → total f (delete key entries) + f old ≡ total f entries
  unfolding lookup delete total
  total-delete f key old [] h e = cc
  total-delete f key old ((name, held) ∷ rest) h e = elim (Bool-cases (str_eq name key)) [
    | inl hit ↦
        let same : held ≡ old = ground (arith, hit) in
        rw (hit, delete_absent key rest (h.0 hit), same) (omega arith)
    | inr miss ↦
        let found : lookup key rest ≡ some old = ground (arith, miss) in
        let later = total-delete f key old rest h.1 found in rw (miss, total) (omega arith)
  ]

  pub All-lookup {κ} :
      (P : V → Type κ) (key : String) (found : V) (entries : Assoc V)
      → All (λ e. P e.1) entries
      → lookup key entries ≡ some found
      → P found
  unfolding lookup
  All-lookup P key found [] h e = ground arith
  All-lookup P key found ((name, held) ∷ rest) h e = elim (Bool-cases (str_eq name key)) [
    | inl hit ↦ let same : held ≡ found = ground (arith, hit) in subst P same h.0
    | inr miss ↦
        let later : lookup key rest ≡ some found = ground (arith, miss) in
        All-lookup P key found rest h.1 later
  ]

pub ruleset map_laws = (lookup-insert, lookup-delete)
