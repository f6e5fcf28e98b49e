-- ===== src/Edge/ReleaseSet/Sound.antt =====
-- What the releases of the set of lib/edgecore/release_set.go have in common, whatever was loaded.
use yu_feng.Base.{
  ℕ, String, ◌≡◌, refl, Bool, true, not, ◌||◌, [], ◌∷◌, Option, none, some, inl, inr, arith, All,
  ltb, str_eq, eq_iff, is_some, if◌then◌else◌,
}
use yu_feng.Base.Assoc.{
  Assoc, lookup, insert, delete, lookup-insert, lookup-delete, All-insert, All-delete,
}
use yu_feng.Base.Result.{ok}
use yu_feng.Kernel.Artifact.{Artifact, Bytes, Crypto, verify_artifact}
use yu_feng.Kernel.Generation.{ReleaseItem}
use yu_feng.Edge.Text.{GoText}
use yu_feng.Edge.Gate.{Counter, ManagedRelease, is_canary, new_counter}
use yu_feng.Edge.Member.{Payloads, Parts}
use yu_feng.Edge.ReleaseSet.{ReleaseSet, apply, expiry, in_range, managed, with_counter}
use yu_feng.Edge.ReleaseSet.Laws.{apply-cases}
use yu_feng.Edge.ReleaseSet.Swap.{carried}

-- A release is filed under its own id, and is not a canary of a percentage out of range.
abbrev pub EntryOk : String × ManagedRelease → Type 0
EntryOk e =
    (e.1.release_id ≡ e.0) × ((not (is_canary e.1.mode) || in_range e.1.canary_percent) ≡ true)

-- The releases that are there are those that have a counter.
abbrev pub Tracked : Assoc ManagedRelease → Assoc Counter → Type 0
Tracked releases counters =
    (id : String) → is_some (lookup id releases) ≡ is_some (lookup id counters)

pub record IsWellFormed {M : Type 0} (s : ReleaseSet M) : Type 0 where
  pub entries : All EntryOk s.releases
  pub tracked : Tracked s.releases s.counters

some-with_counter :
    (id j : String) (counters : Assoc Counter) (o : Option Counter)
    → lookup id counters ≡ o
    → is_some (lookup j (elim o [ none ↦ insert id new_counter counters | some c ↦ counters ]))
      ≡ (if str_eq id j then true else is_some (lookup j counters))
some-with_counter id j counters none e = rw (lookup-insert id j new_counter counters) (ground arith)
some-with_counter id j counters (some c) e = ground (arith, eq_iff id j)

install-Tracked :
    (id : String) (r : ManagedRelease) (releases : Assoc ManagedRelease) (counters : Assoc Counter)
    → Tracked releases counters
    → Tracked (insert id r releases) (with_counter id counters)
install-Tracked id r releases counters h j =
    let hj = h j in
    let e = some-with_counter id j counters (lookup id counters) refl in
    rw (lookup-insert id j r releases, e) (ground arith)

retire-Tracked :
    (id : String) (releases : Assoc ManagedRelease) (counters : Assoc Counter)
    → Tracked releases counters
    → Tracked (delete id releases) (delete id counters)
retire-Tracked id releases counters h j =
    let hj = h j in rw (lookup-delete id j releases, lookup-delete id j counters) (ground arith)

pub carried-Tracked :
    (releases : Assoc ManagedRelease) (old : Assoc Counter)
    → Tracked releases (carried releases old)
unfolding carried lookup
carried-Tracked [] old id = refl
carried-Tracked ((j, r) ∷ rs) old id = let rest = carried-Tracked rs old id in ground arith

module _ {M : Type 0} (g : GoText) (uuid_charset : String → Bool) (p : Payloads M) (c : Crypto)
    (pub_key : Bytes) where
  -- What installing a release gives for it, from the item.
  pub record Fresh (now : ℕ) (item : ReleaseItem) (a : Artifact) : Type 0 where
    pub artifact : item.artifact ≡ some a
    pub verified : verify_artifact c (some a) pub_key ≡ ok tt
    pub in_range : (not (is_canary item.mode) || in_range item.canary_percent) ≡ true
    pub unexpired : ltb now (expiry now a) ≡ true

  -- A predicate that holds of the releases, and of each one that an item may install, holds after it.
  pub apply-All :
      (P : String × ManagedRelease → Type 0) (now : ℕ) (item : ReleaseItem) (s t : ReleaseSet M)
      → ((a : Artifact) (parts : Parts)
          → Fresh now item a
          → P (item.release_id, managed (expiry now a) item a parts))
      → All P s.releases
      → apply g uuid_charset p c pub_key now (some item) s ≡ ok t
      → All P t.releases
  apply-All P now item s t fresh h e =
      elim (apply-cases g uuid_charset p c pub_key now item s t e) [
        | inl gone ↦ rw (gone.releases) (All-delete P item.release_id s.releases h)
        | inr (a, art, ver, inl same) ↦ rw (same.releases) h
        | inr (a, art, ver, inr put) ↦ rw (put.releases) (
            All-insert P item.release_id _ s.releases
              (fresh a put.parts (record {
                artifact = art;
                verified = ver;
                in_range = put.in_range;
                unexpired = put.unexpired;
              }))
              h)
      ]

  pub apply-Tracked :
      (now : ℕ) (item : ReleaseItem) (s t : ReleaseSet M)
      → Tracked s.releases s.counters
      → apply g uuid_charset p c pub_key now (some item) s ≡ ok t
      → Tracked t.releases t.counters
  apply-Tracked now item s t h e = elim (apply-cases g uuid_charset p c pub_key now item s t e) [
    | inl gone ↦
        rw (gone.releases, gone.counters) (retire-Tracked item.release_id s.releases s.counters h)
    | inr (a, art, ver, inl same) ↦ rw (same.releases, same.counters) h
    | inr (a, art, ver, inr put) ↦
        rw (put.releases, put.counters) (install-Tracked item.release_id _ s.releases s.counters h)
  ]
