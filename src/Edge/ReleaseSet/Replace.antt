-- ===== src/Edge/ReleaseSet/Replace.antt =====
-- The invariant of the set of lib/edgecore/release_set.go, through a replacement of the whole set.
use yu_feng.Base.{ℕ, String, ◌≡◌, refl, Bool, List, Option, none, some, inl, inr, Option-cases}
use yu_feng.Base.Result.{Result, ok, err}
use yu_feng.Kernel.Artifact.{Bytes, Crypto}
use yu_feng.Kernel.Generation.{AssetGeneration, GenerationCodec, ReleaseItem}
use yu_feng.Edge.Text.{GoText}
use yu_feng.Edge.Member.{ApplyError, Payloads}
use yu_feng.Edge.ReleaseSet.{ReleaseSet}
use yu_feng.Edge.ReleaseSet.Sound.{IsWellFormed, carried-Tracked}
use yu_feng.Edge.ReleaseSet.Swap.{
  taken, apply_all, apply_generation, apply_snapshot, next_of, swap_from,
}
use yu_feng.Edge.ReleaseSet.Atomic.{
  apply_all-EntryOk, built, generation_swaps, apply_generation_atomic,
}

module _ {M : Type 0} (g : GoText) (uuid_charset : String → Bool) (p : Payloads M) (c : Crypto)
    (pub_key : Bytes) where
  swap-IsWellFormed :
      (now : ℕ) (items : List (Option ReleaseItem)) (active : Option AssetGeneration)
      (s next : ReleaseSet M)
      → apply_all g uuid_charset p c pub_key now items (next_of s) ≡ ok next
      → IsWellFormed (swap_from next active s)
  unfolding swap_from
  swap-IsWellFormed now items active s next e = record {
    entries = apply_all-EntryOk g uuid_charset p c pub_key now items s next e;
    tracked = carried-Tracked next.releases s.counters;
  }

  pub apply_generation-IsWellFormed :
      (codec : GenerationCodec) (now : ℕ)
      (persist : Option AssetGeneration → AssetGeneration → Bool) (gen : AssetGeneration)
      (s : ReleaseSet M)
      → IsWellFormed s
      → IsWellFormed (apply_generation g uuid_charset p c pub_key codec now persist (some gen) s).0
  apply_generation-IsWellFormed codec now persist gen s h =
      elim (Option-cases
        (apply_generation g uuid_charset p c pub_key codec now persist (some gen) s).1) [
          | inl fine ↦
              let (next, b, e) =
                generation_swaps g uuid_charset p c pub_key codec now persist gen s fine in
              rw (e) (
                swap-IsWellFormed now gen.members _ s next
                  (built g uuid_charset p c pub_key now gen s next b).0)
          | inr (e, bad) ↦
              rw
                (apply_generation_atomic g uuid_charset p c pub_key codec now persist (some gen) s e
                  bad)
                h
        ]

  snapshot_step :
      (now : ℕ) (items : List (Option ReleaseItem)) (s : ReleaseSet M)
      (r : Result ApplyError (ReleaseSet M))
      → apply_all g uuid_charset p c pub_key now items (next_of s) ≡ r
      → IsWellFormed s
      → IsWellFormed (taken s r).0
  snapshot_step now items s (err e) b h = h
  snapshot_step now items s (ok next) b h = swap-IsWellFormed now items none s next b

  pub apply_snapshot-IsWellFormed :
      (now : ℕ) (items : List (Option ReleaseItem)) (s : ReleaseSet M)
      → IsWellFormed s
      → IsWellFormed (apply_snapshot g uuid_charset p c pub_key now items s).0
  unfolding apply_snapshot
  apply_snapshot-IsWellFormed now items s h =
      snapshot_step now items s (apply_all g uuid_charset p c pub_key now items (next_of s)) refl h
