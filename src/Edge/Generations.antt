-- ===== src/Edge/Generations.antt =====
-- lib/edgecore/generation.go: the store of the current and the previous generation. Times are in
-- nanoseconds, and sequence numbers are below the largest int64.
pub mod Laws
pub mod Chain
use yu_feng.Base.{
  ℕ, String, Bool, true, false, not, ◌&&◌, ◌||◌, ◌+◌, ◌*◌, ◌^◌, List, [], ◌∷◌, Option, none, some,
  ◌==◌, ltb, str_eq, is_empty, if◌then◌else◌,
}
use yu_feng.Base.Result.{Result, ok, err}
use yu_feng.Kernel.Artifact.{
  Artifact, Bytes, Crypto, Kind, KernelError, verify_artifact, listen_plan,
}
use yu_feng.Kernel.Generation.{ReleaseItem, AssetGeneration, GenerationCodec, verify_generation}

pub record GenerationStore : Type 0 where
  pub current : Option AssetGeneration
  pub prev : Option AssetGeneration
  pub load_errors : ℕ
  pub disk_full : Bool
  pub degraded : Bool

pub data LoadError : Type 0 where
  incomplete member_incomplete listen_plan_member not_yet_valid full_disk asset_changed : LoadError
  seq_conflict older_needs_rollback rollback_parent seq_skip parent_mismatch rollback_of_other :
      LoadError
  bad_member bad_envelope : KernelError → LoadError

abbrev pub empty_store : GenerationStore
empty_store = record {
  current = none;
  prev = none;
  load_errors = 0;
  disk_full = false;
  degraded = false;
}

-- kernel.ClockSkew
abbrev pub clock_skew : ℕ
clock_skew = 60 * 10 ^ 9

abbrev pub is_listen_plan : Kind → Bool
is_listen_plan listen_plan = true
is_listen_plan _ = false

-- What the checks of a generation by itself come to: an error, which is counted, or none.
abbrev failed :
    Result KernelError (Unit {0}) → (KernelError → LoadError) → Option LoadError → Option LoadError
failed (ok _) wrap rest = rest
failed (err e) wrap rest = some (wrap e)

module _ (c : Crypto) (codec : GenerationCodec) (pub_key : Bytes) where
  member_error : Option ReleaseItem → Option LoadError
  member_error none = some member_incomplete
  member_error (some m) = elim m.artifact [
    | none ↦ some member_incomplete
    | some a ↦
        if is_empty m.release_id
        then some member_incomplete
        else if is_listen_plan a.kind
        then some listen_plan_member
        else failed (verify_artifact c (some a) pub_key) bad_member none
  ]

  members_error : List (Option ReleaseItem) → Option LoadError
  members_error [] = none
  members_error (m ∷ ms) = elim (member_error m) [ some e ↦ some e | none ↦ members_error ms ]

  unfoldable pub generation_error : AssetGeneration → Option LoadError
  unfolding members_error member_error
  generation_error next =
      if is_empty next.asset_id || next.generation_seq == 0
      then some incomplete
      else elim (members_error next.members) [
        | some e ↦ some e
        | none ↦ failed (verify_generation c codec (some next) pub_key) bad_envelope none
      ]

-- What the order of generations makes of a valid one.
pub data Admission : Type 0 where
  replace same : Admission
  refuse : LoadError → Admission

unfoldable pub admit : Option AssetGeneration → AssetGeneration → Admission
admit none next = replace
admit (some cur) next =
    if not (str_eq next.asset_id cur.asset_id)
    then refuse asset_changed
    else if next.generation_seq == cur.generation_seq
    then (if str_eq next.generation_id cur.generation_id then same else refuse seq_conflict)
    else if ltb next.generation_seq cur.generation_seq
        && not (next.rollback_of == cur.generation_seq)
    then refuse older_needs_rollback
    else if ltb next.generation_seq cur.generation_seq
        && not (str_eq next.parent_generation_id cur.generation_id)
    then refuse rollback_parent
    else if ltb (cur.generation_seq + 1) next.generation_seq
    then refuse seq_skip
    else if next.generation_seq == cur.generation_seq + 1
        && not (str_eq next.parent_generation_id cur.generation_id)
    then refuse parent_mismatch
    else if not (next.rollback_of == 0) && not (next.rollback_of == cur.generation_seq)
    then refuse rollback_of_other
    else replace

-- `time.Until(not_before) > ClockSkew`
abbrev pub too_early : Option ℕ → ℕ → Bool
too_early none now = false
too_early (some t) now = ltb (now + clock_skew) t

abbrev admitted : GenerationStore → AssetGeneration → Admission → GenerationStore × Option LoadError
admitted s next (refuse e) = (s, some e)
admitted s next same = (s, none)
admitted s next replace = (
  record s { prev = elim s.current [ none ↦ s.prev | some cur ↦ some cur ]; current = some next },
  none,
)

-- What is left of `Load` once the generation was checked by itself.
abbrev loaded :
    ℕ → AssetGeneration → GenerationStore → Option LoadError → GenerationStore × Option LoadError
loaded now next s (some e) = (record s { load_errors = s.load_errors + 1 }, some e)
loaded now next s none =
    if too_early next.not_before now
    then (s, some not_yet_valid)
    else if s.disk_full
    then (record s { degraded = true }, some full_disk)
    else admitted s next (admit s.current next)

-- `SetDiskFull`
unfoldable pub set_disk_full : Bool → GenerationStore → GenerationStore
set_disk_full full s = record s { disk_full = full; degraded = full || s.degraded }

module _ (c : Crypto) (codec : GenerationCodec) (pub_key : Bytes) where
  -- `GenerationStore.Load`: the store, and the error where there is one.
  unfoldable pub load :
      ℕ → Option AssetGeneration → GenerationStore → GenerationStore × Option LoadError
  load now none s = (record s { load_errors = s.load_errors + 1 }, some incomplete)
  load now (some next) s = loaded now next s (generation_error c codec pub_key next)
