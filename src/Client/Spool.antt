-- ===== src/Client/Spool.antt =====
-- lib/edgeclient/spool.go: events that wait on disk for their upload. The directory is kept by the
-- stems of its files: `stem.ndjson` waits, `stem.corrupt` is kept as evidence and `stem.ndjson.tmp`
-- is being written; the stems start with "events-". os.ReadDir lists by name, so the sort of Files
-- changes nothing. Sizes of files add up to less than 2 ^ 63, as an int64 holds them, and fewer events
-- than that are turned away. The metric that Append counts up is left out.
pub mod Rewrite
pub mod Written
pub mod Counted
pub mod Kept
pub mod Resolved
pub mod Reads
use yu_feng.Base.{
  ℕ, zero, suc, String, Bool, true, false, not, ◌&&◌, ◌||◌, ◌+◌, ◌-◌, ◌*◌, ◌/◌, ◌%◌, ◌^◌, List, [],
  ◌∷◌, ◌++◌, map, Option, none, some, ◌==◌, ltb, leb, length, is_some, if◌then◌else◌,
}
use yu_feng.Base.Assoc.{Assoc, lookup, insert, delete, total}
use yu_feng.Base.Result.{Result, ok, err, ◌>>=◌, or_fail}
use yu_feng.Kernel.Artifact.{Bytes}
use yu_feng.Client.Lines.{lines_of, newline}
use yu_feng.Client.Events.{
  Event, EventCodec, is_ordinary_sample, is_critical, one_if, event_class_counts,
}

pub record Folder : Type 0 where
  pub segments : Assoc Bytes
  pub corrupt : Assoc Bytes
  pub temps : Assoc Bytes

-- MaxBytes and MaxFiles are 0 where the source's are not positive.
pub record Spool : Type 0 where
  pub folder : Folder
  pub max_bytes : ℕ
  pub max_files : ℕ
  pub rejected : ℕ
  pub dropped : ℕ
  pub buffered_critical : ℕ
  pub buffered_ordinary : ℕ
  pub dropped_critical : ℕ
  pub dropped_ordinary : ℕ

pub data SpoolError : Type 0 where
  not_marshalled capacity_exceeded call_failed not_parsed : SpoolError

-- What comes of a write: all bytes, or an error after some of them.
pub data Write : Type 0 where
  all_bytes : Write
  bytes_only : ℕ → Write

-- What the calls of the operating system in one function come to.
pub record Calls : Type 0 where
  pub listed : Bool
  pub read : Bool
  pub opened : Bool
  pub write : Write
  pub removed : Bool
  pub renamed : Bool

-- kernel.EdgeTelemetrySpoolBytes and defaultSpoolMaxFiles.
abbrev pub spool_bytes : ℕ
spool_bytes = 64 * 1024 * 1024

abbrev pub default_spool_max_files : ℕ
default_spool_max_files = 64

-- `a += b` and the clamped `a -= b` on uint64.
abbrev pub uint64_add : ℕ → ℕ → ℕ
uint64_add a b = (a + b) % 2 ^ 64

abbrev pub clamped_sub : ℕ → ℕ → ℕ
clamped_sub a b = if ltb a b then 0 else a - b

abbrev take_bytes : ℕ → Bytes → Bytes
take_bytes n [] = []
take_bytes zero (c ∷ cs) = []
take_bytes (suc n) (c ∷ cs) = c ∷ take_bytes n cs

-- The bytes that a write adds.
abbrev pub bytes_of : Write → Bytes → Bytes
bytes_of all_bytes raw = raw
bytes_of (bytes_only n) raw = take_bytes n raw

abbrev pub is_complete : Write → Bool
is_complete all_bytes = true
is_complete (bytes_only n) = false

abbrev pub or_nothing : Option Bytes → Bytes
or_nothing none = []
or_nothing (some raw) = raw

abbrev pub with_folder : Spool → Folder → Spool
with_folder s d = record {
  folder = d;
  max_bytes = s.max_bytes;
  max_files = s.max_files;
  rejected = s.rejected;
  dropped = s.dropped;
  buffered_critical = s.buffered_critical;
  buffered_ordinary = s.buffered_ordinary;
  dropped_critical = s.dropped_critical;
  dropped_ordinary = s.dropped_ordinary;
}

abbrev pub with_buffered : Spool → ℕ → ℕ → Spool
with_buffered s critical ordinary = record {
  folder = s.folder;
  max_bytes = s.max_bytes;
  max_files = s.max_files;
  rejected = s.rejected;
  dropped = s.dropped;
  buffered_critical = critical;
  buffered_ordinary = ordinary;
  dropped_critical = s.dropped_critical;
  dropped_ordinary = s.dropped_ordinary;
}

unfoldable pub remove_buffered : ℕ × ℕ → Spool → Spool
remove_buffered counts s =
    with_buffered s (clamped_sub s.buffered_critical counts.0)
      (clamped_sub s.buffered_ordinary counts.1)

unfoldable pub add_buffered : ℕ × ℕ → Spool → Spool
add_buffered counts s =
    with_buffered s (uint64_add s.buffered_critical counts.0)
      (uint64_add s.buffered_ordinary counts.1)

abbrev pub or_default : ℕ → ℕ → ℕ
or_default zero d = d
or_default (suc n) d = suc n

abbrev pub folder_size : Folder → ℕ
folder_size d = total length d.segments + total length d.corrupt + total length d.temps

abbrev pub folder_files : Folder → ℕ
folder_files d = length d.segments + length d.corrupt + length d.temps

unfoldable pub over_limit : Calls → ℕ → Spool → Bool
over_limit calls extra s =
    calls.listed
    && (ltb (or_default s.max_files default_spool_max_files) (folder_files s.folder)
        || ltb (or_default s.max_bytes spool_bytes) (folder_size s.folder + extra))

-- Append turns an event away.
unfoldable pub turned_away : Event → Spool → Spool
turned_away e s = record {
  folder = s.folder;
  max_bytes = s.max_bytes;
  max_files = s.max_files;
  rejected = suc s.rejected;
  dropped = suc s.dropped;
  buffered_critical = s.buffered_critical;
  buffered_ordinary = s.buffered_ordinary;
  dropped_critical = uint64_add s.dropped_critical (one_if (is_critical (some e)));
  dropped_ordinary = uint64_add s.dropped_ordinary (one_if (is_ordinary_sample (some e)));
}

-- A file is opened for appending, and made where it is missing.
abbrev pub extended : String → Bytes → Assoc Bytes → Assoc Bytes
extended stem raw files = insert stem (or_nothing (lookup stem files) ++ raw) files

abbrev pub with_segments : Folder → Assoc Bytes → Folder
with_segments d files = record { segments = files; corrupt = d.corrupt; temps = d.temps }

-- Every line is an event, or there is an error.
unfoldable pub parse_lines : List (Option Event) → Result SpoolError (List Event)
parse_lines [] = ok []
parse_lines (none ∷ es) = err not_parsed
parse_lines (some e ∷ es) = parse_lines es >>= λ rest. ok (e ∷ rest)

module _ (codec : EventCodec) where
  -- The lines of a file that are events, and the others.
  unfoldable pub file_events : Bytes → List (Option Event)
  file_events raw = map codec.unmarshal (lines_of raw)

  unfoldable pub counts_at : Option Bytes → ℕ × ℕ
  counts_at none = (0, 0)
  counts_at (some raw) = event_class_counts (file_events raw)

  unfoldable pub file_class_counts : Calls → String → Folder → ℕ × ℕ
  file_class_counts calls stem d = if calls.read then counts_at (lookup stem d.segments) else (0, 0)

  unfoldable pub read_events : Calls → String → Folder → Result SpoolError (List Event)
  read_events calls stem d =
      if calls.read
      then or_fail (lookup stem d.segments) call_failed >>= (λ raw. parse_lines (file_events raw))
      else err call_failed

  -- The counts of a segment that NewSpool reads; one that it cannot read counts nothing.
  abbrev pub counted : Result SpoolError (List Event) → Spool → Spool
  counted (err e) s = s
  counted (ok es) s = add_buffered (event_class_counts (map some es)) s

  unfoldable pub count_segments : Calls → Assoc Bytes → Spool → Spool
  count_segments calls [] s = s
  count_segments calls ((stem, raw) ∷ files) s =
      count_segments calls files (counted (read_events calls stem s.folder) s)

  -- NewSpool on a directory that is there.
  unfoldable pub new_spool : Calls → Folder → Result SpoolError Spool
  new_spool calls d =
      if calls.listed
      then ok (
          count_segments calls d.segments (record {
            folder = d;
            max_bytes = spool_bytes;
            max_files = default_spool_max_files;
            rejected = 0;
            dropped = 0;
            buffered_critical = 0;
            buffered_ordinary = 0;
            dropped_critical = 0;
            dropped_ordinary = 0;
          }))
      else err call_failed

  -- Append to the segment of the hour, whose stem is given.
  unfoldable pub append_line : Calls → String → Event → Bytes → Spool → Option SpoolError × Spool
  append_line calls stem e raw s =
      if over_limit calls (length raw) s
      then (some capacity_exceeded, turned_away e s)
      else if not calls.opened
      then (some call_failed, s)
      else let files = extended stem (bytes_of calls.write raw) s.folder.segments in
        let s1 = with_folder s (with_segments s.folder files) in
        if is_complete calls.write
        then (none, add_buffered (event_class_counts (some e ∷ [])) s1)
        else (some call_failed, s1)

  unfoldable pub append : Calls → String → Event → Spool → Option SpoolError × Spool
  append calls stem e s = elim (codec.marshal e) [
    | none ↦ (some not_marshalled, s)
    | some raw ↦ append_line calls stem e (raw ++ newline ∷ []) s
  ]

  -- Remove, and what a rewrite does where no event is left.
  unfoldable pub remove : Calls → String → Spool → Option SpoolError × Spool
  remove calls stem s =
      let counts = file_class_counts calls stem s.folder in
      if calls.removed && is_some (lookup stem s.folder.segments)
      then (
        none,
        remove_buffered counts
            (with_folder s (with_segments s.folder (delete stem s.folder.segments))),
      )
      else (some call_failed, s)

abbrev pub batch_limit : ℕ
batch_limit = 100
