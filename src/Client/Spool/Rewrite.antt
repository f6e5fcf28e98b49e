-- ===== src/Client/Spool/Rewrite.antt =====
-- Rewriting a segment and moving events aside, of lib/edgeclient/spool.go.
use yu_feng.Base.{
  String, Bool, true, false, not, ◌&&◌, List, [], ◌∷◌, ◌++◌, Option, none, some, is_some,
  if◌then◌else◌,
}
use yu_feng.Base.Assoc.{Assoc, lookup, insert, delete}
use yu_feng.Kernel.Artifact.{Bytes}
use yu_feng.Client.Lines.{newline}
use yu_feng.Client.Events.{Event, EventCodec, event_class_counts}
use yu_feng.Client.Spool.{
  Spool, Folder, Calls, SpoolError, bytes_of, is_complete, with_folder, remove_buffered,
  add_buffered, extended, file_class_counts, remove, call_failed,
}

abbrev pub with_temps : Folder → Assoc Bytes → Folder
with_temps d files = record { segments = d.segments; corrupt = d.corrupt; temps = files }

-- The temporary file is removed after an error, if it can be.
abbrev pub cleaned : Calls → String → Folder → Folder
cleaned calls stem d = if calls.removed then with_temps d (delete stem d.temps) else d

abbrev pub with_corrupt : Folder → Assoc Bytes → Folder
with_corrupt d files = record { segments = d.segments; corrupt = files; temps = d.temps }

abbrev pub moved : String → Option Bytes → Folder → Folder
moved stem none d = d
moved stem (some raw) d = record {
  segments = delete stem d.segments;
  corrupt = insert stem raw d.corrupt;
  temps = d.temps;
}

module _ (codec : EventCodec) where
  -- What writeEventsFile and appendEventsFile write, up to an event that is not marshalled, and
  -- whether there was none.
  unfoldable pub event_lines : List (Option Event) → Bytes × Bool
  event_lines [] = ([], true)
  event_lines (none ∷ es) = event_lines es
  event_lines (some e ∷ es) = elim (codec.marshal e) [
    | none ↦ ([], false)
    | some raw ↦ let rest = event_lines es in (raw ++ newline ∷ rest.0, rest.1)
  ]

  unfoldable pub replace_segment :
      Calls → String → List (Option Event) → Spool → Option SpoolError × Spool
  replace_segment calls stem es s =
      let counts = file_class_counts codec calls stem s.folder in
      let lines = event_lines es in
      let d = with_temps s.folder (insert stem (bytes_of calls.write lines.0) s.folder.temps) in
      if not calls.opened
      then (some call_failed, with_folder s (cleaned calls stem s.folder))
      else if not (lines.1 && is_complete calls.write)
      then (some call_failed, with_folder s (cleaned calls stem d))
      else if not calls.renamed
      then (some call_failed, with_folder s (cleaned calls stem d))
      else (
        none,
        add_buffered (event_class_counts es) (
            remove_buffered counts (
              with_folder s (record {
                segments = insert stem lines.0 s.folder.segments;
                corrupt = s.folder.corrupt;
                temps = delete stem s.folder.temps;
              }))),
      )

  -- rewriteLocked, and Rewrite.
  unfoldable pub rewrite : Calls → String → List (Option Event) → Spool → Option SpoolError × Spool
  rewrite calls stem [] s = remove codec calls stem s
  rewrite calls stem (e ∷ es) s = replace_segment calls stem (e ∷ es) s

  -- The evidence of ResolveUpload: whether it was written, and the spool with it.
  unfoldable pub put_aside : Calls → String → List (Option Event) → Spool → Bool × Spool
  put_aside calls stem [] s = (true, s)
  put_aside calls stem (e ∷ es) s =
      let lines = event_lines (e ∷ es) in
      if not calls.opened then (false, s) else (
        lines.1 && is_complete calls.write,
        with_folder s
            (with_corrupt s.folder (extended stem (bytes_of calls.write lines.0) s.folder.corrupt)),
      )

  unfoldable pub resolve_upload :
      Calls
      → Calls
      → String
      → List (Option Event)
      → List (Option Event)
      → Spool
      → Option SpoolError × Spool
  resolve_upload first second stem retry permanent s =
      let aside = put_aside first stem permanent s in
      if aside.0 then rewrite second stem retry aside.1 else (some call_failed, aside.1)

  unfoldable pub quarantine : Calls → String → Spool → Option SpoolError × Spool
  quarantine calls stem s =
      let counts = file_class_counts codec calls stem s.folder in
      if calls.renamed && is_some (lookup stem s.folder.segments)
      then (
        none,
        remove_buffered counts
            (with_folder s (moved stem (lookup stem s.folder.segments) s.folder)),
      )
      else (some call_failed, s)
