-- ===== src/Client/Spool/Kept.antt =====
-- The functions of lib/edgeclient/spool.go keep their counters in step with the files that wait.
use yu_feng.Base.{
  String, ◌≡◌, refl, sym, eq_iff, arith, ◌∙◌, ap, true, [], ◌∷◌, ◌++◌, some, inl, inr, length,
  Bool-cases, Option-cases,
}
use yu_feng.Base.Assoc.{lookup, lookup-insert, delete, total}
use yu_feng.Kernel.Artifact.{Bytes}
use yu_feng.Client.Lines.{newline}
use yu_feng.Client.Events.{Event, EventCodec, event_class_counts, is_critical, is_ordinary_sample}
use yu_feng.Client.Spool.{
  Calls, Folder, Spool, add_buffered, all_bytes, append, append_line, counts_at, extended,
  file_class_counts, file_events, or_nothing, over_limit, remove, turned_away, with_segments,
}
use yu_feng.Client.Spool.Rewrite.{moved, quarantine}
use yu_feng.Client.Spool.Counted.{
  IsCounted, IsSmall, appended-IsCounted, removed-IsCounted, waiting,
}
use yu_feng.Client.Spool.Written.{IsCodec, IsWritten, written_line}

-- The system reads the file, and writes all of what it is given.
pub record IsWhole (calls : Calls) : Type 0 where
  pub reads : calls.read ≡ true
  pub writes : calls.write ≡ all_bytes

module _ (codec : EventCodec) where
  -- What does not touch the segments and the two counters keeps them in step.
  pub same-IsCounted :
      (s t : Spool)
      → t.folder.segments ≡ s.folder.segments
      → t.buffered_critical ≡ s.buffered_critical
      → t.buffered_ordinary ≡ s.buffered_ordinary
      → IsCounted codec s
      → IsCounted codec t
  same-IsCounted s t e f g h = record {
    critical = f ∙ h.critical ∙ ap (total (waiting codec is_critical)) (sym e);
    ordinary = g ∙ h.ordinary ∙ ap (total (waiting codec is_ordinary_sample)) (sym e);
    single = λ k. rw (e) (h.single k);
  }

  append_line-IsCounted :
      (laws : IsCodec codec) (calls : Calls) (stem : String) (e : Event) (raw : Bytes) (s : Spool)
      → codec.marshal e ≡ some raw
      → calls.write ≡ all_bytes
      → IsSmall codec (append_line codec calls stem e (raw ++ newline ∷ []) s).1.folder.segments
      → IsWritten (or_nothing (lookup stem s.folder.segments))
      → IsCounted codec s
      → IsCounted codec (append_line codec calls stem e (raw ++ newline ∷ []) s).1
        × IsWritten (
            or_nothing (
              lookup stem
                (append_line codec calls stem e (raw ++ newline ∷ []) s).1.folder.segments))
  unfolding append_line turned_away add_buffered
  append_line-IsCounted laws calls stem e raw s m w small whole h =
      elim (Bool-cases (over_limit calls (length (raw ++ newline ∷ [])) s)) [
        | inl over ↦ rw (over) (same-IsCounted s (turned_away e s) refl refl refl h, whole)
        | inr fits ↦ elim (Bool-cases calls.opened) [
          | inl opened ↦
              let segments = extended stem (raw ++ newline ∷ []) s.folder.segments in
              let room : IsSmall codec segments = rw (fits, opened, w) at small in
              let old = or_nothing (lookup stem s.folder.segments) in
              let found : lookup stem segments ≡ some (old ++ (raw ++ newline ∷ [])) =
                rw (lookup-insert) (ground (arith, eq_iff stem stem)) in
              rw (fits, opened, w)
                (
                  appended-IsCounted codec laws stem e raw s m room whole h,
                  rw (found) (written_line old raw whole (laws.line e raw m)),
                )
          | inr closed ↦ rw (fits, closed) (h, whole)
        ]
      ]

  -- With a codec that reads back what it writes, Append keeps the counters equal to what waits in the
  -- segments, and the segment of the hour one of whole lines, which it has to be before (or missing),
  -- also where it turns the event away; provided that no stem names two segments, the system writes
  -- the whole line or does not open the file, and fewer than 2^64 events of a class wait afterwards.
  pub append-IsCounted :
      (laws : IsCodec codec) (calls : Calls) (stem : String) (e : Event) (s : Spool)
      → calls.write ≡ all_bytes
      → IsSmall codec (append codec calls stem e s).1.folder.segments
      → IsWritten (or_nothing (lookup stem s.folder.segments))
      → IsCounted codec s
      → IsCounted codec (append codec calls stem e s).1
        × IsWritten (or_nothing (lookup stem (append codec calls stem e s).1.folder.segments))
  unfolding append
  append-IsCounted laws calls stem e s w small whole h = elim (Option-cases (codec.marshal e)) [
    | inl bad ↦ rw (append, bad) (h, whole)
    | inr (raw, m) ↦
        let room : IsSmall codec
            (append_line codec calls stem e (raw ++ newline ∷ []) s).1.folder.segments =
          rw (append, m) at small in
        rw (append, m) (append_line-IsCounted laws calls stem e raw s m w room whole h)
  ]

  pub counts_of :
      (calls : Calls) (stem : String) (raw : Bytes) (d : Folder)
      → calls.read ≡ true
      → lookup stem d.segments ≡ some raw
      → file_class_counts codec calls stem d ≡ event_class_counts (file_events codec raw)
  unfolding file_class_counts counts_at
  counts_of calls stem raw d r e = rw (r, e) refl

  pub remove-IsCounted :
      (calls : Calls) (stem : String) (s : Spool)
      → calls.read ≡ true
      → IsCounted codec s
      → IsCounted codec (remove codec calls stem s).1
  unfolding remove
  remove-IsCounted calls stem s r h = elim (Option-cases (lookup stem s.folder.segments)) [
    | inl gone ↦ elim (Bool-cases calls.removed) [
      | inl done ↦ rw (gone, done) h
      | inr failed ↦ rw (failed) h
    ]
    | inr (raw, e) ↦ elim (Bool-cases calls.removed) [
      | inl done ↦
          rw (counts_of calls stem raw s.folder r e, e, done)
            (removed-IsCounted codec stem raw s
              (with_segments s.folder (delete stem s.folder.segments)) e refl h)
      | inr failed ↦ rw (failed) h
    ]
  ]

  -- Quarantine, with a segment or with none, moved or not, keeps the counters equal to what waits in
  -- the segments, whatever these hold, where no stem names two of them and the system reads the
  -- segment.
  pub quarantine-IsCounted :
      (calls : Calls) (stem : String) (s : Spool)
      → calls.read ≡ true
      → IsCounted codec s
      → IsCounted codec (quarantine codec calls stem s).1
  unfolding quarantine
  quarantine-IsCounted calls stem s r h = elim (Option-cases (lookup stem s.folder.segments)) [
    | inl gone ↦ elim (Bool-cases calls.renamed) [
      | inl done ↦ rw (gone, done) h
      | inr failed ↦ rw (failed) h
    ]
    | inr (raw, e) ↦ elim (Bool-cases calls.renamed) [
      | inl done ↦
          rw (counts_of calls stem raw s.folder r e, e, done)
            (removed-IsCounted codec stem raw s (moved stem (some raw) s.folder) e refl h)
      | inr failed ↦ rw (failed) h
    ]
  ]
