-- ===== src/Client/Spool/Resolved.antt =====
-- Rewriting a segment, of lib/edgeclient/spool.go, keeps the counters in step.
use yu_feng.Base.{
  String, ◌≡◌, refl, ◌∙◌, ap, Bool, true, false, List, [], ◌∷◌, ◌++◌, map, Option, none, some, All,
  arith, inl, inr, Bool-cases, Option-cases,
}
use yu_feng.Base.Assoc.{lookup, insert, delete}
use yu_feng.Kernel.Artifact.{Bytes}
use yu_feng.Client.Lines.{IsLine, content_of, lines_of, lines_of-content_of, newline}
use yu_feng.Client.Events.{Event, EventCodec, count_where}
use yu_feng.Client.Spool.{
  Calls, Folder, Spool, add_buffered, file_events, remove_buffered, with_folder,
}
use yu_feng.Client.Spool.Rewrite.{
  cleaned, event_lines, put_aside, replace_segment, resolve_upload, rewrite, with_temps,
}
use yu_feng.Client.Spool.Counted.{IsCounted, IsSmall, replaced-IsCounted, waiting}
use yu_feng.Client.Spool.Written.{IsCodec}
use yu_feng.Client.Spool.Kept.{IsWhole, counts_of, remove-IsCounted, same-IsCounted}

module _ (codec : EventCodec) where
  -- The lines that are written for events are read back as those that are there.
  record AreLinesOf (es : List (Option Event)) (raw : Bytes) : Type 0 where
    lines : List Bytes
    each_line : All IsLine lines
    content : raw ≡ content_of lines
    counts :
        (p : Option Event → Bool)
        → p none ≡ false
        → count_where p (map codec.unmarshal lines) ≡ count_where p es

  event_lines-AreLinesOf :
      (laws : IsCodec codec) (es : List (Option Event))
      → (event_lines codec es).1 ≡ true
      → AreLinesOf es (event_lines codec es).0
  unfolding event_lines count_where content_of
  event_lines-AreLinesOf laws [] h = record {
    lines = [];
    each_line = tt;
    content = refl;
    counts = λ p none_out. refl;
  }
  event_lines-AreLinesOf laws (none ∷ es) h =
      let rest = event_lines-AreLinesOf laws es h in
      record {
        lines = rest.lines;
        each_line = rest.each_line;
        content = rest.content;
        counts = λ p none_out. let h1 = rest.counts p none_out in rw (none_out) (omega arith);
      }
  event_lines-AreLinesOf laws (some e ∷ es) h = elim (Option-cases (codec.marshal e)) [
    | inl bad ↦ let no_lines : false ≡ true = rw (event_lines, bad) at h in cc
    | inr (raw, m) ↦
        let good : (event_lines codec es).1 ≡ true = rw (event_lines, m) at h in
        let rest = event_lines-AreLinesOf laws es good in
        record {
          lines = raw ∷ rest.lines;
          each_line = (laws.line e raw m, rest.each_line);
          content = rw (event_lines, m) (ap (λ b. raw ++ newline ∷ b) rest.content);
          counts = λ p none_out. rw (laws.round_trip e raw m, rest.counts p none_out) refl;
        }
  ]

  waiting_lines :
      (es : List (Option Event)) (raw : Bytes)
      → AreLinesOf es raw
      → (p : Option Event → Bool) → p none ≡ false
      → waiting codec p raw ≡ count_where p es
  unfolding file_events
  waiting_lines es raw h p none_out =
      let e : lines_of raw ≡ h.lines =
        ap lines_of h.content ∙ lines_of-content_of h.lines h.each_line in
      rw (e) (h.counts p none_out)

  cleaned_segments :
      (calls : Calls) (stem : String) (d : Folder) → (cleaned calls stem d).segments ≡ d.segments
  cleaned_segments calls stem d = elim (Bool-cases calls.removed) [
    | inl done ↦ rw (done) refl
    | inr failed ↦ rw (failed) refl
  ]

  replace_segment-IsCounted :
      (laws : IsCodec codec) (calls : Calls) (stem : String) (es : List (Option Event))
      (raw : Bytes) (s : Spool)
      → IsWhole calls
      → lookup stem s.folder.segments ≡ some raw
      → IsSmall codec (replace_segment codec calls stem es s).1.folder.segments
      → IsCounted codec s
      → IsCounted codec (replace_segment codec calls stem es s).1
  unfolding replace_segment add_buffered remove_buffered
  replace_segment-IsCounted laws calls stem es raw s w e small h =
      let bytes = (event_lines codec es).0 in
      let d = with_temps s.folder (insert stem bytes s.folder.temps) in
      let still =
        same-IsCounted codec s (with_folder s (cleaned calls stem d))
          (cleaned_segments calls stem d) refl refl h in
      elim (Bool-cases calls.opened) [
        | inl opened ↦ elim (Bool-cases (event_lines codec es).1) [
          | inl good ↦ elim (Bool-cases calls.renamed) [
            | inl renamed ↦
                let room : IsSmall codec (insert stem bytes s.folder.segments) =
                  rw (opened, w.writes, good, renamed) at small in
                let of_events = event_lines-AreLinesOf laws es good in
                rw
                  (
                    counts_of codec calls stem raw s.folder w.reads e,
                    opened,
                    w.writes,
                    good,
                    renamed,
                  )
                  (replaced-IsCounted codec stem raw bytes es s
                    (record {
                      segments = insert stem bytes s.folder.segments;
                      corrupt = s.folder.corrupt;
                      temps = delete stem s.folder.temps;
                    })
                    e refl (waiting_lines es bytes of_events) room h)
            | inr failed ↦ rw (opened, w.writes, good, failed) still
          ]
          | inr bad ↦ rw (opened, w.writes, bad) still
        ]
        | inr closed ↦ rw (closed) (
            same-IsCounted codec s (with_folder s (cleaned calls stem s.folder))
              (cleaned_segments calls stem s.folder) refl refl h)
      ]

  pub rewrite-IsCounted :
      (laws : IsCodec codec) (calls : Calls) (stem : String) (es : List (Option Event))
      (raw : Bytes) (s : Spool)
      → IsWhole calls
      → lookup stem s.folder.segments ≡ some raw
      → IsSmall codec (rewrite codec calls stem es s).1.folder.segments
      → IsCounted codec s
      → IsCounted codec (rewrite codec calls stem es s).1
  unfolding rewrite
  rewrite-IsCounted laws calls stem [] raw s w e small h =
      remove-IsCounted codec calls stem s w.reads h
  rewrite-IsCounted laws calls stem (f ∷ es) raw s w e small h =
      replace_segment-IsCounted laws calls stem (f ∷ es) raw s w e small h

  put_aside_segments :
      (calls : Calls) (stem : String) (es : List (Option Event)) (s : Spool)
      → ((put_aside codec calls stem es s).1.folder.segments ≡ s.folder.segments)
        × ((put_aside codec calls stem es s).1.buffered_critical ≡ s.buffered_critical)
        × ((put_aside codec calls stem es s).1.buffered_ordinary ≡ s.buffered_ordinary)
  unfolding put_aside
  put_aside_segments calls stem [] s = (refl, refl, refl)
  put_aside_segments calls stem (e ∷ es) s = elim (Bool-cases calls.opened) [
    | inl opened ↦ rw (opened) (refl, refl, refl)
    | inr closed ↦ rw (closed) (refl, refl, refl)
  ]

  -- With a codec that reads back what it writes, ResolveUpload on a segment that is there keeps the
  -- counters equal to what waits in the segments, whatever these hold, where no stem names two of
  -- them, the system reads the segment and writes all that the rewrite gives it, and fewer than 2^64
  -- events of a class wait afterwards.
  pub resolve_upload-IsCounted :
      (laws : IsCodec codec) (first second : Calls) (stem : String)
      (retry permanent : List (Option Event)) (raw : Bytes) (s : Spool)
      → IsWhole second
      → lookup stem s.folder.segments ≡ some raw
      → IsSmall codec (resolve_upload codec first second stem retry permanent s).1.folder.segments
      → IsCounted codec s
      → IsCounted codec (resolve_upload codec first second stem retry permanent s).1
  unfolding resolve_upload
  resolve_upload-IsCounted laws first second stem retry permanent raw s w e small h =
      let aside = put_aside codec first stem permanent s in
      let (same, critical, ordinary) = put_aside_segments first stem permanent s in
      let h1 = same-IsCounted codec s aside.1 same critical ordinary h in
      elim (Bool-cases aside.0) [
        | inl done ↦
            let room : IsSmall codec (rewrite codec second stem retry aside.1).1.folder.segments =
              rw (done) at small in
            rw (done) (
              rewrite-IsCounted laws second stem retry raw aside.1 w (ap (lookup stem) same ∙ e)
                room h1)
        | inr failed ↦ rw (failed) h1
      ]
