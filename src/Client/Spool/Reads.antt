-- ===== src/Client/Spool/Reads.antt =====
-- What is in the files of lib/edgeclient/spool.go after a call.
use yu_feng.Base.{
  String, ◌≡◌, refl, ◌∙◌, ap, true, false, List, [], ◌∷◌, ◌++◌, map, Option, none, some, All, arith,
  inl, inr, length, Option-cases, eq_iff,
}
use yu_feng.Base.Assoc.{Assoc, lookup, insert, lookup-insert}
use yu_feng.Base.Result.{ok, ok_injective, >>=-eq-ok}
use yu_feng.Kernel.Artifact.{Bytes}
use yu_feng.Client.Lines.{IsLine, content_of, lines_of-content_of, newline}
use yu_feng.Client.Events.{Event, EventCodec}
use yu_feng.Client.Spool.{
  Calls, Spool, add_buffered, all_bytes, append, append_line, Write, bytes_only, bytes_of, extended,
  file_events, is_complete, or_nothing, over_limit, parse_lines, read_events, remove_buffered,
  with_segments,
}
use yu_feng.Client.Spool.Rewrite.{event_lines, put_aside, replace_segment, resolve_upload, rewrite}
use yu_feng.Client.Spool.Counted.{file_events-append}
use yu_feng.Client.Spool.Written.{IsCodec, IsWritten}

parse_lines-append :
    (es : List (Option Event)) (got : List Event) (e : Event)
    → parse_lines es ≡ ok got
    → parse_lines (es ++ some e ∷ []) ≡ ok (got ++ e ∷ [])
unfolding parse_lines
parse_lines-append [] got e h =
    let same : [] ≡ got = ok_injective h in ap (λ g. ok (g ++ e ∷ [])) same
parse_lines-append (none ∷ es) got e h = cc
parse_lines-append (some f ∷ es) got e h =
    let (rest, h1, h2) = >>=-eq-ok (parse_lines es) (λ r. ok (f ∷ r)) h in
    let same : f ∷ rest ≡ got = ok_injective h2 in rw (parse_lines-append es rest e h1, ← same) refl

complete_bytes : (w : Write) (raw : Bytes) → is_complete w ≡ true → bytes_of w raw ≡ raw
complete_bytes all_bytes raw h = refl
complete_bytes (bytes_only n) raw h = cc

module _ (codec : EventCodec) where
  -- What Append did where it returned no error.
  appended :
      (calls : Calls) (stem : String) (e : Event) (s out : Spool)
      → append codec calls stem e s ≡ (none, out)
      → (raw : Bytes) × (codec.marshal e ≡ some raw)
        × (over_limit calls (length (raw ++ newline ∷ [])) s ≡ false)
        × (out.folder
            ≡ with_segments s.folder (extended stem (raw ++ newline ∷ []) s.folder.segments))
  unfolding append append_line add_buffered
  appended calls stem e s out h = elim (Option-cases (codec.marshal e)) [
    | inl bad ↦ ground (arith, bad)
    | inr (raw, m) ↦
        let line = raw ++ newline ∷ [] in
        let h1 : append_line codec calls stem e line s ≡ (none, out) = rw (append, m) at h in
        let (fits, complete, same) : (over_limit calls (length line) s ≡ false)
            × (is_complete calls.write ≡ true)
            × (out.folder
                ≡ with_segments s.folder
                    (extended stem (bytes_of calls.write line) s.folder.segments)) =
          ground arith in
        (
          raw,
          m,
          fits,
          same
              ∙ ap (λ b. with_segments s.folder (extended stem b s.folder.segments))
                  (complete_bytes calls.write line complete),
        )
  ]

  -- With a codec that reads back what it writes, where the segment of the hour holds whole lines or is
  -- missing and all its events can be read, an event that Append takes is read back by ReadEvents
  -- after those that were there.
  pub read_events-append :
      (laws : IsCodec codec) (calls later : Calls) (stem : String) (e : Event) (s out : Spool)
      (es : List Event)
      → IsWritten (or_nothing (lookup stem s.folder.segments))
      → later.read ≡ true
      → parse_lines (file_events codec (or_nothing (lookup stem s.folder.segments))) ≡ ok es
      → append codec calls stem e s ≡ (none, out)
      → read_events codec later stem out.folder ≡ ok (es ++ e ∷ [])
  unfolding read_events
  read_events-append laws calls later stem e s out es whole reads before h =
      let (raw, m, fits, same) = appended calls stem e s out h in
      let files = s.folder.segments in
      let old = or_nothing (lookup stem files) in
      let found : lookup stem out.folder.segments ≡ some (old ++ (raw ++ newline ∷ [])) =
        rw (same, lookup-insert) (ground (arith, eq_iff stem stem)) in
      let grown = file_events-append codec old raw whole (laws.line e raw m) in
      rw (reads, found, grown, laws.round_trip e raw m)
        (parse_lines-append (file_events codec old) es e before)

  event_lines-some :
      (laws : IsCodec codec) (es : List Event)
      → (event_lines codec (map some es)).1 ≡ true
      → (lines : List Bytes) × All IsLine lines
        × ((event_lines codec (map some es)).0 ≡ content_of lines)
        × (map codec.unmarshal lines ≡ map some es)
  unfolding event_lines content_of
  event_lines-some laws [] h = ([], tt, refl, refl)
  event_lines-some laws (e ∷ es) h = elim (Option-cases (codec.marshal e)) [
    | inl bad ↦ let no_lines : false ≡ true = rw (event_lines, bad) at h in cc
    | inr (raw, m) ↦
        let good : (event_lines codec (map some es)).1 ≡ true = rw (event_lines, m) at h in
        let (lines, each, content, back) = event_lines-some laws es good in
        (
          raw ∷ lines,
          (laws.line e raw m, each),
          rw (event_lines, m) (ap (λ b. raw ++ newline ∷ b) content),
          rw (laws.round_trip e raw m, back) refl,
        )
  ]

  parse_lines-some : (es : List Event) → parse_lines (map some es) ≡ ok es
  unfolding parse_lines
  parse_lines-some [] = refl
  parse_lines-some (e ∷ es) = rw (parse_lines-some es) refl

  replaced_content :
      (calls : Calls) (stem : String) (es : List (Option Event)) (s out : Spool)
      → replace_segment codec calls stem es s ≡ (none, out)
      → ((event_lines codec es).1 ≡ true)
        × (insert stem (event_lines codec es).0 s.folder.segments ≡ out.folder.segments)
  unfolding replace_segment add_buffered remove_buffered
  replaced_content calls stem es s out h = ground arith

  put_aside_done :
      (first second : Calls) (stem : String) (retry permanent : List (Option Event)) (s out : Spool)
      → resolve_upload codec first second stem retry permanent s ≡ (none, out)
      → rewrite codec second stem retry (put_aside codec first stem permanent s).1 ≡ (none, out)
  unfolding resolve_upload
  put_aside_done first second stem retry permanent s out h = ground arith

  -- With a codec that reads back what it writes, after ResolveUpload with some events to try again
  -- returned no error, the segment holds these events in their order.
  pub read_events-resolve_upload :
      (laws : IsCodec codec) (first second later : Calls) (stem : String) (e : Event)
      (es : List Event) (permanent : List (Option Event)) (s out : Spool)
      → later.read ≡ true
      → resolve_upload codec first second stem (map some (e ∷ es)) permanent s ≡ (none, out)
      → read_events codec later stem out.folder ≡ ok (e ∷ es)
  unfolding read_events rewrite file_events
  read_events-resolve_upload laws first second later stem e es permanent s out reads h =
      let retry = map some (e ∷ es) in
      let aside = (put_aside codec first stem permanent s).1 in
      let done = put_aside_done first second stem retry permanent s out h in
      let (good, same) = replaced_content second stem retry aside out done in
      let (lines, each, content, back) = event_lines-some laws (e ∷ es) good in
      let found : lookup stem out.folder.segments ≡ some (content_of lines) =
        rw (← same, lookup-insert, content) (ground (arith, eq_iff stem stem)) in
      rw (reads, found, lines_of-content_of lines each, back) (parse_lines-some (e ∷ es))
