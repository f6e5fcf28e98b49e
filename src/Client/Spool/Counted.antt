-- ===== src/Client/Spool/Counted.antt =====
-- The counters of lib/edgeclient/spool.go against the files that wait.
use yu_feng.Base.{
  ℕ, String, ◌≡◌, refl, ◌∙◌, ap, ◌≤◌, ◌<◌, ◌+◌, ◌^◌, Bool, false, List, [], ◌∷◌, ◌++◌, Option, none,
  some, arith, inl, inr, Option-cases,
}
use yu_feng.Base.Assoc.{
  Assoc, lookup, insert, delete, total, total-insert, total-insert_new, IsSingle, insert-IsSingle,
  delete-IsSingle, total-delete,
}
use yu_feng.Kernel.Artifact.{Bytes}
use yu_feng.Client.Lines.{IsLine, lines_of, newline, split_lines, trim_left, trim_right}
use yu_feng.Client.Events.{
  Event, EventCodec, count_where, event_class_counts, is_critical, is_ordinary_sample,
}
use yu_feng.Client.Spool.{
  Folder, Spool, add_buffered, clamped_sub, extended, file_events, or_nothing, remove_buffered,
  uint64_add, with_folder, with_segments,
}
use yu_feng.Client.Spool.Written.{
  IsCodec, IsWritten, count_where-append, lines_of-append, map-append,
}

-- The two steps of a counter.
added :
    (counter more before after : ℕ)
    → counter ≡ before
    → after ≡ before + more
    → after < 2 ^ 64
    → uint64_add counter more ≡ after
added counter more before after h e small = ground arith

taken :
    (counter less before after : ℕ)
    → counter ≡ before
    → after + less ≡ before
    → clamped_sub counter less ≡ after
taken counter less before after h e = ground arith

replaced :
    (counter less more before after : ℕ)
    → counter ≡ before
    → after + less ≡ before + more
    → less ≤ before
    → after < 2 ^ 64
    → uint64_add (clamped_sub counter less) more ≡ after
replaced counter less more before after h e le small = ground arith

own_le :
    (f : Bytes → ℕ) (stem : String) (raw : Bytes) (files : Assoc Bytes)
    → lookup stem files ≡ some raw
    → f raw ≤ total f files
unfolding lookup total
own_le f stem raw [] e = ground arith
own_le f stem raw ((name, held) ∷ files) e = let later = own_le f stem raw files in ground arith

module _ (codec : EventCodec) where
  -- The events of a class that wait in a file.
  abbrev pub waiting : (Option Event → Bool) → Bytes → ℕ
  waiting p raw = count_where p (file_events codec raw)

  pub file_events-append :
      (raw line : Bytes)
      → IsWritten raw
      → IsLine line
      → file_events codec (raw ++ (line ++ newline ∷ []))
        ≡ file_events codec raw ++ codec.unmarshal line ∷ []
  unfolding file_events
  file_events-append raw line h k =
      rw (lines_of-append raw line h k) (map-append codec.unmarshal (lines_of raw) (line ∷ []))

  -- The counters are what waits in the segments, and a stem names one of these.
  pub record IsCounted (s : Spool) : Type 0 where
    pub critical : s.buffered_critical ≡ total (waiting is_critical) s.folder.segments
    pub ordinary : s.buffered_ordinary ≡ total (waiting is_ordinary_sample) s.folder.segments
    pub single : (stem : String) → IsSingle stem s.folder.segments

  -- Fewer events wait than a uint64 counts.
  abbrev pub IsSmall : Assoc Bytes → Type 0
  IsSmall files =
      (total (waiting is_critical) files < 2 ^ 64)
      × (total (waiting is_ordinary_sample) files < 2 ^ 64)

  pub waiting_nothing : (p : Option Event → Bool) → waiting p [] ≡ 0
  unfolding file_events lines_of count_where
  waiting_nothing p = unfold trim_left trim_right split_lines in refl

  -- One more line in a file is one more event of its class.
  waiting-append :
      (laws : IsCodec codec) (p : Option Event → Bool) (old raw : Bytes) (e : Event)
      → IsWritten old
      → codec.marshal e ≡ some raw
      → waiting p (old ++ (raw ++ newline ∷ [])) ≡ waiting p old + count_where p (some e ∷ [])
  waiting-append laws p old raw e h m =
      rw (file_events-append old raw h (laws.line e raw m), laws.round_trip e raw m)
        (count_where-append p (file_events codec old) (some e ∷ []))

  total-extended :
      (f : Bytes → ℕ) (stem : String) (raw : Bytes) (files : Assoc Bytes) (more : ℕ)
      → f [] ≡ 0
      → f (or_nothing (lookup stem files) ++ raw) ≡ f (or_nothing (lookup stem files)) + more
      → total f (extended stem raw files) ≡ total f files + more
  total-extended f stem raw files more h e = elim (Option-cases (lookup stem files)) [
    | inl gone ↦
        let e1 : f raw ≡ f [] + more = rw gone at e in
        let moved = total-insert_new f stem raw files gone in rw (gone) (omega arith)
    | inr (old, found) ↦
        let e1 : f (old ++ raw) ≡ f old + more = rw found at e in
        let moved = total-insert f stem old (old ++ raw) files found in rw (found) (omega arith)
  ]

  -- Append with every call of the system done: the event waits, and the counters know.
  pub appended-IsCounted :
      (laws : IsCodec codec) (stem : String) (e : Event) (raw : Bytes) (s : Spool)
      → codec.marshal e ≡ some raw
      → IsSmall (extended stem (raw ++ newline ∷ []) s.folder.segments)
      → IsWritten (or_nothing (lookup stem s.folder.segments))
      → IsCounted s
      → IsCounted (
          add_buffered (event_class_counts (some e ∷ [])) (
            with_folder s
              (with_segments s.folder (extended stem (raw ++ newline ∷ []) s.folder.segments))))
  unfolding add_buffered
  appended-IsCounted laws stem e raw s m small whole_old h =
      let files = s.folder.segments in
      let old = or_nothing (lookup stem files) in
      let moved : (p : Option Event → Bool)
          → total (waiting p) (extended stem (raw ++ newline ∷ []) files)
            ≡ total (waiting p) files + count_where p (some e ∷ []) =
        λ p.
          total-extended (waiting p) stem (raw ++ newline ∷ []) files (count_where p (some e ∷ []))
            (waiting_nothing p) (waiting-append laws p old raw e whole_old m) in
      record {
        critical =
            added s.buffered_critical (count_where is_critical (some e ∷ []))
              (total (waiting is_critical) files)
              (total (waiting is_critical) (extended stem (raw ++ newline ∷ []) files)) h.critical
              (moved is_critical) small.0;
        ordinary =
            added s.buffered_ordinary (count_where is_ordinary_sample (some e ∷ []))
              (total (waiting is_ordinary_sample) files)
              (total (waiting is_ordinary_sample) (extended stem (raw ++ newline ∷ []) files))
              h.ordinary (moved is_ordinary_sample) small.1;
        single = λ k. insert-IsSingle k stem (old ++ (raw ++ newline ∷ [])) files (h.single k);
      }

  -- A segment goes, and with it what waited in it.
  pub removed-IsCounted :
      (stem : String) (raw : Bytes) (s : Spool) (d : Folder)
      → lookup stem s.folder.segments ≡ some raw
      → d.segments ≡ delete stem s.folder.segments
      → IsCounted s
      → IsCounted (remove_buffered (event_class_counts (file_events codec raw)) (with_folder s d))
  unfolding remove_buffered
  removed-IsCounted stem raw s d e same h =
      let files = s.folder.segments in
      let gone : (p : Option Event → Bool)
          → total (waiting p) d.segments + waiting p raw ≡ total (waiting p) files =
        λ p.
          ap (λ m. total (waiting p) m + waiting p raw) same
          ∙ total-delete (waiting p) stem raw files (h.single stem) e in
      record {
        critical =
            taken s.buffered_critical (waiting is_critical raw) (total (waiting is_critical) files)
              (total (waiting is_critical) d.segments) h.critical (gone is_critical);
        ordinary =
            taken s.buffered_ordinary (waiting is_ordinary_sample raw)
              (total (waiting is_ordinary_sample) files)
              (total (waiting is_ordinary_sample) d.segments) h.ordinary (gone is_ordinary_sample);
        single = λ k. rw (same) (delete-IsSingle k stem files (h.single k));
      }

  -- A segment is replaced by one with other events.
  pub replaced-IsCounted :
      (stem : String) (raw new : Bytes) (es : List (Option Event)) (s : Spool) (d : Folder)
      → lookup stem s.folder.segments ≡ some raw
      → d.segments ≡ insert stem new s.folder.segments
      → ((p : Option Event → Bool) → p none ≡ false → waiting p new ≡ count_where p es)
      → IsSmall d.segments
      → IsCounted s
      → IsCounted (
          add_buffered
            (event_class_counts es)
            (remove_buffered (event_class_counts (file_events codec raw)) (with_folder s d)))
  unfolding add_buffered remove_buffered is_ordinary_sample
  replaced-IsCounted stem raw new es s d e same counts small h =
      let files = s.folder.segments in
      let moved : (p : Option Event → Bool)
          → p none ≡ false
          → total (waiting p) d.segments + waiting p raw
            ≡ total (waiting p) files + count_where p es =
        λ p none_out.
          ap (λ m. total (waiting p) m + waiting p raw) same
          ∙ total-insert (waiting p) stem raw new files e
          ∙ ap (λ n. total (waiting p) files + n) (counts p none_out) in
      record {
        critical =
            replaced s.buffered_critical (waiting is_critical raw) (count_where is_critical es)
              (total (waiting is_critical) files) (total (waiting is_critical) d.segments)
              h.critical (moved is_critical refl) (own_le (waiting is_critical) stem raw files e)
              small.0;
        ordinary =
            replaced s.buffered_ordinary (waiting is_ordinary_sample raw)
              (count_where is_ordinary_sample es) (total (waiting is_ordinary_sample) files)
              (total (waiting is_ordinary_sample) d.segments) h.ordinary
              (moved is_ordinary_sample refl) (own_le (waiting is_ordinary_sample) stem raw files e)
              small.1;
        single = λ k. rw (same) (insert-IsSingle k stem new files (h.single k));
      }
