-- ===== src/Checks/Spools.antt =====
-- Tests of the spool, with a codec of one event.
use yu_feng.Base.{
  ◌≡◌, refl, sym, ap, Bool, true, false, not, ◌&&◌, ◌==◌, List, [], ◌∷◌, Option, none, some, arith,
  str_eq, eq_iff, if◌then◌else◌, keep,
}
use yu_feng.Base.Assoc.{delete, insert, lookup, total}
use yu_feng.Base.Result.{ok}
use yu_feng.Kernel.Artifact.{Bytes}
use yu_feng.Client.Lines.{
  IsLine, is_blank, lines_of, split_lines, trim_left, trim_right, content_of,
}
use yu_feng.Client.Events.{Event, EventCodec, count_where, is_ordinary_sample}
use yu_feng.Client.Spool.{
  Calls, Spool, add_buffered, all_bytes, append, append_line, counts_at, file_class_counts,
  remove_buffered, file_events, or_nothing, over_limit, parse_lines, read_events,
}
use yu_feng.Client.Spool.Rewrite.{
  event_lines, put_aside, quarantine, replace_segment, resolve_upload, rewrite,
}
use yu_feng.Client.Spool.Counted.{IsCounted}
use yu_feng.Client.Spool.Written.{IsCodec, IsWritten}
use yu_feng.Client.Spool.Kept.{append-IsCounted, quarantine-IsCounted}
use yu_feng.Client.Spool.Resolved.{resolve_upload-IsCounted}
use yu_feng.Client.Spool.Reads.{read_events-append, read_events-resolve_upload}
use yu_feng.Client.Ack.{Rejection, partition_upload_ack}
use yu_feng.Client.Ack.Parts.{retried, set_aside, partition_upload_ack-keep}

abbrev sample : Event
sample = record {
  id = "a";
  verdict = 1;
  detections = [];
  would_have_blocked = false;
  observation = 2;
  others = [];
}

abbrev none_in : List Bytes → Bool
none_in [] = true
none_in (d ∷ ds) = false

abbrev is_sample : Event → Bool
is_sample e =
    str_eq e.id "a"
    && e.verdict == 1
    && none_in e.detections
    && not e.would_have_blocked
    && e.observation == 2
    && is_blank e.others

abbrev read_sample : Bytes → Option Event
read_sample [] = none
read_sample (c ∷ cs) = if c == 123 then some sample else none

abbrev test_codec : EventCodec
test_codec = record {
  marshal = λ e. if is_sample e then some (123 ∷ []) else none;
  unmarshal = read_sample;
}

none_in-eq : (ds : List Bytes) → none_in ds ≡ true → ds ≡ []
none_in-eq [] h = refl
none_in-eq (d ∷ ds) h = cc

blank-eq : (raw : Bytes) → is_blank raw ≡ true → raw ≡ []
blank-eq [] h = refl
blank-eq (c ∷ cs) h = cc

is_sample-eq : (e : Event) → is_sample e ≡ true → e ≡ sample
is_sample-eq e h =
    let h1 : e.id ≡ "a" = ground (arith, eq_iff e.id "a") in
    let h2 : e.verdict ≡ 1 = ground arith in
    let h3 = none_in-eq e.detections (ground arith) in
    let h4 : e.would_have_blocked ≡ false = ground arith in
    let h5 : e.observation ≡ 2 = ground arith in let h6 = blank-eq e.others (ground arith) in cc

test_codec_line : (e : Event) (raw : Bytes) → test_codec.marshal e ≡ some raw → raw ≡ 123 ∷ []
test_codec_line e raw h = ground arith

brace-IsLine : IsLine (123 ∷ [])
unfolding trim_right
brace-IsLine = record { some_byte = refl; one_line = (refl, tt); left_end = refl; right_end = refl }

test_codec-IsCodec : IsCodec test_codec
test_codec-IsCodec = record {
  line = λ e raw h. rw (test_codec_line e raw h) brace-IsLine;
  round_trip = λ e raw h.
      let is : is_sample e ≡ true = ground arith in
      rw (test_codec_line e raw h) (ap some (sym (is_sample-eq e is)));
}

abbrev fine_calls : Calls
fine_calls = record {
  listed = true;
  read = true;
  opened = true;
  write = all_bytes;
  removed = true;
  renamed = true;
}

abbrev empty_spool : Spool
empty_spool = record {
  folder = record { segments = []; corrupt = []; temps = [] };
  max_bytes = 0;
  max_files = 0;
  rejected = 0;
  dropped = 0;
  buffered_critical = 0;
  buffered_ordinary = 0;
  dropped_critical = 0;
  dropped_ordinary = 0;
}

abbrev one_event : Spool
one_event = record empty_spool {
  folder = record {
    segments = ("s", 123 ∷ 10 ∷ []) ∷ [];
    corrupt = ("s", 1 ∷ []) ∷ [];
    temps = [];
  };
  buffered_ordinary = 1;
}

abbrev one_line : Bytes
one_line = 123 ∷ 10 ∷ []

one_line-IsWritten : IsWritten one_line
unfolding content_of
one_line-IsWritten = record {
  lines = (123 ∷ []) ∷ [];
  each_line = (brace-IsLine, tt);
  content = refl;
}

one_event-IsCounted : IsCounted test_codec one_event
unfolding total file_events lines_of trim_left trim_right split_lines count_where is_ordinary_sample
    lookup
one_event-IsCounted = record { critical = refl; ordinary = refl; single = λ stem. (λ e. refl, tt) }

one_event-IsWritten : IsWritten (or_nothing (lookup "s" one_event.folder.segments))
unfolding lookup
one_event-IsWritten = one_line-IsWritten

abbrev two_events : Spool
two_events = record one_event {
  folder = record one_event.folder { segments = ("s", 123 ∷ 10 ∷ 123 ∷ 10 ∷ []) ∷ [] };
  buffered_ordinary = 2;
}

append_now : append test_codec fine_calls "s" sample one_event ≡ (none, two_events)
unfolding append append_line over_limit add_buffered total insert lookup count_where
    is_ordinary_sample
append_now = refl

append-IsCounted_example :
    IsCounted test_codec (append test_codec fine_calls "s" sample one_event).1
    × IsWritten (
        or_nothing
          (lookup "s" (append test_codec fine_calls "s" sample one_event).1.folder.segments))
unfolding append append_line over_limit add_buffered total insert lookup file_events lines_of
    trim_left trim_right split_lines count_where is_ordinary_sample
append-IsCounted_example =
    append-IsCounted test_codec test_codec-IsCodec fine_calls "s" sample one_event refl
      (omega arith, omega arith) one_event-IsWritten one_event-IsCounted

read_events-append_example :
    read_events test_codec fine_calls "s" two_events.folder ≡ ok (sample ∷ sample ∷ [])
read_events-append_example =
    read_events-append test_codec test_codec-IsCodec fine_calls fine_calls "s" sample one_event
      two_events (sample ∷ []) one_event-IsWritten refl
      (unfold parse_lines file_events lines_of trim_left trim_right split_lines lookup in refl)
      append_now

resolve_upload-IsCounted_example :
    IsCounted test_codec
      (resolve_upload test_codec fine_calls fine_calls "s" (some sample ∷ []) [] one_event).1
unfolding resolve_upload put_aside rewrite replace_segment event_lines total insert lookup
    file_events lines_of trim_left trim_right split_lines count_where is_ordinary_sample
    add_buffered remove_buffered
resolve_upload-IsCounted_example =
    resolve_upload-IsCounted test_codec test_codec-IsCodec fine_calls fine_calls "s"
      (some sample ∷ []) [] (123 ∷ 10 ∷ []) one_event (record { reads = refl; writes = refl }) refl
      (omega arith, omega arith) one_event-IsCounted

resolve_now :
    resolve_upload test_codec fine_calls fine_calls "s" (some sample ∷ []) [] one_event
    ≡ (none, one_event)
unfolding resolve_upload put_aside rewrite replace_segment event_lines insert lookup delete
    file_events file_class_counts counts_at lines_of trim_left trim_right split_lines count_where
    is_ordinary_sample add_buffered remove_buffered
resolve_now = refl

read_events-resolve_upload_example :
    read_events test_codec fine_calls "s" one_event.folder ≡ ok (sample ∷ [])
read_events-resolve_upload_example =
    read_events-resolve_upload test_codec test_codec-IsCodec fine_calls fine_calls fine_calls "s"
      sample [] [] one_event one_event refl resolve_now

quarantine-IsCounted_example :
    IsCounted test_codec (quarantine test_codec fine_calls "s" one_event).1
quarantine-IsCounted_example =
    quarantine-IsCounted test_codec fine_calls "s" one_event refl one_event-IsCounted

abbrev turned_down_sample : Option Rejection
turned_down_sample = some (record { event_id = "a"; code = "invalid_event" })

partition_upload_ack-keep_example :
    partition_upload_ack (λ s. s) (some sample ∷ []) (some (turned_down_sample ∷ [])) ≡ (
      keep (retried (λ s. s) (turned_down_sample ∷ [])) (some sample ∷ []),
      keep (set_aside (λ s. s) (turned_down_sample ∷ [])) (some sample ∷ []),
    )
partition_upload_ack-keep_example =
    partition_upload_ack-keep (λ s. s) (some sample ∷ []) (turned_down_sample ∷ [])
