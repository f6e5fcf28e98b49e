-- ===== src/Client/Spool/Written.antt =====
-- Files of whole lines, as lib/edgeclient/spool.go writes them.
use yu_feng.Base.{◌≡◌, refl, ◌∙◌, ap, ◌+◌, Bool, List, [], ◌∷◌, ◌++◌, map, Option, some, All, arith}
use yu_feng.Kernel.Artifact.{Bytes}
use yu_feng.Client.Lines.{
  IsLine, content_of, content_of-append, lines_of, lines_of-content_of, newline,
}
use yu_feng.Client.Events.{Event, EventCodec, count_where}

-- What the two functions of protojson promise: the line of an event is one line and is read back.
pub record IsCodec (codec : EventCodec) : Type 0 where
  pub line : (e : Event) (raw : Bytes) → codec.marshal e ≡ some raw → IsLine raw
  pub round_trip :
      (e : Event) (raw : Bytes) → codec.marshal e ≡ some raw → codec.unmarshal raw ≡ some e

pub count_where-append :
    (p : Option Event → Bool) (es fs : List (Option Event))
    → count_where p (es ++ fs) ≡ count_where p es + count_where p fs
unfolding count_where
count_where-append p [] fs = omega arith
count_where-append p (e ∷ es) fs = let rest = count_where-append p es fs in omega arith

pub map-append :
    (f : Bytes → Option Event) (xs ys : List Bytes) → map f (xs ++ ys) ≡ map f xs ++ map f ys
map-append f [] ys = refl
map-append f (x ∷ xs) ys = ap (λ r. f x ∷ r) (map-append f xs ys)

-- The file holds whole lines.
pub record IsWritten (raw : Bytes) : Type 0 where
  pub lines : List Bytes
  pub each_line : All IsLine lines
  pub content : raw ≡ content_of lines

All-append_one :
    (lines : List Bytes) (line : Bytes)
    → All IsLine lines
    → IsLine line
    → All IsLine (lines ++ line ∷ [])
All-append_one [] line h k = (k, tt)
All-append_one (first ∷ lines) line h k = (h.0, All-append_one lines line h.1 k)

pub written_line :
    (raw line : Bytes) → IsWritten raw → IsLine line → IsWritten (raw ++ (line ++ newline ∷ []))
written_line raw line h k = record {
  lines = h.lines ++ line ∷ [];
  each_line = All-append_one h.lines line h.each_line k;
  content = rw (content_of-append h.lines line, ← h.content) refl;
}

pub nothing-IsWritten : IsWritten []
unfolding content_of
nothing-IsWritten = record { lines = []; each_line = tt; content = refl }

-- A line that is written after the lines of a file is read after them.
pub lines_of-append :
    (raw line : Bytes)
    → IsWritten raw
    → IsLine line
    → lines_of (raw ++ (line ++ newline ∷ [])) ≡ lines_of raw ++ line ∷ []
unfolding written_line
lines_of-append raw line h k =
    let w = written_line raw line h k in
    let e : lines_of (raw ++ (line ++ newline ∷ [])) ≡ h.lines ++ line ∷ [] =
      ap lines_of w.content ∙ lines_of-content_of w.lines w.each_line in
    let f : lines_of raw ≡ h.lines =
      ap lines_of h.content ∙ lines_of-content_of h.lines h.each_line in
    rw (f) e
