-- ===== src/Client/Events.antt =====
-- The events of lib/edgeclient/spool.go and their two classes.
use yu_feng.Base.{
  ℕ, String, Bool, true, false, not, ◌&&◌, ◌+◌, List, [], ◌∷◌, Option, none, some, ◌==◌,
}
use yu_feng.Kernel.Artifact.{Bytes}

-- eventv1.Event: what the spool reads of it, with the numbers of its enumerations, and the rest.
pub record Event : Type 0 where
  pub id : String
  pub verdict : ℕ
  pub detections : List Bytes
  pub would_have_blocked : Bool
  pub observation : ℕ
  pub others : Bytes

-- protojson.Marshal and protojson.Unmarshal of an event.
pub record EventCodec : Type 0 where
  pub marshal : Event → Option Bytes
  pub unmarshal : Bytes → Option Event

abbrev verdict_allow : ℕ
verdict_allow = 1

abbrev sync_no_detection : ℕ
sync_no_detection = 2

abbrev no_entries : List Bytes → Bool
no_entries [] = true
no_entries (d ∷ ds) = false

unfoldable pub is_ordinary_sample : Option Event → Bool
is_ordinary_sample none = false
is_ordinary_sample (some e) =
    e.verdict == verdict_allow
    && no_entries e.detections
    && not e.would_have_blocked
    && e.observation == sync_no_detection

abbrev pub one_if : Bool → ℕ
one_if true = 1
one_if false = 0

unfoldable pub count_where : (Option Event → Bool) → List (Option Event) → ℕ
count_where p [] = 0
count_where p (e ∷ es) = one_if (p e) + count_where p es

abbrev pub is_there : Option Event → Bool
is_there none = false
is_there (some e) = true

abbrev pub is_critical : Option Event → Bool
is_critical e = not (is_ordinary_sample e) && is_there e

-- The critical events, and the ordinary samples.
abbrev pub event_class_counts : List (Option Event) → ℕ × ℕ
event_class_counts es = (count_where is_critical es, count_where is_ordinary_sample es)
