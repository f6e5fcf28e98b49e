-- ===== src/Client/Ack/Parts.antt =====
-- The parts of a batch in lib/edgeclient/upload_acknowledgement.go.
use yu_feng.Base.{
  String, ◌≡◌, refl, ◌∙◌, Bool, false, not, List, [], ◌∷◌, Option, none, some, keep, str_eq, inl,
  inr, if◌then◌else◌, Bool-cases, Option-cases,
}
use yu_feng.Base.Assoc.{Assoc, lookup, insert, lookup-insert}
use yu_feng.Client.Events.{Event}
use yu_feng.Client.Ack.{
  Rejection, is_permanent_code, partition, partition_upload_ack, rejected_codes, sorted,
}

-- The last code that the response gives for an event.
unfoldable pub last_code : String → List (Option Rejection) → Option String
last_code id [] = none
last_code id (none ∷ rs) = last_code id rs
last_code id (some r ∷ rs) = elim (last_code id rs) [
  | none ↦ if str_eq r.event_id id then some r.code else none
  | some code ↦ some code
]

abbrev pub or_else : Option String → Option String → Option String
or_else none o = o
or_else (some code) o = some code

lookup-rejected_codes :
    (id : String) (rs : List (Option Rejection)) (codes : Assoc String)
    → lookup id (rejected_codes rs codes) ≡ or_else (last_code id rs) (lookup id codes)
unfolding rejected_codes last_code
lookup-rejected_codes id [] codes = refl
lookup-rejected_codes id (none ∷ rs) codes = lookup-rejected_codes id rs codes
lookup-rejected_codes id (some r ∷ rs) codes =
    let rest = lookup-rejected_codes id rs (insert r.event_id r.code codes) in
    let one = lookup-insert r.event_id id r.code codes in
    elim (Option-cases (last_code id rs)) [
      | inl none_later ↦ elim (Bool-cases (str_eq r.event_id id)) [
        | inl hit ↦ rw (rest, none_later, one, hit) refl
        | inr miss ↦ rw (rest, none_later, one, miss) refl
      ]
      | inr (code, later) ↦ rw (rest, later) refl
    ]

module _ (to_lower : String → String) where
  abbrev pub turned_down : Option String → Bool
  turned_down none = false
  turned_down (some code) = is_permanent_code to_lower code

  abbrev pub tried_again : Option String → Bool
  tried_again none = false
  tried_again (some code) = not (is_permanent_code to_lower code)

  -- An event by the last code that the response gives for it.
  abbrev pub of_code : (Option String → Bool) → List (Option Rejection) → Option Event → Bool
  of_code p rs none = false
  of_code p rs (some e) = p (last_code e.id rs)

  -- The events that are tried again, and those that are set aside.
  abbrev pub retried : List (Option Rejection) → Option Event → Bool
  retried rs e = of_code tried_again rs e

  abbrev pub set_aside : List (Option Rejection) → Option Event → Bool
  set_aside rs e = of_code turned_down rs e

  sorted-keep :
      (e : Event) (o : Option String) (retry permanent : List (Option Event))
      → sorted to_lower (some e) o (retry, permanent) ≡ (
        (if tried_again o then some e ∷ retry else retry),
        (if turned_down o then some e ∷ permanent else permanent),
      )
  sorted-keep e none retry permanent = refl
  sorted-keep e (some code) retry permanent = elim (Bool-cases (is_permanent_code to_lower code)) [
    | inl good ↦ rw (good) refl
    | inr bad ↦ rw (bad) refl
  ]

  partition-keep :
      (rs : List (Option Rejection)) (codes : Assoc String) (es : List (Option Event))
      → ((id : String) → lookup id codes ≡ last_code id rs)
      → partition to_lower codes es ≡ (keep (retried rs) es, keep (set_aside rs) es)
  unfolding partition
  partition-keep rs codes [] h = refl
  partition-keep rs codes (none ∷ es) h = partition-keep rs codes es h
  partition-keep rs codes (some e ∷ es) h =
      rw (partition-keep rs codes es h, h e.id)
        (sorted-keep e (last_code e.id rs) (keep (retried rs) es) (keep (set_aside rs) es))

  or_else-none : (o : Option String) → or_else o none ≡ o
  or_else-none none = refl
  or_else-none (some code) = refl

  -- The retries are the events whose last code is not a permanent one, and the others that are set
  -- aside are those whose last code is; an event with no code is in neither, and both are in order.
  pub partition_upload_ack-keep :
      (es : List (Option Event)) (rs : List (Option Rejection))
      → partition_upload_ack to_lower es (some rs) ≡ (keep (retried rs) es, keep (set_aside rs) es)
  unfolding partition_upload_ack lookup
  partition_upload_ack-keep es rs =
      partition-keep rs (rejected_codes rs []) es
        (λ id. lookup-rejected_codes id rs [] ∙ or_else-none (last_code id rs))
