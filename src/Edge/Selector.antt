-- ===== src/Edge/Selector.antt =====
-- `selectorValue` and `jsonField` of lib/edgecore/shape.go, `headerFirst` of lib/edgecore/evaluate.go.
use yu_feng.Base.{
  String, true, false, List, [], ◌∷◌, Option, none, some, ◌==◌, length, str_eq, is_empty,
  if◌then◌else◌,
}
use yu_feng.Base.Assoc.{lookup}
use yu_feng.Kernel.Artifact.{Bytes}
use yu_feng.Edge.Types.{Values, CanonicalView, Request}
use yu_feng.Edge.Text.{
  GoText, Json, Members, boolean, number, text, object, none_left, member, cut, split, trim_right,
}

-- A repeated member keeps the last value, as in a Go map that is filled in order.
find_member : String → Members → Option Json
find_member k none_left = none
find_member k (member j v rest) =
    let later = find_member k rest in
    elim later [ some w ↦ some w | none ↦ if str_eq j k then some v else none ]

json_text : Json → Option String
json_text (text s) = some s
json_text (number s) = some (trim_right b'.' (trim_right b'0' s))
json_text (boolean true) = some "true"
json_text (boolean false) = some "false"
json_text _ = none

json_member : String → Json → Option Json
unfolding find_member
json_member k (object ms) = find_member k ms
json_member k _ = none

json_walk : List String → Json → Option String
unfolding json_text json_member
json_walk [] v = json_text v
json_walk (part ∷ parts) v = elim (json_member part v) [ none ↦ none | some w ↦ json_walk parts w ]

-- `jsonField`
unfoldable pub json_field : GoText → Bytes → String → Option String
unfolding json_walk split
json_field g body path =
    if length body == 0
    then none
    else elim (g.parse_json body) [ none ↦ none | some root ↦ json_walk (split b'.' path) root ]

-- `url.Values.Get` behind `Has`: the first value, and "" where the list is empty.
first_or_empty : List String → String
first_or_empty [] = ""
first_or_empty (v ∷ vs) = v

query_value : String → Values → Option String
unfolding first_or_empty
query_value name q = elim (lookup name q) [ none ↦ none | some vs ↦ some (first_or_empty vs) ]

-- The `header` branch of `selectorValue`.
header_value : GoText → String → Request → Option String
header_value g name req = elim (lookup name req.headers) [
  | some v ↦ some v
  | none ↦ lookup (g.http_canonical name) req.headers
]

first_header : List String → Option String → Option String
first_header [] other = other
first_header (v ∷ vs) other = some v

values_of : Option (List String) → List String
values_of none = []
values_of (some vs) = vs

selected_header : GoText → String → Request → CanonicalView → Option String
unfolding header_value first_header values_of
selected_header g name req view =
    first_header (values_of (lookup (g.http_canonical name) view.headers)) (header_value g name req)

selected_query : GoText → String → Request → CanonicalView → Option String
unfolding query_value
selected_query g name req view = elim view.query [
  | some q ↦ query_value name q
  | none ↦ elim (g.parse_query req.query) [ none ↦ none | some q ↦ query_value name q ]
]

selected : GoText → String → String → Request → CanonicalView → Option String
unfolding selected_query selected_header json_field
selected g kind name req view =
    if is_empty name
    then none
    else if str_eq (g.to_lower kind) "query"
    then selected_query g name req view
    else if str_eq (g.to_lower kind) "header"
    then selected_header g name req view
    else if str_eq (g.to_lower kind) "json"
    then json_field g view.body name
    else none

-- `selectorValue`
unfoldable pub selector_value : GoText → String → Request → CanonicalView → Option String
unfolding selected
selector_value g sel req view = elim (cut b'.' sel) [
  | none ↦ none
  | some (kind, name) ↦ selected g kind name req view
]

-- A header of the request that is there and not empty.
non_empty_header : String → Request → Option String
non_empty_header name req = elim (lookup name req.headers) [
  | none ↦ none
  | some v ↦ if is_empty v then none else some v
]

-- `headerFirst`
unfoldable pub header_first : GoText → CanonicalView → Request → String → String
unfolding non_empty_header values_of
header_first g view req name = elim (values_of (lookup (g.http_canonical name) view.headers)) [
  | v ∷ vs ↦ v
  | [] ↦ elim (non_empty_header name req) [
    | some v ↦ v
    | none ↦ elim (non_empty_header (g.http_canonical name) req) [ some v ↦ v | none ↦ "" ]
  ]
]
