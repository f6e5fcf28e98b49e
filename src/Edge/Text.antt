-- ===== src/Edge/Text.antt =====
-- Paths as lib/edgecore/shape.go takes them apart, and the few functions of Go's `strings` that it
-- needs. What depends on Unicode tables or on another parser is a field of `GoText`.
use Prim.Native.Char.{Char, code}
use Prim.Native.String.{len}
use yu_feng.Base.{
  ℕ, String, Bool, true, false, not, ◌&&◌, List, [], ◌∷◌, Option, none, some, ◌==◌, length, str_eq,
  is_empty, starts_with, if◌then◌else◌,
}
use yu_feng.Kernel.Artifact.{Bytes}
use yu_feng.Edge.Types.{Values}

-- A decoded JSON document; a number is kept as what `fmt.Sprintf("%f", v)` prints for it.
mutual
  pub data Json : Type 0 where
    null : Json
    boolean : Bool → Json
    number : String → Json
    text : String → Json
    array : Json
    object : Members → Json

  pub data Members : Type 0 where
    none_left : Members
    member : String → Json → Members → Members

-- strings.EqualFold, strings.ToUpper, strings.ToLower, strings.TrimSpace,
-- textproto.CanonicalMIMEHeaderKey, url.ParseQuery, url.QueryUnescape, json.Unmarshal, a []byte
-- read as a string, regexp.Compile with MatchString, unicode.IsDigit and unicode.IsLetter.
pub record GoText : Type 0 where
  pub equal_fold : String → String → Bool
  pub to_upper : String → String
  pub to_lower : String → String
  pub trim_space : String → String
  pub http_canonical : String → String
  pub parse_query : String → Option Values
  pub query_unescape : String → Option String
  pub parse_json : Bytes → Option Json
  pub string_of : Bytes → String
  pub compile_regexp : String → Option (String → Bool)
  pub is_digit : ℕ → Bool
  pub is_letter : ℕ → Bool

-- `strings.IndexByte(s, c)` and `s[:i]`: the text before the first `c`, or all of it.
unfoldable pub before : ℕ → String → String
before c String.[] = ""
before c (String.◌∷◌ x s) = if code x == c then "" else String.◌∷◌ x (before c s)

-- `strings.Cut(s, c)` for a separator of one character.
unfoldable pub cut : ℕ → String → Option (String × String)
cut c String.[] = none
cut c (String.◌∷◌ x s) =
    if code x == c
    then some ("", s)
    else elim (cut c s) [ none ↦ none | some (a, b) ↦ some (String.◌∷◌ x a, b) ]

-- `strings.TrimRight(s, c)` for a cut set of one character.
unfoldable pub trim_right : ℕ → String → String
trim_right c String.[] = ""
trim_right c (String.◌∷◌ x s) =
    let rest = trim_right c s in if is_empty rest && code x == c then "" else String.◌∷◌ x rest

-- `strings.Split(s, c)` for a separator of one character.
prepend : Char → List String → List String
prepend x [] = String.◌∷◌ x "" ∷ []
prepend x (part ∷ parts) = String.◌∷◌ x part ∷ parts

split_from : ℕ → String → List String
unfolding prepend
split_from c String.[] = "" ∷ []
split_from c (String.◌∷◌ x s) =
    if code x == c then "" ∷ split_from c s else prepend x (split_from c s)

unfoldable pub split : ℕ → String → List String
unfolding split_from
split = split_from

non_empty : List String → List String
non_empty [] = []
non_empty (part ∷ parts) = if is_empty part then non_empty parts else part ∷ non_empty parts

-- `splitPath`
unfoldable pub split_path : String → List String
unfolding split non_empty
split_path p = non_empty (split b'/' p)

-- `pathSegmentCount`
unfoldable pub path_segment_count : String → ℕ
unfolding split non_empty
path_segment_count p = length (non_empty (split b'/' p))

abbrev last_is : ℕ → String → Bool
last_is c String.[] = false
last_is c (String.◌∷◌ x s) = if is_empty s then code x == c else last_is c s

-- `strings.HasPrefix(t, "{") && strings.HasSuffix(t, "}")`
unfoldable pub is_placeholder : String → Bool
is_placeholder t = starts_with t "{" && last_is b'}' t

unfoldable pub segments_match : List String → List String → Bool
unfolding is_placeholder
segments_match [] [] = true
segments_match (t ∷ ts) (p ∷ ps) =
    if is_placeholder t
    then (if is_empty p then false else segments_match ts ps)
    else (if not (str_eq t p) then false else segments_match ts ps)
segments_match _ _ = false

-- `compiledRouteMatch`; a difference in length is found first in Go, and either way it is no match.
unfoldable pub compiled_route_match : List String → String → Bool
unfolding segments_match split_path
compiled_route_match template path =
    let parts = split_path path in
    if not (length template == length parts) then false else segments_match template parts

-- `routeTemplateMatch`
unfoldable pub route_template_match : String → String → Bool
unfolding segments_match split_path
route_template_match tmpl path =
    let ts = split_path tmpl in
    let ps = split_path path in if not (length ts == length ps) then false else segments_match ts ps

-- `stringInFold`
unfoldable pub string_in_fold : GoText → List String → String → Bool
string_in_fold g [] want = false
string_in_fold g (s ∷ list) want = if g.equal_fold s want then true else string_in_fold g list want

-- `len(s)`
abbrev pub byte_length : String → ℕ
byte_length = len
