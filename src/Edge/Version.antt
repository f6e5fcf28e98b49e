-- ===== src/Edge/Version.antt =====
-- `edgeVersionCompatible` of lib/edgecore/release_set.go: the order of versions. A number of a version is
-- taken to be below 2 ^ 63, where strconv.Atoi does not fail.
pub mod Laws
use Prim.Native.Char.{Char, code}
use yu_feng.Base.{
  ℕ, String, Bool, true, false, not, ◌&&◌, ◌||◌, List, [], ◌∷◌, Option, none, some, ◌+◌, ◌*◌, ◌-◌,
  ◌==◌, ltb, leb, is_empty, str_eq, is_some, if◌then◌else◌,
}
use yu_feng.Edge.Text.{GoText, split}

-- `strings.TrimPrefix(s, "v")`
abbrev pub trim_v : String → String
trim_v String.[] = ""
trim_v (String.◌∷◌ c s) = if code c == b'v' then s else String.◌∷◌ c s

abbrev pub is_mark : Char → Bool
is_mark c = code c == b'-' || code c == b'+'

until_mark : String → String
until_mark String.[] = ""
until_mark (String.◌∷◌ c s) = if is_mark c then "" else String.◌∷◌ c (until_mark s)

-- The first of `strings.FieldsFunc(raw, mark)`, and "" where there is none.
unfoldable pub first_field : String → String
unfolding until_mark
first_field String.[] = ""
first_field (String.◌∷◌ c s) = if is_mark c then first_field s else String.◌∷◌ c (until_mark s)

digits_from : ℕ → String → Option ℕ
digits_from n String.[] = some n
digits_from n (String.◌∷◌ c s) =
    if leb b'0' (code c) && leb (code c) b'9'
    then digits_from (n * 10 + (code c - b'0')) s
    else none

-- `strconv.Atoi` of a text with no sign.
unfoldable pub atoi : String → Option ℕ
unfolding digits_from
atoi s = if is_empty s then none else digits_from 0 s

pub record Version : Type 0 where
  pub major : ℕ
  pub minor : ℕ
  pub patch : ℕ

version_of : Option ℕ → Option ℕ → Option ℕ → Option Version
version_of (some a) (some b) (some c) = some (record { major = a; minor = b; patch = c })
version_of _ _ _ = none

version_parts : List String → Option Version
unfolding version_of
version_parts (a ∷ b ∷ c ∷ []) = version_of (atoi a) (atoi b) (atoi c)
version_parts _ = none

unfoldable pub parse_version : String → Option Version
unfolding version_parts
parse_version raw =
    if is_empty (first_field raw) then none else version_parts (split b'.' (first_field raw))

-- The loop over the three numbers: the first that differ decide.
unfoldable pub at_least : Version → Version → Bool
at_least a r =
    if not (a.major == r.major)
    then ltb r.major a.major
    else if not (a.minor == r.minor)
    then ltb r.minor a.minor
    else if not (a.patch == r.patch)
    then ltb r.patch a.patch
    else true

abbrev compared : String → String → Option Version → Option Version → Bool
compared actual required (some a) (some r) = at_least a r
compared actual required _ _ = str_eq actual required

-- Of a version that is trimmed already.
unfoldable pub trimmed_compatible : String → String → Bool
trimmed_compatible actual required =
    if str_eq required "dev"
    then true
    else compared actual required (parse_version actual) (parse_version required)

unfoldable pub edge_version_compatible : GoText → String → String → Bool
edge_version_compatible g actual required =
    trimmed_compatible (trim_v (g.trim_space actual)) (trim_v (g.trim_space required))
