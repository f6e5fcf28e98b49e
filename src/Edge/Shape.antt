-- ===== src/Edge/Shape.antt =====
-- lib/edgecore/shape.go: positive request shapes, their validation and their compiled form. Lengths are
-- below 2 ^ 31, where the source's conversion of a length to `int32` is exact.
pub mod Laws
use Prim.Native.Char.{code}
use yu_feng.Base.{
  ℕ, String, Bool, true, false, not, ◌&&◌, ◌||◌, List, [], ◌∷◌, map, Option, none, some, ◌==◌, ltb,
  leb, length, str_eq, is_empty, starts_with, if◌then◌else◌,
}
use yu_feng.Base.Result.{Result, ok, err, require, ◌>>=◌, ◌>>◌}
use yu_feng.Edge.Types.{CanonicalView, Request}
use yu_feng.Edge.Text.{GoText, split_path, path_segment_count, compiled_route_match, byte_length}
use yu_feng.Edge.Selector.{selector_value}

pub record ShapeConstraint : Type 0 where
  pub selector : String
  pub charset : String
  pub min_len : ℕ
  pub max_len : ℕ

pub record ShapeSource : Type 0 where
  pub methods : List String
  pub route_template : String
  pub path_prefix : String
  pub constraints : List (Option ShapeConstraint)

pub record CompiledShape : Type 0 where
  pub methods : List String
  pub route : List String
  pub path_prefix : String
  pub constraints : List ShapeConstraint

pub data ShapeError : Type 0 where
  source_required methods_required route_required prefix_too_wide too_many_selectors : ShapeError
  selector_required missing_max_len invalid_bounds charset_any charset_unknown : ShapeError

unfoldable pub known_charset : String → Bool
known_charset c =
    is_empty c
    || str_eq c "ascii_print"
    || str_eq c "digit"
    || str_eq c "alpha"
    || str_eq c "hex"
    || str_eq c "uuid"

-- One round of the loop of `ValidateShapeSource`.
unfoldable pub validate_constraint : Option ShapeConstraint → Result ShapeError ShapeConstraint
validate_constraint none = err selector_required
validate_constraint (some c) = do
  require (not (is_empty c.selector)) selector_required
  require (ltb 0 c.max_len) missing_max_len
  require (leb c.min_len c.max_len) invalid_bounds
  require (not (str_eq c.charset "any")) charset_any
  require (known_charset c.charset) charset_unknown
  ok c

-- The loop, with the constraints that passed.
unfoldable pub validate_constraints :
    List (Option ShapeConstraint) → Result ShapeError (List ShapeConstraint)
validate_constraints [] = ok []
validate_constraints (c ∷ cs) = do
  k ← validate_constraint c
  rest ← validate_constraints cs
  ok (k ∷ rest)

-- `ValidateShapeSource`; it returns the constraints, which the compiled form takes over.
unfoldable pub validate_shape_source : Option ShapeSource → Result ShapeError (List ShapeConstraint)
validate_shape_source none = err source_required
validate_shape_source (some src) = do
  require (ltb 0 (length src.methods)) methods_required
  require (not (is_empty src.route_template && is_empty src.path_prefix)) route_required
  require
      (is_empty src.path_prefix
        || not (str_eq src.path_prefix "/" || ltb (path_segment_count src.path_prefix) 2))
      prefix_too_wide
  require (leb (length src.constraints) 16) too_many_selectors
  validate_constraints src.constraints

all_chars : (ℕ → Bool) → String → Bool
all_chars p String.[] = true
all_chars p (String.◌∷◌ c s) = if not (p (code c)) then false else all_chars p s

is_hex : ℕ → Bool
is_hex c = (leb b'0' c && leb c b'9') || (leb b'a' c && leb c b'f') || (leb b'A' c && leb c b'F')

module _ (g : GoText) (uuid_charset : String → Bool) where
  -- `charsetOK`; the pattern of a UUID is a regular expression.
  unfoldable pub charset_ok : String → String → Bool
  unfolding all_chars is_hex
  charset_ok kind val =
      if is_empty kind || str_eq kind "ascii_print"
      then all_chars (λ r. leb 32 r && leb r 126) val
      else if str_eq kind "digit"
      then all_chars g.is_digit val
      else if str_eq kind "alpha"
      then all_chars g.is_letter val
      else if str_eq kind "hex"
      then all_chars is_hex val
      else if str_eq kind "uuid"
      then uuid_charset val
      else false

  -- `compileShape`
  unfoldable pub compile_shape : Option ShapeSource → Result ShapeError CompiledShape
  compile_shape none = err source_required
  compile_shape (some src) = do
    constraints ← validate_shape_source (some src)
    ok (record {
      methods = map g.to_upper src.methods;
      route = if is_empty src.route_template then [] else split_path src.route_template;
      path_prefix = src.path_prefix;
      constraints = constraints;
    })

  -- The value that a constraint selects is missing, or not of its length or charset.
  unfoldable pub breaks : ShapeConstraint → Request → CanonicalView → Bool
  breaks c req view = elim (selector_value g c.selector req view) [
    | none ↦ true
    | some v ↦
        ltb (byte_length v) c.min_len
        || ltb c.max_len (byte_length v)
        || not (charset_ok c.charset v)
  ]

  unfoldable pub any_breaks : List ShapeConstraint → Request → CanonicalView → Bool
  any_breaks [] req view = false
  any_breaks (c ∷ cs) req view = if breaks c req view then true else any_breaks cs req view

  unfoldable pub has_method : List String → String → Bool
  has_method [] m = false
  has_method (x ∷ xs) m = str_eq x m || has_method xs m

  -- The request is on the route of the shape.
  unfoldable pub shape_covers : CompiledShape → Request → CanonicalView → Bool
  shape_covers s req view =
      let path = if is_empty view.path then req.path else view.path in
      if ltb 0 (length s.route)
      then compiled_route_match s.route path
      else starts_with path s.path_prefix

  -- `compiledShape.Violates`
  unfoldable pub violates : CompiledShape → Request → CanonicalView → Bool
  violates s req view =
      let method = if is_empty view.method then g.to_upper req.method else view.method in
      if not (shape_covers s req view)
      then false
      else if not (has_method s.methods (g.to_upper method))
      then true
      else any_breaks s.constraints req view

  -- `ShapeViolates`
  unfoldable pub shape_violates : Option ShapeSource → Request → CanonicalView → Bool
  shape_violates src req view = elim (compile_shape src) [
    | err e ↦ false
    | ok s ↦ violates s req view
  ]
