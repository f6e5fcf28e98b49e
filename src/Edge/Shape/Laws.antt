-- ===== src/Edge/Shape/Laws.antt =====
-- Which shapes `compileShape` of lib/edgecore/shape.go lets through, and what they cover.
use Prim.Native.String.append
use text.Mathlib.TextPositions.{starts_with_of_prefix}
use yu_feng.Base.{
  String, ◌≡◌, ap, suc, eq_iff, Bool, true, false, ◌≤◌, ◌<◌, List, [], ◌∷◌, Option, none, some,
  arith, All, length, is_empty, Option-cases, inl, inr, starts_with, if◌then◌else◌,
}
use yu_feng.Base.Result.{ok, >>=-eq-ok}
use yu_feng.Edge.Types.{CanonicalView, Request}
use yu_feng.Edge.Text.{GoText, split_path, byte_length}
use yu_feng.Edge.Selector.{selector_value}
use yu_feng.Edge.Shape.{
  ShapeConstraint, ShapeSource, CompiledShape, known_charset, validate_constraint,
  validate_constraints, validate_shape_source, compile_shape, shape_covers, violates, breaks,
  any_breaks, has_method, charset_ok,
}

-- What a constraint of a compiled shape is known to be.
abbrev pub Bounded : ShapeConstraint → Type 0
Bounded c =
    (is_empty c.selector ≡ false)
    × (0 < c.max_len)
    × (c.min_len ≤ c.max_len)
    × (known_charset c.charset ≡ true)

validate_constraint-Bounded :
    (o : Option ShapeConstraint) (c : ShapeConstraint) → validate_constraint o ≡ ok c → Bounded c
unfolding validate_constraint
validate_constraint-Bounded none c h = cc
validate_constraint-Bounded (some x) c h = ground arith

validate_constraints-Bounded :
    (os : List (Option ShapeConstraint)) (cs : List ShapeConstraint)
    → validate_constraints os ≡ ok cs
    → All Bounded cs × (length cs ≡ length os)
unfolding validate_constraints
validate_constraints-Bounded [] cs h = ground arith
validate_constraints-Bounded (o ∷ os) [] h =
    let (c, _, h') = >>=-eq-ok (validate_constraint o) _ h in
    let (rest, _, h'') = >>=-eq-ok (validate_constraints os) _ h' in cc
validate_constraints-Bounded (o ∷ os) (c ∷ cs) h =
    let (c', e, h') = >>=-eq-ok (validate_constraint o) _ h in
    let (rest, e', h'') = >>=-eq-ok (validate_constraints os) _ h' in
    let (bounded, same) = validate_constraints-Bounded os cs (cc) in
    ((validate_constraint-Bounded o c (cc), bounded), ap suc same)

starts_with_empty : (s : String) → starts_with s "" ≡ true
starts_with_empty s = starts_with_of_prefix "" s (s, λ i. append.nil s i)

module _ (g : GoText) (uuid_charset : String → Bool) where
  -- A request satisfies a constraint: the value is there, of an allowed length, in the charset.
  abbrev pub Keeps : Request → CanonicalView → ShapeConstraint → Type 0
  Keeps req view c =
      (v : String) × (selector_value g c.selector req view ≡ some v)
      × (c.min_len ≤ byte_length v)
      × (byte_length v ≤ c.max_len)
      × (charset_ok g uuid_charset c.charset v ≡ true)

  breaks_sound :
      (c : ShapeConstraint) (req : Request) (view : CanonicalView)
      → breaks g uuid_charset c req view ≡ false
      → Keeps req view c
  unfolding breaks
  breaks_sound c req view h = elim (Option-cases (selector_value g c.selector req view)) [
    | inl e ↦ ground (arith, e)
    | inr (v, e) ↦ (v, e, ground (arith, e), ground (arith, e), ground (arith, e))
  ]

  any_breaks_sound :
      (cs : List ShapeConstraint) (req : Request) (view : CanonicalView)
      → any_breaks g uuid_charset cs req view ≡ false
      → All (Keeps req view) cs
  unfolding any_breaks
  any_breaks_sound [] req view h = tt
  any_breaks_sound (c ∷ cs) req view h =
      (breaks_sound c req view (ground arith), any_breaks_sound cs req view (ground arith))

  -- What passes a shape that covers it uses a listed method and meets every constraint.
  pub violates_sound :
      (s : CompiledShape) (req : Request) (view : CanonicalView)
      → shape_covers g uuid_charset s req view ≡ true
      → violates g uuid_charset s req view ≡ false
      → (has_method g uuid_charset s.methods
            (g.to_upper (if is_empty view.method then g.to_upper req.method else view.method))
          ≡ true)
        × All (Keeps req view) s.constraints
  unfolding violates
  violates_sound s req view covers passes =
      (ground arith, any_breaks_sound s.constraints req view (ground arith))

  root_route :
      (src : ShapeSource) (s : CompiledShape)
      → split_path src.route_template ≡ []
      → compile_shape g uuid_charset (some src) ≡ ok s
      → s.route ≡ []
  unfolding compile_shape
  root_route src s root h =
      let (cs, e, h') = >>=-eq-ok (validate_shape_source (some src)) _ h in ground arith

  root_prefix :
      (src : ShapeSource) (s : CompiledShape)
      → is_empty src.path_prefix ≡ true
      → compile_shape g uuid_charset (some src) ≡ ok s
      → s.path_prefix ≡ ""
  unfolding compile_shape
  root_prefix src s no_prefix h =
      let (cs, e, h') = >>=-eq-ok (validate_shape_source (some src)) _ h in
      ground (arith, eq_iff src.path_prefix "")

  -- A template of slashes alone, "/" for one, has no segments: with no prefix beside it, validation
  -- lets it through, and the compiled shape covers every path and not the root alone.
  pub root_template_covers_all :
      (src : ShapeSource) (s : CompiledShape) (req : Request) (view : CanonicalView)
      → split_path src.route_template ≡ []
      → is_empty src.path_prefix ≡ true
      → compile_shape g uuid_charset (some src) ≡ ok s
      → shape_covers g uuid_charset s req view ≡ true
  unfolding compile_shape shape_covers
  root_template_covers_all src s req view root no_prefix h =
      let route_is : s.route ≡ [] = root_route src s root h in
      let prefix_is : s.path_prefix ≡ "" = root_prefix src s no_prefix h in
      rw (route_is, prefix_is) (starts_with_empty _)
