-- ===== src/Client/Lines.antt =====
-- Lines of bytes, as lib/edgeclient/spool.go reads and writes them: `strings.TrimSpace` on ASCII,
-- `strings.Split` at newlines without the empty parts, and one object on each line.
use yu_feng.Base.{
  ℕ, ◌≡◌, refl, sym, ap, Bool, true, false, not, ◌&&◌, ◌||◌, List, [], ◌∷◌, ◌++◌, ◌==◌, leb, keep,
  All, if◌then◌else◌,
}
use yu_feng.Kernel.Artifact.{Bytes}

abbrev pub newline : ℕ
newline = 10

-- Tab, newline, vertical tab, form feed, carriage return and the space.
abbrev is_space : ℕ → Bool
is_space c = (leb 9 c && leb c 13) || c == 32

abbrev pub is_blank : Bytes → Bool
is_blank [] = true
is_blank (c ∷ cs) = false

-- Nothing, or a space first.
abbrev pub space_first : Bytes → Bool
space_first [] = true
space_first (c ∷ cs) = is_space c

unfoldable pub trim_left : Bytes → Bytes
trim_left [] = []
trim_left (c ∷ cs) = if is_space c then trim_left cs else c ∷ cs

unfoldable pub trim_right : Bytes → Bytes
trim_right [] = []
trim_right (c ∷ cs) =
    let rest = trim_right cs in if is_blank rest && is_space c then [] else c ∷ rest

abbrev pub onto_first : ℕ → List Bytes → List Bytes
onto_first c [] = (c ∷ []) ∷ []
onto_first c (line ∷ lines) = (c ∷ line) ∷ lines

unfoldable pub split_lines : Bytes → List Bytes
split_lines [] = [] ∷ []
split_lines (c ∷ cs) = if c == newline then [] ∷ split_lines cs else onto_first c (split_lines cs)

-- The lines that are read.
unfoldable pub lines_of : Bytes → List Bytes
lines_of content = keep (λ line. not (is_blank line)) (split_lines (trim_right (trim_left content)))

-- A line that a codec writes: it is not blank, has no newline and no space at either end.
pub record IsLine (line : Bytes) : Type 0 where
  pub some_byte : is_blank line ≡ false
  pub one_line : All (λ c. (c == newline) ≡ false) line
  pub left_end : space_first line ≡ false
  pub right_end : trim_right line ≡ line

-- The content of a file with these lines.
unfoldable pub content_of : List Bytes → Bytes
content_of [] = []
content_of (line ∷ lines) = line ++ newline ∷ content_of lines

append_nil : (xs : Bytes) → xs ++ [] ≡ xs
append_nil [] = refl
append_nil (x ∷ xs) = ap (λ ys. x ∷ ys) (append_nil xs)

append_assoc : (xs ys zs : Bytes) → (xs ++ ys) ++ zs ≡ xs ++ (ys ++ zs)
append_assoc [] ys zs = refl
append_assoc (x ∷ xs) ys zs = ap (λ r. x ∷ r) (append_assoc xs ys zs)

pub content_of-append :
    (lines : List Bytes) (line : Bytes)
    → content_of (lines ++ line ∷ []) ≡ content_of lines ++ (line ++ newline ∷ [])
unfolding content_of
content_of-append [] line = refl
content_of-append (first ∷ lines) line =
    rw (content_of-append lines line)
      (sym (append_assoc first (newline ∷ content_of lines) (line ++ newline ∷ [])))

-- A newline separates: what is before it and what is after it split by themselves.
split_lines-newline :
    (line xs : Bytes)
    → All (λ c. (c == newline) ≡ false) line
    → split_lines (line ++ newline ∷ xs) ≡ line ∷ split_lines xs
unfolding split_lines
split_lines-newline [] xs h = refl
split_lines-newline (c ∷ line) xs h = rw (h.0, split_lines-newline line xs h.1) refl

split_lines-one :
    (line : Bytes) → All (λ c. (c == newline) ≡ false) line → split_lines line ≡ line ∷ []
unfolding split_lines
split_lines-one [] h = refl
split_lines-one (c ∷ line) h = rw (h.0, split_lines-one line h.1) refl

is_blank-append : (xs ys : Bytes) → is_blank ys ≡ false → is_blank (xs ++ ys) ≡ false
is_blank-append [] ys h = h
is_blank-append (x ∷ xs) ys h = refl

trim_right-append :
    (xs ys : Bytes) → is_blank ys ≡ false → trim_right ys ≡ ys → trim_right (xs ++ ys) ≡ xs ++ ys
unfolding trim_right
trim_right-append [] ys h k = k
trim_right-append (x ∷ xs) ys h k = rw (trim_right-append xs ys h k, is_blank-append xs ys h) refl

trim_right-newline : (xs : Bytes) → trim_right (xs ++ newline ∷ []) ≡ trim_right xs
unfolding trim_right
trim_right-newline [] = refl
trim_right-newline (x ∷ xs) = rw (trim_right-newline xs) refl

-- Where the first byte is no space nothing is trimmed at the left.
trim_left_first : (xs : Bytes) → space_first xs ≡ false → trim_left xs ≡ xs
unfolding trim_left
trim_left_first [] h = refl
trim_left_first (x ∷ xs) h = rw (h) refl

space_first-append : (xs ys : Bytes) → space_first xs ≡ false → space_first (xs ++ ys) ≡ false
space_first-append [] ys h = cc
space_first-append (x ∷ xs) ys h = h

space_first-content :
    (lines : List Bytes) (line : Bytes)
    → All IsLine lines
    → IsLine line
    → space_first (content_of (lines ++ line ∷ [])) ≡ false
unfolding content_of
space_first-content [] line h k = space_first-append line (newline ∷ []) k.left_end
space_first-content (first ∷ lines) line h k =
    space_first-append first (newline ∷ content_of (lines ++ line ∷ [])) h.0.left_end

split_content :
    (lines : List Bytes) (line : Bytes)
    → All IsLine lines
    → IsLine line
    → keep (λ l. not (is_blank l)) (split_lines (content_of lines ++ line)) ≡ lines ++ line ∷ []
unfolding content_of
split_content [] line h k = rw (split_lines-one line k.one_line, k.some_byte) refl
split_content (first ∷ lines) line h k =
    rw
      (
        append_assoc first (newline ∷ content_of lines) line,
        split_lines-newline first (content_of lines ++ line) h.0.one_line,
        h.0.some_byte,
        split_content lines line h.1 k,
      )
      refl

trim_content :
    (lines : List Bytes) (line : Bytes)
    → All IsLine lines
    → IsLine line
    → trim_right (trim_left (content_of (lines ++ line ∷ []))) ≡ content_of lines ++ line
trim_content lines line h k =
    rw
      (
        trim_left_first (content_of (lines ++ line ∷ [])) (space_first-content lines line h k),
        content_of-append lines line,
        ← append_assoc (content_of lines) line (newline ∷ []),
        trim_right-newline (content_of lines ++ line),
      )
      (trim_right-append (content_of lines) line k.some_byte k.right_end)

-- A list that is not empty has a last entry.
last_entry :
    (first : Bytes) (rest : List Bytes)
    → IsLine first
    → All IsLine rest
    → (lines : List Bytes) × (line : Bytes) × (first ∷ rest ≡ lines ++ line ∷ [])
      × All IsLine lines
      × IsLine line
last_entry first [] h k = ([], first, refl, tt, h)
last_entry first (second ∷ rest) h k =
    let (lines, line, e, h1, h2) = last_entry second rest k.0 k.1 in
    (first ∷ lines, line, ap (λ r. first ∷ r) e, (h, h1), h2)

-- The lines that are read from a file are the lines that were written to it.
pub lines_of-content_of :
    (lines : List Bytes) → All IsLine lines → lines_of (content_of lines) ≡ lines
unfolding lines_of
lines_of-content_of [] h = unfold content_of trim_left trim_right split_lines in refl
lines_of-content_of (first ∷ rest) h =
    let (lines, line, e, h1, h2) = last_entry first rest h.0 h.1 in
    rw (e, trim_content lines line h1 h2) (split_content lines line h1 h2)
