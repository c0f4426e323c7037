-- ===== src/Text.antt =====
-- Text that the host takes apart, as the list of its UTF-16 code units, with the string methods that
-- the host calls on it: `===`, `startsWith`, `split`, `indexOf`, `toUpperCase`, `trimStart`.
-- Letters are changed in case only if they are ASCII: no other letter becomes one of the ASCII letters
-- that the host compares with.
pub mod Laws
use snow_mcp.Common.{
  ℕ, zero, suc, ◌+◌, ◌-◌, String, Bool, true, false, ◌&&◌, ◌||◌, Option, none, some, List, [], ◌∷◌,
  ltb, leb, ◌==◌, if◌then◌else◌,
}
use Prim.Native.Char.{code}

abbrev pub Text : Type 0
Text = List ℕ

-- An ASCII literal as a text.
abbrev pub text : String → Text
text String.[] = []
text (String.◌∷◌ c s) = code c ∷ text s

unfoldable pub text_eq : Text → Text → Bool
text_eq [] [] = true
text_eq (a ∷ s) (b ∷ t) = (a == b) && text_eq s t
text_eq _ _ = false

-- `list.includes(s)`, and `set.has(s)`.
unfoldable pub includes : List Text → Text → Bool
includes [] s = false
includes (t ∷ ts) s = text_eq t s || includes ts s

-- `s.startsWith(p)`.
unfoldable pub has_prefix : Text → Text → Bool
has_prefix [] s = true
has_prefix (a ∷ p) [] = false
has_prefix (a ∷ p) (b ∷ s) = (a == b) && has_prefix p s

-- A test of every code unit: `/^[…]*$/`.
unfoldable pub all_units : (ℕ → Bool) → Text → Bool
all_units p [] = true
all_units p (c ∷ s) = p c && all_units p s

-- The initial run of code units that pass a test.
unfoldable pub leading : (ℕ → Bool) → Text → Text
leading p [] = []
leading p (c ∷ s) = if p c then c ∷ leading p s else []

unfoldable pub drop_leading : (ℕ → Bool) → Text → Text
drop_leading p [] = []
drop_leading p (c ∷ s) = if p c then drop_leading p s else c ∷ s

-- What stands after a prefix of which it is known that it is one.
unfoldable pub drop : ℕ → Text → Text
drop n [] = []
drop zero s = s
drop (suc n) (c ∷ s) = drop n s

abbrev pub is_between : ℕ → ℕ → ℕ → Bool
is_between lo hi c = leb lo c && leb c hi

abbrev pub is_digit : ℕ → Bool
is_digit c = is_between b'0' b'9' c

abbrev pub is_lower : ℕ → Bool
is_lower c = is_between b'a' b'z' c

abbrev pub is_upper : ℕ → Bool
is_upper c = is_between b'A' b'Z' c

abbrev pub is_letter : ℕ → Bool
is_letter c = is_lower c || is_upper c

unfoldable pub to_lower : ℕ → ℕ
to_lower c = if is_upper c then c + 32 else c

unfoldable pub to_upper : ℕ → ℕ
to_upper c = if is_lower c then c - 32 else c

unfoldable pub map_units : (ℕ → ℕ) → Text → Text
map_units f [] = []
map_units f (c ∷ s) = f c ∷ map_units f s

-- The white space and the line ends of ECMAScript, which `trim` removes.
unfoldable pub is_space : ℕ → Bool
is_space c =
    is_between 9 13 c
    || (c == 32)
    || (c == 160)
    || (c == 0x1680)
    || is_between 0x2000 0x200a c
    || (c == 0x2028)
    || (c == 0x2029)
    || (c == 0x202f)
    || (c == 0x205f)
    || (c == 0x3000)
    || (c == 0xfeff)

unfoldable pub trim_start : Text → Text
unfolding drop_leading is_space
trim_start s = drop_leading is_space s

-- `!s.trim()`.
unfoldable pub is_blank : Text → Bool
unfolding all_units is_space
is_blank s = all_units is_space s

-- `s.split(c)`, as the first piece and those after it.
abbrev pub Pieces : Type 0
Pieces = Text × List Text

abbrev add_unit : ℕ → Pieces → Pieces
add_unit c (piece, rest) = (c ∷ piece, rest)

abbrev new_piece : Pieces → Pieces
new_piece (piece, rest) = ([], piece ∷ rest)

unfoldable pub split_pieces : ℕ → Text → Pieces
split_pieces sep [] = ([], [])
split_pieces sep (c ∷ s) =
    let rest = split_pieces sep s in if c == sep then new_piece rest else add_unit c rest

unfoldable pub split_on : ℕ → Text → List Text
unfolding split_pieces
split_on sep s = let (first, rest) = split_pieces sep s in first ∷ rest
