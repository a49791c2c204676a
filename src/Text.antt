-- ===== src/Text.antt =====
-- Go's `strings` and `fmt` as far as the bus calls them, over code points of valid UTF-8.
pub mod Decimal
pub mod Laws
pub mod Json
pub mod Csv
pub mod Quote
use Prim.Native.Char.{Char, code}
use Prim.Native.String.{char_at}
use pinakes.Base.{
  ℕ, String, Bool, true, false, ◌||◌, ◌&&◌, ◌-◌, ltb, leb, nat_eq, ◌==◌, if◌then◌else◌,
}

-- unicode.IsSpace
unfoldable pub is_space : ℕ → Bool
is_space c =
    (leb 9 c && leb c 13)
    || nat_eq c 32
    || nat_eq c 0x85
    || nat_eq c 0xa0
    || nat_eq c 0x1680
    || (leb 0x2000 c && leb c 0x200a)
    || nat_eq c 0x2028
    || nat_eq c 0x2029
    || nat_eq c 0x202f
    || nat_eq c 0x205f
    || nat_eq c 0x3000

unfoldable pub trim_left : String → String
trim_left String.[] = ""
trim_left (String.◌∷◌ c s) = if is_space (code c) then trim_left s else String.◌∷◌ c s

abbrev put_unless_space : Char → String → String
put_unless_space c String.[] = if is_space (code c) then "" else String.◌∷◌ c ""
put_unless_space c (String.◌∷◌ d s) = String.◌∷◌ c (String.◌∷◌ d s)

unfoldable pub trim_right : String → String
trim_right String.[] = ""
trim_right (String.◌∷◌ c s) = put_unless_space c (trim_right s)

-- strings.TrimSpace
unfoldable pub trim_space : String → String
unfolding trim_left trim_right is_space
trim_space s = trim_right (trim_left s)

-- strings.Contains(s, ".")
unfoldable pub has_dot : String → Bool
has_dot String.[] = false
has_dot (String.◌∷◌ c s) = nat_eq (code c) b'.' || has_dot s

-- The first result of strings.Cut(s, "."), where there is a dot.
unfoldable pub before_dot : String → String
before_dot String.[] = ""
before_dot (String.◌∷◌ c s) = if nat_eq (code c) b'.' then "" else String.◌∷◌ c (before_dot s)

-- unicode.ToLower, on the characters whose lower case is an ASCII letter. Others are kept as they
-- are, and no comparison of the bus tells the difference: it compares with ASCII words.
unfoldable pub lower_char : Char → Char
lower_char c =
    if leb b'A' (code c) && leb (code c) b'Z'
    then char_at "abcdefghijklmnopqrstuvwxyz" (code c - b'A')
    else if nat_eq (code c) 0x130
    then "i"
    else if nat_eq (code c) 0x212a
    then "k"
    else c

-- strings.ToLower
unfoldable pub to_lower : String → String
unfolding lower_char
to_lower String.[] = ""
to_lower (String.◌∷◌ c s) = String.◌∷◌ (lower_char c) (to_lower s)
