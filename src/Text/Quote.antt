-- ===== src/Text/Quote.antt =====
-- strconv.Quote, as `%q` of fmt prints a text. Code points above 126 are kept as they are; Go
-- writes those of them that do not print as \u escapes.
use Prim.Native.Char.{Char, code}
use Prim.Native.String.{char_at, ◌++◌}
use pinakes.Base.{String, ◌/◌, ◌%◌, ◌||◌, ◌≡◌, refl, ltb, nat_eq, if◌then◌else◌}

quote_char : Char → String
quote_char c =
    let n = code c in
    if nat_eq n 0x22
    then "\\\""
    else if nat_eq n 0x5c
    then "\\\\"
    else if nat_eq n 7
    then "\\a"
    else if nat_eq n 8
    then "\\b"
    else if nat_eq n 9
    then "\\t"
    else if nat_eq n 10
    then "\\n"
    else if nat_eq n 11
    then "\\v"
    else if nat_eq n 12
    then "\\f"
    else if nat_eq n 13
    then "\\r"
    else if ltb n 0x20 || nat_eq n 0x7f
    then "\\x"
      ++ String.◌∷◌ (char_at "0123456789abcdef" (n / 16))
          (String.◌∷◌ (char_at "0123456789abcdef" (n % 16)) "")
    else String.◌∷◌ c ""

quote_chars : String → String
unfolding quote_char
quote_chars String.[] = "\""
quote_chars (String.◌∷◌ c s) = quote_char c ++ quote_chars s

unfoldable pub quote : String → String
unfolding quote_chars
quote s = "\"" ++ quote_chars s

quoted : quote "a\"\t" ≡ "\"a\\\"\\t\""
unfolding quote
quoted = refl
