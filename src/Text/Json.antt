-- ===== src/Text/Json.antt =====
-- encoding/json on a text, as the bus marshals the identity of an injection.
use Prim.Native.Char.{Char, code}
use Prim.Native.String.{char_at, ◌++◌}
use pinakes.Base.{ℕ, String, ◌/◌, ◌%◌, ◌||◌, ◌≡◌, refl, ltb, nat_eq, if◌then◌else◌}

-- \u00XX
hex_escape : ℕ → String
hex_escape c =
    "\\u00"
    ++ String.◌∷◌ (char_at "0123456789abcdef" (c / 16))
        (String.◌∷◌ (char_at "0123456789abcdef" (c % 16)) "")

escape_char : Char → String
unfolding hex_escape
escape_char c =
    let n = code c in
    if nat_eq n 0x22
    then "\\\""
    else if nat_eq n 0x5c
    then "\\\\"
    else if nat_eq n 8
    then "\\b"
    else if nat_eq n 9
    then "\\t"
    else if nat_eq n 10
    then "\\n"
    else if nat_eq n 12
    then "\\f"
    else if nat_eq n 13
    then "\\r"
    else if ltb n 0x20 || nat_eq n b'<' || nat_eq n b'>' || nat_eq n b'&'
    then hex_escape n
    else if nat_eq n 0x2028
    then "\\u2028"
    else if nat_eq n 0x2029
    then "\\u2029"
    else String.◌∷◌ c ""

escape : String → String
unfolding escape_char
escape String.[] = ""
escape (String.◌∷◌ c s) = escape_char c ++ escape s

-- The JSON text of map[string]any{"identity": identity}.
unfoldable pub identity_json : String → String
unfolding escape
identity_json identity = "{\"identity\":\"" ++ escape identity ++ "\"}"

escaped : identity_json "a<\"b" ≡ "{\"identity\":\"a\\u003c\\\"b\"}"
unfolding identity_json
escaped = refl
