-- ===== src/Text/Csv.antt =====
-- encoding/csv as internal/nsmigrate/manifest.go uses it: a comma between fields, quotes that are
-- not lazy, records of any width, lines that end with "\n". Of a syntax error the reader keeps the
-- kind, and not the position that the text of csv.ParseError also names.
pub mod Laws
pub mod Returns
use Prim.Native.Char.{Char, code}
use Prim.Native.String.{◌++◌}
use pinakes.Base.{String, Bool, true, false, List, [], ◌∷◌, ◌||◌, ◌&&◌, ◌==◌, nat_eq, if◌then◌else◌}
use pinakes.Text.{is_space}

pub data Mark : Type 0 where
  comma newline quote letter : Mark

unfoldable pub mark : Char → Mark
mark c =
    if nat_eq (code c) b','
    then comma
    else if nat_eq (code c) 10
    then newline
    else if nat_eq (code c) 34
    then quote
    else letter

-- What Reader.Read returns, call after call: a record, then the rest; io.EOF; or a syntax error,
-- after which the caller stops.
pub data Records : Type 0 where
  end : Records
  broken : String → Records
  row : List String → Records → Records

-- The character stands at the front of the first field of the record that is being read.
abbrev pub put_char : Char → Records → Records
put_char c end = end
put_char c (broken e) = broken e
put_char c (row [] rest) = row (String.◌∷◌ c "" ∷ []) rest
put_char c (row (f ∷ fs) rest) = row (String.◌∷◌ c f ∷ fs) rest

-- A field ends before the record that is being read.
abbrev pub put_field : Records → Records
put_field end = end
put_field (broken e) = broken e
put_field (row fs rest) = row ("" ∷ fs) rest

-- Where the reader stands: before a record, at a field, in a bare field, in a quoted field, or
-- after a quote inside a quoted field.
pub data Mode : Type 0 where
  line_start field_start bare quoted quote_seen : Mode

unfoldable pub read : Mode → String → Records
unfolding mark
read line_start String.[] = end
read field_start String.[] = row ("" ∷ []) end
read bare String.[] = row ("" ∷ []) end
read quote_seen String.[] = row ("" ∷ []) end
read quoted String.[] = broken "extraneous or missing \" in quoted-field"
read line_start (String.◌∷◌ c s) = elim (mark c) [
  | comma ↦ put_field (read field_start s)
  | newline ↦ read line_start s
  | quote ↦ read quoted s
  | letter ↦ put_char c (read bare s)
]
read field_start (String.◌∷◌ c s) = elim (mark c) [
  | comma ↦ put_field (read field_start s)
  | newline ↦ row ("" ∷ []) (read line_start s)
  | quote ↦ read quoted s
  | letter ↦ put_char c (read bare s)
]
read bare (String.◌∷◌ c s) = elim (mark c) [
  | comma ↦ put_field (read field_start s)
  | newline ↦ row ("" ∷ []) (read line_start s)
  | quote ↦ broken "bare \" in non-quoted-field"
  | letter ↦ put_char c (read bare s)
]
read quoted (String.◌∷◌ c s) = elim (mark c) [
  | quote ↦ read quote_seen s
  | _ ↦ put_char c (read quoted s)
]
read quote_seen (String.◌∷◌ c s) = elim (mark c) [
  | comma ↦ put_field (read field_start s)
  | newline ↦ row ("" ∷ []) (read line_start s)
  | quote ↦ put_char c (read quoted s)
  | letter ↦ broken "extraneous or missing \" in quoted-field"
]

abbrev ends_line : String → Bool
ends_line String.[] = true
ends_line (String.◌∷◌ c s) = nat_eq (code c) 10

-- Reader.readLine drops a carriage return before "\n" and before the end of the file.
unfoldable pub drop_returns : String → String
drop_returns String.[] = ""
drop_returns (String.◌∷◌ c s) =
    let rest = drop_returns s in
    if nat_eq (code c) 13 && ends_line s then rest else String.◌∷◌ c rest

-- Reader.Read, until it returns an error
unfoldable pub read_all : String → Records
unfolding read drop_returns
read_all text = read line_start (drop_returns text)

has_special : String → Bool
has_special String.[] = false
has_special (String.◌∷◌ c s) =
    nat_eq (code c) 10
    || nat_eq (code c) 13
    || nat_eq (code c) 34
    || nat_eq (code c) b','
    || has_special s

abbrev starts_with_space : String → Bool
starts_with_space String.[] = false
starts_with_space (String.◌∷◌ c s) = is_space (code c)

-- Writer.fieldNeedsQuotes
unfoldable pub field_needs_quotes : String → Bool
unfolding has_special is_space
field_needs_quotes field =
    if field == "" then false else field == "\\." || has_special field || starts_with_space field

unfoldable pub double_quotes : String → String
double_quotes String.[] = ""
double_quotes (String.◌∷◌ c s) =
    let rest = double_quotes s in
    if nat_eq (code c) 34 then String.◌∷◌ c (String.◌∷◌ c rest) else String.◌∷◌ c rest

unfoldable pub write_field : String → String
unfolding field_needs_quotes double_quotes
write_field field =
    if field_needs_quotes field then "\"" ++ (double_quotes field ++ "\"") else field

unfoldable pub write_more : List String → String
unfolding write_field
write_more [] = "\n"
write_more (f ∷ fs) = "," ++ (write_field f ++ write_more fs)

-- Writer.Write
unfoldable pub write_record : List String → String
unfolding write_field write_more
write_record [] = "\n"
write_record (f ∷ fs) = write_field f ++ write_more fs

unfoldable pub write_all : List (List String) → String
unfolding write_record
write_all [] = ""
write_all (fs ∷ rest) = write_record fs ++ write_all rest
