-- ===== src/Text/Csv/Laws.antt =====
-- What the writer writes, the reader reads back.
use Prim.Native.Char.{Char, code}
use Prim.Native.String.{◌++◌}
use text.Mathlib.TextLemmas.{cons-append, nil-append, append_assoc}
use pinakes.Base.{
  String, Bool, true, false, not, List, [], ◌∷◌, ◌||◌, ◌≡◌, ◌≢◌, refl, sym, ap, ◌∙◌, arith, nat_eq,
  Bool-cases, inl, inr, All, eq_false, subst, false≢true, ◌==◌,
}
use pinakes.Text.Csv.{
  letter, mark, Records, end, row, put_char, put_field, Mode, line_start, field_start, bare, quoted,
  quote_seen, read, has_special, field_needs_quotes, double_quotes, write_field, write_more,
  write_record, write_all,
}

-- A text before the first field of the record that is being read.
put_text : String → Records → Records
put_text String.[] r = r
put_text (String.◌∷◌ c s) r = put_char c (put_text s r)

put_text-row :
    (f : String) (fs : List String) (rest : Records)
    → put_text f (row ("" ∷ fs) rest) ≡ row (f ∷ fs) rest
unfolding put_text
put_text-row String.[] fs rest = refl
put_text-row (String.◌∷◌ c s) fs rest = ap (put_char c) (put_text-row s fs rest)

-- A character that is special to neither the reader nor the writer.
letter_of :
    (c : Char) (s : String)
    → has_special (String.◌∷◌ c s) ≡ false
    → (mark c ≡ letter) × (has_special s ≡ false)
unfolding mark has_special
letter_of c s h = ground arith

module _ (c : Char) (s : String) where
  bare_letter : mark c ≡ letter → read bare (String.◌∷◌ c s) ≡ put_char c (read bare s)
  unfolding read
  bare_letter h = rw (h, read)

  start_letter : mark c ≡ letter → read field_start (String.◌∷◌ c s) ≡ put_char c (read bare s)
  unfolding read
  start_letter h = rw (h, read)

  line_letter : mark c ≡ letter → read line_start (String.◌∷◌ c s) ≡ put_char c (read bare s)
  unfolding read
  line_letter h = rw (h, read)

  quoted_quote :
      nat_eq (code c) 34 ≡ true
      → read quoted (String.◌∷◌ c (String.◌∷◌ c s)) ≡ put_char c (read quoted s)
  unfolding read mark
  quoted_quote h = ground arith

  quoted_other :
      nat_eq (code c) 34 ≡ false → read quoted (String.◌∷◌ c s) ≡ put_char c (read quoted s)
  unfolding read mark
  quoted_other h = ground arith

-- A bare field up to what follows it.
read-bare :
    (f more : String) → has_special f ≡ false → read bare (f ++ more) ≡ put_text f (read bare more)
unfolding put_text
read-bare String.[] more h = ap (read bare) (nil-append more)
read-bare (String.◌∷◌ c s) more h =
    let split = letter_of c s h in
    ap (read bare) (cons-append c s more)
    ∙ bare_letter c (s ++ more) split.0
    ∙ ap (put_char c) (read-bare s more split.1)

closing_quote : (more : String) → read quoted (String.◌∷◌ "\"" more) ≡ read quote_seen more
unfolding read mark
closing_quote more = refl

-- A quoted field up to its closing quote.
read-quoted :
    (f more : String)
    → read quoted (double_quotes f ++ (String.◌∷◌ "\"" more)) ≡ put_text f (read quote_seen more)
unfolding put_text double_quotes
read-quoted String.[] more =
    ap (read quoted) (nil-append (String.◌∷◌ "\"" more)) ∙ closing_quote more
read-quoted (String.◌∷◌ c s) more = elim (Bool-cases (nat_eq (code c) 34)) [
  | inl q ↦ rw q (
      ap (read quoted) (cons-append c _ _ ∙ ap (String.◌∷◌ c) (cons-append c _ _))
      ∙ quoted_quote c _ q
      ∙ ap (put_char c) (read-quoted s more))
  | inr other ↦ rw other (
      ap (read quoted) (cons-append c _ _)
      ∙ quoted_other c _ other
      ∙ ap (put_char c) (read-quoted s more))
]

-- What ends a field: the next field, or the end of the record.
data AtEnd : Mode → Type 0 where
  at_start : AtEnd field_start
  after_bare : AtEnd bare
  after_quoted : AtEnd quote_seen

module _ (more : String) where
  next_field :
      (m : Mode) → AtEnd m → read m (String.◌∷◌ "," more) ≡ put_field (read field_start more)
  unfolding read mark
  next_field m at_start = refl
  next_field m after_bare = refl
  next_field m after_quoted = refl

  next_line :
      (m : Mode) → AtEnd m → read m (String.◌∷◌ "\n" more) ≡ row ("" ∷ []) (read line_start more)
  unfolding read mark
  next_line m at_start = refl
  next_line m after_bare = refl
  next_line m after_quoted = refl

  opening_quote : read field_start (String.◌∷◌ "\"" more) ≡ read quoted more
  unfolding read mark
  opening_quote = refl

-- A text of one character before another.
char-append : (c : Char) (s : String) → String.◌∷◌ c "" ++ s ≡ String.◌∷◌ c s
char-append c s = cons-append c "" s ∙ ap (String.◌∷◌ c) (nil-append s)

line_quote :
    (x : String) → read line_start (String.◌∷◌ "\"" x) ≡ read field_start (String.◌∷◌ "\"" x)
unfolding read mark
line_quote x = refl

nonempty : (c : Char) (s : String) → (String.◌∷◌ c s == "") ≡ false
nonempty c s = eq_false (String.◌∷◌ c s) "" (cc)

bare_case : (f : String) → field_needs_quotes f ≡ false → has_special f ≡ false
unfolding field_needs_quotes
bare_case String.[] h = refl
bare_case (String.◌∷◌ c s) h = or_parts _ _ _ (rw (nonempty c s) at h)
  where
    or_parts : (a b d : Bool) → (a || b || d) ≡ false → b ≡ false
    or_parts a b d e = ground arith

-- A field in quotes, up to what follows it.
write_quoted :
    (f more : String)
    → field_needs_quotes f ≡ true
    → write_field f ++ more ≡ String.◌∷◌ "\"" (double_quotes f ++ String.◌∷◌ "\"" more)
unfolding write_field
write_quoted f more h = rw h (
    append_assoc "\"" (double_quotes f ++ "\"") more
    ∙ ap (λ (t : String). "\"" ++ t)
        (append_assoc (double_quotes f) "\"" more
          ∙ ap (λ (t : String). double_quotes f ++ t) (char-append "\"" more))
    ∙ char-append "\"" (double_quotes f ++ String.◌∷◌ "\"" more))

write_bare : (f : String) → field_needs_quotes f ≡ false → write_field f ≡ f
unfolding write_field
write_bare f h = rw h

-- A field that is not empty reads at the start of a record as anywhere else in it.
read_line :
    (f more : String)
    → f ≢ ""
    → read line_start (write_field f ++ more) ≡ read field_start (write_field f ++ more)
read_line String.[] more h = absurd (h refl)
read_line (String.◌∷◌ c s) more h = elim (Bool-cases (field_needs_quotes (String.◌∷◌ c s))) [
  | inl q ↦ rw (write_quoted (String.◌∷◌ c s) more q) (line_quote _)
  | inr b ↦
      let split = letter_of c s (bare_case (String.◌∷◌ c s) b) in
      rw (write_bare (String.◌∷◌ c s) b) (
        rw (cons-append c s more)
          (line_letter c (s ++ more) split.0 ∙ sym (start_letter c (s ++ more) split.0)))
]

-- A field, before what a field ends at.
read_field :
    (f : String) (fs : List String) (more : String) (done : Records)
    → ((m : Mode) → AtEnd m → read m more ≡ row ("" ∷ fs) done)
    → read field_start (write_field f ++ more) ≡ row (f ∷ fs) done
read_field f fs more done ends = elim (Bool-cases (field_needs_quotes f)) [
  | inl q ↦ rw (write_quoted f more q) (
      opening_quote _
      ∙ read-quoted f more
      ∙ ap (put_text f) (ends quote_seen after_quoted)
      ∙ put_text-row f fs done)
  | inr b ↦ rw (write_bare f b) (bare_field f b)
]
  where
    bare_field :
        (g : String)
        → field_needs_quotes g ≡ false
        → read field_start (g ++ more) ≡ row (g ∷ fs) done
    bare_field String.[] b = ap (read field_start) (nil-append more) ∙ ends field_start at_start
    bare_field (String.◌∷◌ c s) b =
        let split = letter_of c s (bare_case (String.◌∷◌ c s) b) in
        ap (read field_start) (cons-append c s more)
        ∙ start_letter c (s ++ more) split.0
        ∙ ap (put_char c) (
            read-bare s more split.1
            ∙ ap (put_text s) (ends bare after_bare)
            ∙ put_text-row s fs done)

read_more :
    (fs : List String) (more : String) (m : Mode)
    → AtEnd m
    → read m (write_more fs ++ more) ≡ row ("" ∷ fs) (read line_start more)
unfolding write_more
read_more [] more m at = ap (read m) (char-append "\n" more) ∙ next_line more m at
read_more (f ∷ fs) more m at =
    ap (read m) (
      append_assoc "," (write_field f ++ write_more fs) more
      ∙ ap (λ (t : String). "," ++ t) (append_assoc (write_field f) (write_more fs) more)
      ∙ char-append "," (write_field f ++ (write_more fs ++ more)))
    ∙ next_field _ m at
    ∙ ap put_field
        (read_field f fs (write_more fs ++ more) (read line_start more) (read_more fs more))

-- The records that a list of lists stands for.
abbrev pub all_of : List (List String) → Records
all_of [] = end
all_of (fs ∷ rest) = row fs (all_of rest)

-- A record that is no blank line.
abbrev pub starts_nonempty : List String → Bool
starts_nonempty [] = false
starts_nonempty (f ∷ fs) = not (f == "")

pub read-write :
    (records : List (List String))
    → All (λ fs. starts_nonempty fs ≡ true) records
    → read line_start (write_all records) ≡ all_of records
unfolding write_all write_record read
read-write [] h = refl
read-write ((f ∷ fs) ∷ rest) h =
    ap (read line_start) (append_assoc (write_field f) (write_more fs) (write_all rest))
    ∙ read_line f (write_more fs ++ write_all rest)
        (λ e. false≢true (subst (λ (t : String). not (t == "") ≡ true) e h.0))
    ∙ read_field f fs (write_more fs ++ write_all rest) (read line_start (write_all rest))
        (read_more fs (write_all rest))
    ∙ ap (row (f ∷ fs)) (read-write rest h.1)
read-write ([] ∷ rest) h = absurd (false≢true h.0)
