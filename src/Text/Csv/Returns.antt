-- ===== src/Text/Csv/Returns.antt =====
-- What is written with no carriage return is read with none lost.
use Prim.Native.Char.{code}
use Prim.Native.String.{◌++◌}
use text.Mathlib.TextLemmas.{cons-append, nil-append}
use pinakes.Base.{
  String, Bool, true, false, List, [], ◌∷◌, ◌||◌, ◌≡◌, refl, ap, ◌∙◌, arith, nat_eq, if_keeps, All,
  false≢true,
}
use pinakes.Text.Csv.Laws.{all_of, starts_nonempty, read-write}
use pinakes.Text.Csv.{
  line_start, read, drop_returns, read_all, field_needs_quotes, double_quotes, write_field,
  write_more, write_record, write_all,
}

-- A text with no carriage return.
abbrev pub has_return : String → Bool
has_return String.[] = false
has_return (String.◌∷◌ c s) = nat_eq (code c) 13 || has_return s

drop_returns-eq_self : (s : String) → has_return s ≡ false → drop_returns s ≡ s
unfolding drop_returns
drop_returns-eq_self String.[] h = refl
drop_returns-eq_self (String.◌∷◌ c s) h = ground (arith, drop_returns-eq_self s)

has_return-append :
    (s t : String) → has_return s ≡ false → has_return t ≡ false → has_return (s ++ t) ≡ false
has_return-append String.[] t h k = ap has_return (nil-append t) ∙ k
has_return-append (String.◌∷◌ c s) t h k =
    ap has_return (cons-append c s t) ∙ ground (arith, has_return-append s t)

has_return-double_quotes :
    (s : String) → has_return s ≡ false → has_return (double_quotes s) ≡ false
unfolding double_quotes
has_return-double_quotes String.[] h = h
has_return-double_quotes (String.◌∷◌ c s) h = ground (arith, has_return-double_quotes s)

has_return-write_field : (f : String) → has_return f ≡ false → has_return (write_field f) ≡ false
unfolding write_field
has_return-write_field f h =
    if_keeps (λ t. has_return t ≡ false) (field_needs_quotes f) _ f
      (has_return-append "\"" (double_quotes f ++ "\"") refl
        (has_return-append (double_quotes f) "\"" (has_return-double_quotes f h) refl))
      h

-- A record with no carriage return in a field, and with a first field that is not empty.
abbrev pub Writable : List String → Type 0
Writable fs = (starts_nonempty fs ≡ true) × All (λ f. has_return f ≡ false) fs

has_return-write_more :
    (fs : List String) → All (λ f. has_return f ≡ false) fs → has_return (write_more fs) ≡ false
unfolding write_more
has_return-write_more [] h = refl
has_return-write_more (f ∷ fs) h = has_return-append "," (write_field f ++ write_more fs) refl (
    has_return-append (write_field f) (write_more fs) (has_return-write_field f h.0)
      (has_return-write_more fs h.1))

has_return-write_all :
    (records : List (List String)) → All Writable records → has_return (write_all records) ≡ false
unfolding write_all write_record
has_return-write_all [] h = refl
has_return-write_all ([] ∷ rest) h = absurd (false≢true h.0.0)
has_return-write_all ((f ∷ fs) ∷ rest) h =
    has_return-append (write_field f ++ write_more fs) (write_all rest)
      (has_return-append (write_field f) (write_more fs) (has_return-write_field f h.0.1.0)
        (has_return-write_more fs h.0.1.1))
      (has_return-write_all rest h.1)

Writable-starts :
    (records : List (List String))
    → All Writable records
    → All (λ fs. starts_nonempty fs ≡ true) records
Writable-starts [] h = tt
Writable-starts (fs ∷ rest) h = (h.0.0, Writable-starts rest h.1)

-- The reader reads back what the writer wrote.
pub read_all-write_all :
    (records : List (List String))
    → All Writable records
    → read_all (write_all records) ≡ all_of records
unfolding read_all
read_all-write_all records h =
    ap (read line_start) (drop_returns-eq_self (write_all records) (has_return-write_all records h))
    ∙ read-write records (Writable-starts records h)
