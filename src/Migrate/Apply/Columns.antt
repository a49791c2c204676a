-- ===== src/Migrate/Apply/Columns.antt =====
-- One UPDATE of a column, and what it leaves in the columns of the table.
use pinakes.Base.{
  ℕ, String, Bool, true, false, List, [], ◌∷◌, map, ◌==◌, ◌≡◌, ◌≢◌, refl, sym, ap, ◌∙◌, arith,
  eq_iff, contains, nat_eq, if◌then◌else◌,
}
use pinakes.Migrate.Inspect.{Column}
use pinakes.Migrate.Inspect.Laws.{count}
use pinakes.Migrate.Apply.{written, is_taken, violates, set_rows, affected_rows, update_column}

-- The target stands nowhere in the column, and the source as often as the inspection counted.
pub record Ready {R : Type 0} (c : Column R) (target source : String) (n : ℕ) (rows : List R)
    : Type 0 where
  pub unused : contains (map c.get rows) target ≡ false
  pub counted : n ≡ count source (map c.get rows)

-- The name that one renaming gives.
abbrev pub rename : String → String → String → String
rename target source x = if x == source then target else x

module _ {R : Type 0} (c : Column R) (target source : String) where
  is_taken-unused :
      (r : R) (rows : List R)
      → contains (map c.get rows) target ≡ false
      → is_taken c target source r rows ≡ false
  is_taken-unused r [] h = refl
  is_taken-unused r (q ∷ rows) h = ground (arith, is_taken-unused r rows)

  violates-unused :
      (all rows : List R)
      → contains (map c.get all) target ≡ false
      → violates c target source all rows ≡ false
  violates-unused all [] h = refl
  violates-unused all (r ∷ rows) h =
      ground (arith, is_taken-unused r all h, violates-unused all rows h)

  affected_rows-count :
      (rows : List R) → affected_rows c target source rows ≡ count source (map c.get rows)
  affected_rows-count [] = refl
  affected_rows-count (r ∷ rows) = omega (arith, affected_rows-count rows)

  pub update_column-Ready :
      (n : ℕ) (rows : List R)
      → Ready c target source n rows
      → update_column c target source n rows ≡ written (set_rows c target source rows)
  unfolding update_column
  update_column-Ready n rows h =
      let same : nat_eq (affected_rows c target source rows) n ≡ true =
        ground (arith, affected_rows-count rows, h.counted) in
      rw (violates-unused rows rows h.unused, same)

-- A column reads back what it is set to.
abbrev pub Lawful : {R : Type 0} → Column R → Type 0
Lawful {R} c = (id : String) (r : R) → c.get (c.set id r) ≡ id

module _ {R : Type 0} (c : Column R) (lawful : Lawful c) (target source : String) where
  map-set_rows :
      (rows : List R)
      → map c.get (set_rows c target source rows) ≡ map (rename target source) (map c.get rows)
  map-set_rows [] = refl
  map-set_rows (r ∷ rows) = λ i. (if_get (c.get r == source) r i) ∷ map-set_rows rows i
    where
      if_get :
          (b : Bool) (q : R)
          → c.get (if b then c.set target q else q) ≡ (if b then target else c.get q)
      if_get true q = lawful target q
      if_get false q = refl

contains-rename :
    (target source other : String) (xs : List String)
    → target ≢ other
    → contains xs other ≡ false
    → contains (map (rename target source) xs) other ≡ false
contains-rename target source other [] ne h = refl
contains-rename target source other (x ∷ xs) ne h = ground (
  arith,
  contains-rename target source other xs ne,
  eq_iff x source,
  eq_iff target other,
  eq_iff x other,
)

count-rename :
    (target source other : String) (xs : List String)
    → target ≢ other
    → source ≢ other
    → count other (map (rename target source) xs) ≡ count other xs
count-rename target source other [] ne ns = refl
count-rename target source other (x ∷ xs) ne ns = ground (
  arith,
  count-rename target source other xs ne ns,
  eq_iff x source,
  eq_iff target other,
  eq_iff x other,
  eq_iff source other,
)

-- After the UPDATE for one mapping, the column is as ready for another as before.
pub Ready-set_rows :
    {R : Type 0} (c : Column R) (lawful : Lawful c) (target source target' source' : String) (n : ℕ)
    (rows : List R)
    → target ≢ target'
    → source ≢ source'
    → target ≢ source'
    → Ready c target' source' n rows
    → Ready c target' source' n (set_rows c target source rows)
Ready-set_rows c lawful target source target' source' n rows tt' ss' ts' h = record {
  unused =
      ap (λ xs. contains xs target') (map-set_rows c lawful target source rows)
      ∙ contains-rename target source target' (map c.get rows) tt' h.unused;
  counted =
      h.counted
      ∙ sym (
          ap (count source') (map-set_rows c lawful target source rows)
          ∙ count-rename target source source' (map c.get rows) ts' ss');
}

-- Two columns of one table do not see each other.
abbrev pub Independent : {R : Type 0} → Column R → Column R → Type 0
Independent {R} c d = (id : String) (r : R) → d.get (c.set id r) ≡ d.get r

map-other :
    {R : Type 0} (c d : Column R) (apart : Independent c d) (target source : String) (rows : List R)
    → map d.get (set_rows c target source rows) ≡ map d.get rows
map-other {R} c d apart target source [] = refl
map-other {R} c d apart target source (r ∷ rows) =
    λ i. (if_get (c.get r == source) r i) ∷ map-other c d apart target source rows i
  where
    if_get : (b : Bool) (q : R) → d.get (if b then c.set target q else q) ≡ d.get q
    if_get true q = apart target q
    if_get false q = refl

pub Ready-other :
    {R : Type 0} (c d : Column R) (apart : Independent c d) (target source target' source' : String)
    (n : ℕ) (rows : List R)
    → Ready d target' source' n rows
    → Ready d target' source' n (set_rows c target source rows)
Ready-other c d apart target source target' source' n rows h = record {
  unused = ap (λ xs. contains xs target') (map-other c d apart target source rows) ∙ h.unused;
  counted = h.counted ∙ sym (ap (count source') (map-other c d apart target source rows));
}
