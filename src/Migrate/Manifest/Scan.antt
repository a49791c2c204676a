-- ===== src/Migrate/Manifest/Scan.antt =====
-- Which rows the loop of ParseManifest accepts, one after the other.
use Prim.Native.Char.{code}
use text.Mathlib.TextLemmas.{cons-append, append_cancel_left}
use pinakes.Base.{
  ℕ, String, List, [], ◌∷◌, map, ◌+◌, ◌≡◌, refl, sym, ap, ◌∙◌, subst, Option, none, some, arith,
}
use mathlib.Core.List
use pinakes.Base.Dict.{lookup}
use pinakes.Text.Csv.{Records, end, broken, row}
use pinakes.Text.Csv.Laws.{all_of}
use pinakes.Migrate.{
  Authority, jk, ucla, ManifestRow, Outcome, accepted, refuse, ◌>>=◌, ◌>>◌, accepted-inj,
  >>=-eq-accepted,
}
use pinakes.Migrate.Rows.{columns, Columns, parse_manifest_row}
use pinakes.Migrate.Rows.Laws.{
  Fits, columns_of, parse_manifest_row-Parsed, Parsed-parse_manifest_row,
}
use pinakes.Migrate.Manifest.{
  Scanned, identity_key, source_key, target_key, check_source, check_target, add_row, seven_fields,
  scan_row, scan_rows, record_of,
}

abbrev first_code : String → ℕ
first_code String.[] = 0
first_code (String.◌∷◌ c s) = code c

-- Two identities have one key only if they are the same under the same authority.
pub identity_key-inj :
    (a b : Authority) (x y : String) → identity_key a x ≡ identity_key b y → (a ≡ b) × (x ≡ y)
unfolding identity_key
identity_key-inj jk jk x y h = (refl, last (append_cancel_left "jk" _ _ h))
  where
    last : String.◌∷◌ "\0" x ≡ String.◌∷◌ "\0" y → x ≡ y
    last e = cc
identity_key-inj jk ucla x y h =
    absurd
      (omega (arith, ap first_code (sym (cons-append "j" "k" _) ∙ h ∙ cons-append "u" "cla" _)))
identity_key-inj ucla jk x y h =
    absurd
      (omega (arith, ap first_code (sym (cons-append "u" "cla" _) ∙ h ∙ cons-append "j" "k" _)))
identity_key-inj ucla ucla x y h = (refl, last (append_cancel_left "ucla" _ _ h))
  where
    last : String.◌∷◌ "\0" x ≡ String.◌∷◌ "\0" y → x ≡ y
    last e = cc

-- A row that the loop takes after the rows scanned so far.
pub record Taken (r : ManifestRow) (line : ℕ) (scan : Scanned) : Type 0 where
  pub fits : Fits r
  pub numbered : r.line ≡ line
  pub new_source : lookup (source_key r) scan.seen_sources ≡ none
  pub free_target : check_target (lookup (target_key r) scan.target_owners) r line ≡ accepted tt

abbrev pub AllTaken : List ManifestRow → ℕ → Scanned → Type 0
AllTaken [] line scan = Unit
AllTaken (r ∷ rs) line scan = Taken r line scan × AllTaken rs (line + 1) (add_row r line scan)

abbrev fields_of : Columns → List String
fields_of c =
    c.authority ∷ c.source ∷ c.target ∷ c.disposition ∷ c.owner ∷ c.evidence ∷ c.control ∷ []

fields_of-columns :
    (fields : List String) (c : Columns) → columns fields ≡ some c → fields ≡ fields_of c
fields_of-columns (k1 ∷ k2 ∷ k3 ∷ k4 ∷ k5 ∷ k6 ∷ k7 ∷ []) c h = cc
fields_of-columns other c h = cc

seven_fields-eq-accepted :
    {B : Type 0} (o : Option Columns) (line : ℕ) (fields : List String) (k : Columns → Outcome B)
    {b : B}
    → (seven_fields o line fields >>= k) ≡ accepted b
    → (c : Columns) × (o ≡ some c) × (k c ≡ accepted b)
unfolding refuse
seven_fields-eq-accepted (some c) line fields k h = (c, refl, h)
seven_fields-eq-accepted none line fields k h = cc

check_source-none :
    {B : Type 0} (o : Option ℕ) (line : ℕ) (k : Outcome B) {b : B}
    → (check_source o line >> k) ≡ accepted b
    → (o ≡ none) × (k ≡ accepted b)
unfolding refuse
check_source-none none line k h = (refl, h)
check_source-none (some n) line k h = cc

scan_row-Taken :
    (r : ManifestRow) (line : ℕ) (scan : Scanned)
    → Taken r line scan
    → scan_row (record_of r) line scan ≡ accepted (add_row r line scan)
unfolding scan_row
scan_row-Taken r line scan t =
    let reads : parse_manifest_row (columns_of r) line ≡ accepted r =
      subst (λ (n : ℕ). parse_manifest_row (columns_of r) n ≡ accepted r) t.numbered
        (Parsed-parse_manifest_row r t.fits) in
    rw (reads, t.new_source, t.free_target)

pub record Step (fields : List String) (line : ℕ) (scan next : Scanned) : Type 0 where
  pub taken_row : ManifestRow
  pub taken : Taken taken_row line scan
  pub printed : fields ≡ record_of taken_row
  pub added : next ≡ add_row taken_row line scan

scan_row-Step :
    (fields : List String) (line : ℕ) (scan next : Scanned)
    → scan_row fields line scan ≡ accepted next
    → Step fields line scan next
unfolding scan_row
scan_row-Step fields line scan next h =
    let (c, hc, t1) = seven_fields-eq-accepted (columns fields) line fields _ h in
    let (r, hr, t2) = >>=-eq-accepted (parse_manifest_row c line) _ t1 in
    let t3 = check_source-none (lookup (source_key r) scan.seen_sources) line _ t2 in
    let (u, free, t4) =
      >>=-eq-accepted (check_target (lookup (target_key r) scan.target_owners) r line) _ t3.1 in
    let p = parse_manifest_row-Parsed c line r hr in
    record {
      taken_row = r;
      taken = record {
        fits = p.fits;
        numbered = p.numbered;
        new_source = t3.0;
        free_target = free;
      };
      printed = fields_of-columns fields c hc ∙ ap fields_of p.written;
      added = sym (accepted-inj t4);
    }

-- The loop accepts rows that are taken in turn.
pub scan_rows-AllTaken :
    (rows : List ManifestRow) (line : ℕ) (scan : Scanned)
    → AllTaken rows line scan
    → scan_rows (all_of (map record_of rows)) line scan ≡ accepted (List.◌++◌ scan.rows rows)
unfolding scan_rows
scan_rows-AllTaken [] line scan h = ap Outcome.accepted (sym (List.append-nil scan.rows))
scan_rows-AllTaken (r ∷ rs) line scan (t, ts) = rw (scan_row-Taken r line scan t) (
    scan_rows-AllTaken rs (line + 1) (add_row r line scan) ts
    ∙ ap Outcome.accepted (List.append_assoc scan.rows (r ∷ []) rs))

pub record Accepted (records : Records) (line : ℕ) (scan : Scanned) (out : List ManifestRow)
    : Type 0 where
  pub rows : List ManifestRow
  pub taken : AllTaken rows line scan
  pub printed : records ≡ all_of (map record_of rows)
  pub result : out ≡ List.◌++◌ scan.rows rows

-- What the loop accepts is the print of rows that are taken in turn.
pub scan_rows-Accepted :
    (records : Records) (line : ℕ) (scan : Scanned) (out : List ManifestRow)
    → scan_rows records line scan ≡ accepted out
    → Accepted records line scan out
unfolding scan_rows refuse
scan_rows-Accepted end line scan out h = record {
  rows = [];
  taken = tt;
  printed = refl;
  result = sym (accepted-inj h) ∙ sym (List.append-nil scan.rows);
}
scan_rows-Accepted (broken e) line scan out h = cc
scan_rows-Accepted (row fields rest) line scan out h =
    let (next, first, more) = >>=-eq-accepted (scan_row fields line scan) _ h in
    let s = scan_row-Step fields line scan next first in
    let tail = scan_rows-Accepted rest (line + 1) next out more in
    record {
      rows = s.taken_row ∷ tail.rows;
      taken = (s.taken, subst (AllTaken tail.rows (line + 1)) s.added tail.taken);
      printed = λ i. row (s.printed i) (tail.printed i);
      result =
          tail.result
          ∙ ap (λ (n : Scanned). List.◌++◌ n.rows tail.rows) s.added
          ∙ List.append_assoc scan.rows (s.taken_row ∷ []) tail.rows;
    }
