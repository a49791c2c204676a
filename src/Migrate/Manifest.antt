-- ===== src/Migrate/Manifest.antt =====
-- internal/nsmigrate/manifest.go: ParseManifest, WriteManifest and InvertManifest.
pub mod Scan
pub mod Apart
pub mod Inverse
pub mod Accept
use Prim.Native.String.{◌++◌}
use pinakes.Base.{
  ℕ, String, Bool, true, false, not, List, [], ◌∷◌, map, ◌+◌, ◌&&◌, ◌||◌, ◌==◌, ltb, nat_eq, Option,
  none, some, length, if◌then◌else◌,
}
use mathlib.Core.List
use pinakes.Base.Dict.{Dict, lookup, lookup_or, insert}
use pinakes.Text.Decimal.{format_int}
use pinakes.Text.Quote.{quote}
use pinakes.Text.Csv.{Records, end, broken, row, read_all, write_all}
use pinakes.Migrate.{
  Authority, jk, ucla, authority_text, Disposition, split, disposition_text, ManifestRow, Outcome,
  accepted, refuse, refuse_if, ◌>>=◌, ◌>>◌,
}
use pinakes.Migrate.Rows.{
  manifest_header, manifest_line, columns, Columns, parse_manifest_row, swap_row,
  has_explicit_scope, bool_text,
}

-- validateHeader: the columns from position i on.
unfoldable pub check_header : ℕ → List String → List String → Outcome (Unit {0})
unfolding quote
check_header i [] found = accepted tt
check_header i (name ∷ names) [] = accepted tt
check_header i (name ∷ names) (column ∷ rest) = do
  refuse_if (not (column == name)) "manifest_schema" "manifest:1"
      ("column " ++ (format_int i ++ (" must be " ++ quote name)))
  check_header (i + 1) names rest

unfoldable pub validate_header : List String → Outcome (Unit {0})
unfolding check_header
validate_header header = do
  refuse_if (ltb 7 (length header)) "outside_rewrite_surface" "manifest:1"
      "manifest contains columns outside the seven-column contract"
  refuse_if (not (nat_eq (length header) 7)) "manifest_schema" "manifest:1"
      "header must contain exactly 7 columns"
  check_header 1 manifest_header header

-- The variables of ParseManifest's loop.
pub record Scanned : Type 0 where
  pub seen_sources : Dict ℕ
  pub target_owners : Dict ManifestRow
  pub rows : List ManifestRow

abbrev pub empty_scan : Scanned
empty_scan = record { seen_sources = []; target_owners = []; rows = [] }

-- string(authority) + "\x00" + id
unfoldable pub identity_key : Authority → String → String
identity_key authority id = authority_text authority ++ String.◌∷◌ "\0" id

abbrev pub source_key : ManifestRow → String
source_key r = identity_key r.source_authority r.source_id

abbrev pub target_key : ManifestRow → String
target_key r = identity_key r.source_authority r.target_id

abbrev check_source : Option ℕ → ℕ → Outcome (Unit {0})
check_source none line = accepted tt
check_source (some previous) line =
    refuse "duplicate_source" (manifest_line line)
      ("duplicate (source_authority, source_id); first declared on line " ++ format_int previous)

abbrev check_target : Option ManifestRow → ManifestRow → ℕ → Outcome (Unit {0})
check_target none r line = accepted tt
check_target (some previous) r line =
    refuse_if (not (previous.source_id == r.source_id)) "duplicate_target" (manifest_line line)
      ("target_id is already mapped from a different source on line " ++ format_int previous.line)

unfoldable pub add_row : ManifestRow → ℕ → Scanned → Scanned
add_row r line scan = record {
  seen_sources = insert (source_key r) line scan.seen_sources;
  target_owners = insert (target_key r) r scan.target_owners;
  rows = List.◌++◌ scan.rows (r ∷ []);
}

abbrev width_error : ℕ → List String → Outcome Columns
width_error line fields =
    refuse "manifest_schema" (manifest_line line)
      ("expected 7 fields, got " ++ format_int (length fields))

abbrev seven_fields : Option Columns → ℕ → List String → Outcome Columns
seven_fields none line fields = width_error line fields
seven_fields (some c) line fields = accepted c

-- The body of the loop.
unfoldable pub scan_row : List String → ℕ → Scanned → Outcome Scanned
unfolding parse_manifest_row add_row
scan_row fields line scan = do
  c ← seven_fields (columns fields) line fields
  r ← parse_manifest_row c line
  check_source (lookup (source_key r) scan.seen_sources) line
  check_target (lookup (target_key r) scan.target_owners) r line
  accepted (add_row r line scan)

unfoldable pub scan_rows : Records → ℕ → Scanned → Outcome (List ManifestRow)
unfolding scan_row
scan_rows end line scan = accepted scan.rows
scan_rows (broken e) line scan =
    refuse "manifest_schema" (manifest_line line) ("read CSV row: " ++ e)
scan_rows (row fields rest) line scan = do
  next ← scan_row fields line scan
  scan_rows rest (line + 1) next

-- The lines of the two halves of a split identity, 0 where there is none.
pub record Pair : Type 0 where
  pub jk_line : ℕ
  pub ucla_line : ℕ

abbrev pub no_pair : Pair
no_pair = record { jk_line = 0; ucla_line = 0 }

abbrev pub set_line : Authority → ℕ → Pair → Pair
set_line jk line pair = record pair { jk_line = line }
set_line ucla line pair = record pair { ucla_line = line }

unfoldable pub legacy_id : ManifestRow → String
unfolding has_explicit_scope
legacy_id r = if has_explicit_scope r.source_id then r.target_id else r.source_id

abbrev pub is_split : Disposition → Bool
is_split split = true
is_split other = false

unfoldable pub collect_pairs : List ManifestRow → Dict Pair → Dict Pair
unfolding legacy_id
collect_pairs [] pairs = pairs
collect_pairs (r ∷ rest) pairs =
    let key = legacy_id r in
    let joined =
      insert key (set_line r.source_authority r.line (lookup_or no_pair key pairs)) pairs in
    collect_pairs rest (if is_split r.disposition then joined else pairs)

abbrev pub is_half : Pair → Bool
is_half pair = nat_eq pair.jk_line 0 || nat_eq pair.ucla_line 0

-- The loop over the map of pairs; Go visits the pairs in any order, the model as they were entered.
unfoldable pub check_pairs : Dict Pair → Outcome (Unit {0})
unfolding quote
check_pairs [] = accepted tt
check_pairs ((legacy, pair) ∷ rest) = do
  refuse_if (is_half pair) "manifest_schema"
      (manifest_line (if nat_eq pair.jk_line 0 then pair.ucla_line else pair.jk_line))
      ("split identity " ++ (quote legacy ++ " requires one jk row and one ucla row"))
  check_pairs rest

unfoldable pub validate_split_pairs : List ManifestRow → Outcome (Unit {0})
unfolding collect_pairs check_pairs
validate_split_pairs rows = check_pairs (collect_pairs rows [])

abbrev pub is_empty {ℓ} : {A : Type ℓ} → List A → Bool
is_empty [] = true
is_empty (x ∷ xs) = false

abbrev pub header_of : Records → Outcome (List String × Records)
header_of end = refuse "manifest_schema" "manifest" "manifest is empty"
header_of (broken e) = refuse "manifest_schema" "manifest" ("read CSV header: " ++ e)
header_of (row fields rest) = accepted (fields, rest)

unfoldable pub parse_records : Records → Outcome (List ManifestRow)
unfolding validate_header scan_rows validate_split_pairs
parse_records records = do
  (header, rest) ← header_of records
  validate_header header
  rows ← scan_rows rest 2 empty_scan
  refuse_if (is_empty rows) "manifest_schema" "manifest" "manifest has no data rows"
  validate_split_pairs rows
  accepted rows

-- ParseManifest, of the whole text of the reader; the manifest is its rows.
unfoldable pub parse_manifest : String → Outcome (List ManifestRow)
unfolding parse_records read_all
parse_manifest text = parse_records (read_all text)

abbrev pub record_of : ManifestRow → List String
record_of r =
    authority_text r.source_authority
    ∷ r.source_id
    ∷ r.target_id
    ∷ disposition_text r.disposition
    ∷ r.owner_repo
    ∷ r.evidence
    ∷ bool_text r.control_plane
    ∷ []

-- WriteManifest, to a writer that takes all of it
unfoldable pub write_manifest : List ManifestRow → String
unfolding write_all
write_manifest rows = write_all (manifest_header ∷ map record_of rows)

unfoldable pub invert_manifest : List ManifestRow → Outcome (List ManifestRow)
unfolding swap_row write_manifest parse_manifest
invert_manifest rows = parse_manifest (write_manifest (map swap_row rows))
