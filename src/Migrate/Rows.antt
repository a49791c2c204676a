-- ===== src/Migrate/Rows.antt =====
-- internal/nsmigrate/manifest.go: which rows a manifest may hold.
pub mod Laws
use Prim.Native.Char.{code}
use Prim.Native.String.{◌++◌}
use pinakes.Base.{
  ℕ, String, Bool, true, false, not, List, [], ◌∷◌, ◌&&◌, ◌||◌, ◌==◌, Option, none, some, nat_eq,
  leb, if◌then◌else◌,
}
use pinakes.Text.{trim_space, has_dot, before_dot}
use pinakes.Text.Decimal.{format_int}
use pinakes.Text.Quote.{quote}
use pinakes.Types.{Scope}
use pinakes.Types
use pinakes.Scope.{valid_scope, is_some}
use pinakes.Migrate.{
  Authority, jk, ucla, authority_text, Disposition, migrate, retire, split, unchanged, ManifestRow,
  Outcome, accepted, refuse, refuse_if, ◌>>=◌, ◌>>◌,
}

abbrev pub manifest_header : List String
manifest_header =
    "source_authority" ∷ "source_id" ∷ "target_id" ∷ "disposition" ∷ "owner_repo" ∷ "evidence"
    ∷ "control_plane" ∷ []

-- fmt.Sprintf("manifest:%d", line)
unfoldable pub manifest_line : ℕ → String
manifest_line line = "manifest:" ++ format_int line

-- ParseAuthority, whose error is its text
unfoldable pub parse_authority : String → Option Authority
parse_authority raw = if raw == "jk" then some jk else if raw == "ucla" then some ucla else none

unfoldable pub authority_error : String → String
authority_error raw = "authority must be jk or ucla, got " ++ quote raw

unfoldable pub parse_disposition : String → Option Disposition
parse_disposition raw =
    if raw == "migrate"
    then some migrate
    else if raw == "retire"
    then some retire
    else if raw == "split"
    then some split
    else if raw == "unchanged"
    then some unchanged
    else none

unfoldable pub explicit_scope : String → Option Scope
explicit_scope id = if has_dot id then valid_scope (before_dot id) else none

unfoldable pub has_explicit_scope : String → Bool
unfolding explicit_scope
has_explicit_scope id = is_some (explicit_scope id)

abbrev is_foreign : Authority → Option Scope → Bool
is_foreign jk (some Types.ucla) = true
is_foreign ucla (some Types.personal) = true
is_foreign authority other = false

unfoldable pub foreign_authority_scope : Authority → String → Bool
unfolding explicit_scope
foreign_authority_scope authority id = is_foreign authority (explicit_scope id)

abbrev pub is_unchanged : Disposition → Bool
is_unchanged unchanged = true
is_unchanged other = false

abbrev pub prefix_of : Authority → String
prefix_of jk = "personal."
prefix_of ucla = "ucla."

-- The target is the whole legacy id under the prefix of the authority.
abbrev pub adds_prefix : Authority → String → String → Bool
adds_prefix authority legacy named =
    not (has_explicit_scope legacy) && named == prefix_of authority ++ legacy

-- The rest of validateMapping, where the disposition is unchanged.
unfoldable pub validate_unchanged : ManifestRow → String → Outcome (Unit {0})
unfolding has_explicit_scope
validate_unchanged row location = do
  refuse_if (not (row.source_id == row.target_id)) "manifest_schema" location
      "unchanged requires source_id == target_id"
  refuse_if (not (has_explicit_scope row.source_id) && not row.control_plane) "manifest_schema"
      location "unchanged identity must already have an explicit namespace"

-- The rest of validateMapping, where the disposition renames.
unfoldable pub validate_rename : ManifestRow → String → Outcome (Unit {0})
unfolding has_explicit_scope quote
validate_rename row location = do
  refuse_if (row.source_id == row.target_id) "manifest_schema" location
      "rename dispositions require source_id != target_id"
  refuse_if
      (not (adds_prefix row.source_authority row.source_id row.target_id)
        && not (adds_prefix row.source_authority row.target_id row.source_id))
      "manifest_schema" location
      ("mapping must preserve the complete legacy ID with the "
        ++ (quote (prefix_of row.source_authority) ++ " authority prefix, in either direction"))

unfoldable pub validate_mapping : ManifestRow → Outcome (Unit {0})
unfolding foreign_authority_scope manifest_line validate_unchanged validate_rename
validate_mapping row =
    let location = manifest_line row.line in
    let same = row.source_id == row.target_id in
    let kept = is_unchanged row.disposition && same in
    let foreign =
      foreign_authority_scope row.source_authority row.source_id
      || foreign_authority_scope row.source_authority row.target_id in
    do
      refuse_if (row.control_plane && not kept) "manifest_schema" location
          "control_plane requires an unchanged row"
      refuse_if (row.control_plane && has_dot row.source_id) "manifest_schema" location
          "control_plane identity must be unprefixed"
      refuse_if (foreign && not kept) "foreign_authority_mutation" location
          "foreign-authority identities may only be declared unchanged with target_id equal to source_id"
      if is_unchanged row.disposition
          then validate_unchanged row location
          else validate_rename row location

-- The seven fields of a record.
pub record Columns : Type 0 where
  pub authority : String
  pub source : String
  pub target : String
  pub disposition : String
  pub owner : String
  pub evidence : String
  pub control : String

abbrev pub columns : List String → Option Columns
columns (a ∷ b ∷ c ∷ d ∷ e ∷ f ∷ g ∷ []) = some (record {
  authority = a;
  source = b;
  target = c;
  disposition = d;
  owner = e;
  evidence = f;
  control = g;
})
columns other = none

-- The loop of parseManifestRow over the fields and their names. Texts of the model are valid UTF-8.
unfoldable pub check_field : ℕ → String → String → Outcome (Unit {0})
unfolding manifest_line
check_field line name value = do
  refuse_if (not (trim_space value == value)) "manifest_schema" (manifest_line line)
      (name ++ " must not have surrounding whitespace")
  refuse_if (value == "") "manifest_schema" (manifest_line line) (name ++ " must be non-empty")

-- unicode.IsControl
abbrev is_control : ℕ → Bool
is_control c = leb c 0x1f || (leb 0x7f c && leb c 0x9f)

unfoldable pub has_control : String → Bool
has_control String.[] = false
has_control (String.◌∷◌ c s) = is_control (code c) || has_control s

abbrev pub bool_text : Bool → String
bool_text true = "true"
bool_text false = "false"

abbrev pub row_of : Columns → Authority → Disposition → ℕ → ManifestRow
row_of c authority disposition line = record {
  source_authority = authority;
  source_id = c.source;
  target_id = c.target;
  disposition = disposition;
  owner_repo = c.owner;
  evidence = c.evidence;
  control_plane = c.control == "true";
  line = line;
}

-- A value that was parsed, or a refusal of the line.
abbrev pub given {ℓ} : {A : Type ℓ} → Option A → String → ℕ → String → Outcome A
given (some a) code line detail = accepted a
given none code line detail = refuse code (manifest_line line) detail

unfoldable pub parse_manifest_row : Columns → ℕ → Outcome ManifestRow
unfolding check_field has_control parse_authority authority_error parse_disposition validate_mapping
parse_manifest_row c line = do
  check_field line "source_authority" c.authority
  check_field line "source_id" c.source
  check_field line "target_id" c.target
  check_field line "disposition" c.disposition
  check_field line "owner_repo" c.owner
  check_field line "evidence" c.evidence
  check_field line "control_plane" c.control
  refuse_if (has_control c.authority || has_control c.source || has_control c.target)
      "manifest_schema" (manifest_line line) "identity fields must not contain control characters"
  authority ←
      given (parse_authority c.authority) "manifest_schema" line (authority_error c.authority)
  disposition ←
      given (parse_disposition c.disposition) "invalid_disposition" line
        "disposition must be migrate, retire, split, or unchanged"
  refuse_if (not (c.control == "true") && not (c.control == "false")) "manifest_schema"
      (manifest_line line) "control_plane must be true or false"
  let row = row_of c authority disposition line
  validate_mapping row
  accepted row

-- The swap of InvertManifest's loop.
unfoldable pub swap_row : ManifestRow → ManifestRow
swap_row r = record r { source_id = r.target_id; target_id = r.source_id }
