-- ===== src/Migrate/Rows/Laws.antt =====
-- Which rows parseManifestRow accepts, and that they are accepted the other way round.
use Prim.Native.String.{◌++◌}
use pinakes.Base.{
  ℕ, String, Bool, true, false, not, ◌&&◌, ◌||◌, ◌==◌, ◌≡◌, refl, subst, sym, Option, none, some,
  arith, eq_iff, Bool-cases, inl, inr,
}
use pinakes.Text.{trim_space, has_dot, before_dot}
use pinakes.Migrate.{
  Authority, jk, ucla, authority_text, Disposition, migrate, retire, split, unchanged,
  disposition_text, ManifestRow, Outcome, accepted, refuse, ◌>>=◌, ◌>>◌, accepted-inj,
  >>=-eq-accepted, refuse_if-eq-accepted,
}
use pinakes.Migrate.Rows.{
  parse_authority, parse_disposition, has_explicit_scope, foreign_authority_scope, is_unchanged,
  adds_prefix, validate_unchanged, validate_rename, validate_mapping, Columns, check_field,
  has_control, bool_text, row_of, given, parse_manifest_row, swap_row, prefix_of, explicit_scope,
}
use pinakes.Scope.{valid_scope}
use text.Mathlib.TextLemmas.{cons-append}

parse_authority-text : (a : Authority) → parse_authority (authority_text a) ≡ some a
unfolding parse_authority
parse_authority-text jk = refl
parse_authority-text ucla = refl

text-parse_authority :
    (raw : String) (a : Authority) → parse_authority raw ≡ some a → raw ≡ authority_text a
unfolding parse_authority
text-parse_authority raw jk h = ground (arith, eq_iff raw "jk", eq_iff raw "ucla")
text-parse_authority raw ucla h = ground (arith, eq_iff raw "jk", eq_iff raw "ucla")

parse_disposition-text : (d : Disposition) → parse_disposition (disposition_text d) ≡ some d
unfolding parse_disposition
parse_disposition-text migrate = refl
parse_disposition-text retire = refl
parse_disposition-text split = refl
parse_disposition-text unchanged = refl

module _ (raw : String) where
  text-parse_disposition :
      (d : Disposition) → parse_disposition raw ≡ some d → raw ≡ disposition_text d
  unfolding parse_disposition
  text-parse_disposition migrate h =
      ground (
        arith,
        eq_iff raw "migrate",
        eq_iff raw "retire",
        eq_iff raw "split",
        eq_iff raw "unchanged",
      )
  text-parse_disposition retire h =
      ground (
        arith,
        eq_iff raw "migrate",
        eq_iff raw "retire",
        eq_iff raw "split",
        eq_iff raw "unchanged",
      )
  text-parse_disposition split h =
      ground (
        arith,
        eq_iff raw "migrate",
        eq_iff raw "retire",
        eq_iff raw "split",
        eq_iff raw "unchanged",
      )
  text-parse_disposition unchanged h =
      ground (
        arith,
        eq_iff raw "migrate",
        eq_iff raw "retire",
        eq_iff raw "split",
        eq_iff raw "unchanged",
      )

  text-bool :
      (not (raw == "true") && not (raw == "false")) ≡ false → raw ≡ bool_text (raw == "true")
  text-bool h = ground (arith, eq_iff raw "true", eq_iff raw "false")

-- A field with no space around it, and not empty.
abbrev pub tidy : String → Bool
tidy s = trim_space s == s && not (s == "")

check_field-tidy :
    {A : Type 0} (line : ℕ) (name value : String) (k : Outcome A) {a : A}
    → (check_field line name value >> k) ≡ accepted a
    → (tidy value ≡ true) × (k ≡ accepted a)
unfolding check_field refuse
check_field-tidy line name value k h = ground arith

tidy-check_field :
    (line : ℕ) (name value : String) → tidy value ≡ true → check_field line name value ≡ accepted tt
unfolding check_field refuse
tidy-check_field line name value h = ground arith

given-eq-accepted :
    {A B : Type 0} (o : Option A) (code : String) (line : ℕ) (detail : String) (k : A → Outcome B)
    {b : B}
    → (given o code line detail >>= k) ≡ accepted b
    → (a : A) × (o ≡ some a) × (k a ≡ accepted b)
unfolding refuse
given-eq-accepted (some a) code line detail k h = (a, refl, h)
given-eq-accepted none code line detail k h = cc

-- A row that parseManifestRow accepts.
pub record Fits (r : ManifestRow) : Type 0 where
  pub source_tidy : tidy r.source_id ≡ true
  pub target_tidy : tidy r.target_id ≡ true
  pub owner_tidy : tidy r.owner_repo ≡ true
  pub evidence_tidy : tidy r.evidence ≡ true
  pub source_plain : has_control r.source_id ≡ false
  pub target_plain : has_control r.target_id ≡ false
  pub mapping : validate_mapping r ≡ accepted tt

abbrev pub columns_of : ManifestRow → Columns
columns_of r = record {
  authority = authority_text r.source_authority;
  source = r.source_id;
  target = r.target_id;
  disposition = disposition_text r.disposition;
  owner = r.owner_repo;
  evidence = r.evidence;
  control = bool_text r.control_plane;
}

-- What an accepted line says of its row.
pub record Parsed (c : Columns) (line : ℕ) (r : ManifestRow) : Type 0 where
  pub fits : Fits r
  pub written : c ≡ columns_of r
  pub numbered : r.line ≡ line

or_parts : (a b c : Bool) → (a || b || c) ≡ false → (b ≡ false) × (c ≡ false)
or_parts a b c h = ground arith

columns-eq :
    (c : Columns) (a : Authority) (d : Disposition) (line : ℕ)
    → c.authority ≡ authority_text a
    → c.disposition ≡ disposition_text d
    → c.control ≡ bool_text (c.control == "true")
    → c ≡ columns_of (row_of c a d line)
columns-eq c a d line h k e = λ i. record {
  authority = h i;
  source = c.source;
  target = c.target;
  disposition = k i;
  owner = c.owner;
  evidence = c.evidence;
  control = e i;
}

pub parse_manifest_row-Parsed :
    (c : Columns) (line : ℕ) (r : ManifestRow)
    → parse_manifest_row c line ≡ accepted r
    → Parsed c line r
unfolding parse_manifest_row
parse_manifest_row-Parsed c line r h =
    let t1 = check_field-tidy line "source_authority" c.authority _ h in
    let t2 = check_field-tidy line "source_id" c.source _ t1.1 in
    let t3 = check_field-tidy line "target_id" c.target _ t2.1 in
    let t4 = check_field-tidy line "disposition" c.disposition _ t3.1 in
    let t5 = check_field-tidy line "owner_repo" c.owner _ t4.1 in
    let t6 = check_field-tidy line "evidence" c.evidence _ t5.1 in
    let t7 = check_field-tidy line "control_plane" c.control _ t6.1 in
    let t8 = refuse_if-eq-accepted _ _ _ _ _ t7.1 in
    let (a, ha, t9) = given-eq-accepted (parse_authority c.authority) _ _ _ _ t8.1 in
    let (d, hd, t10) = given-eq-accepted (parse_disposition c.disposition) _ _ _ _ t9 in
    let t11 = refuse_if-eq-accepted _ _ _ _ _ t10 in
    let (u, mapped, t12) = >>=-eq-accepted (validate_mapping (row_of c a d line)) _ t11.1 in
    let same : row_of c a d line ≡ r = accepted-inj t12 in
    subst (Parsed c line) same (record {
      fits = record {
        source_tidy = t2.0;
        target_tidy = t3.0;
        owner_tidy = t5.0;
        evidence_tidy = t6.0;
        source_plain =
            (or_parts (has_control c.authority) (has_control c.source) (has_control c.target)
              t8.0).0;
        target_plain =
            (or_parts (has_control c.authority) (has_control c.source) (has_control c.target)
              t8.0).1;
        mapping = mapped;
      };
      written =
          columns-eq c a d line (text-parse_authority c.authority a ha)
            (text-parse_disposition c.disposition d hd) (text-bool c.control t11.0);
      numbered = refl;
    })

authority_field :
    (line : ℕ) (a : Authority)
    → check_field line "source_authority" (authority_text a) ≡ accepted tt
unfolding check_field trim_space
authority_field line jk = refl
authority_field line ucla = refl

disposition_field :
    (line : ℕ) (d : Disposition) → check_field line "disposition" (disposition_text d) ≡ accepted tt
unfolding check_field trim_space
disposition_field line migrate = refl
disposition_field line retire = refl
disposition_field line split = refl
disposition_field line unchanged = refl

bool_field : (line : ℕ) (b : Bool) → check_field line "control_plane" (bool_text b) ≡ accepted tt
unfolding check_field trim_space
bool_field line true = refl
bool_field line false = refl

control_read : (b : Bool) → (bool_text b == "true") ≡ b
control_read true = refl
control_read false = refl

control_checked : (b : Bool) → (not (bool_text b == "true") && not (bool_text b == "false")) ≡ false
control_checked true = refl
control_checked false = refl

authority_plain : (a : Authority) → has_control (authority_text a) ≡ false
unfolding has_control
authority_plain jk = refl
authority_plain ucla = refl

pub Parsed-parse_manifest_row :
    (r : ManifestRow) → Fits r → parse_manifest_row (columns_of r) r.line ≡ accepted r
unfolding parse_manifest_row
Parsed-parse_manifest_row r f = rw (
  authority_field r.line r.source_authority,
  tidy-check_field r.line "source_id" r.source_id f.source_tidy,
  tidy-check_field r.line "target_id" r.target_id f.target_tidy,
  disposition_field r.line r.disposition,
  tidy-check_field r.line "owner_repo" r.owner_repo f.owner_tidy,
  tidy-check_field r.line "evidence" r.evidence f.evidence_tidy,
  bool_field r.line r.control_plane,
  authority_plain r.source_authority,
  f.source_plain,
  f.target_plain,
  parse_authority-text r.source_authority,
  parse_disposition-text r.disposition,
  control_checked r.control_plane,
  control_read r.control_plane,
  f.mapping,
)

pub swap_row-eq_self : (r : ManifestRow) → r.source_id ≡ r.target_id → swap_row r ≡ r
unfolding swap_row
swap_row-eq_self r h = λ i. record r { source_id = sym h i; target_id = h i }

-- What validateMapping says of a row that renames.
pub record Renames (r : ManifestRow) : Type 0 where
  pub no_control : r.control_plane ≡ false
  pub source_home : foreign_authority_scope r.source_authority r.source_id ≡ false
  pub target_home : foreign_authority_scope r.source_authority r.target_id ≡ false
  pub renames : (r.source_id == r.target_id) ≡ false
  pub either :
      (not (adds_prefix r.source_authority r.source_id r.target_id)
        && not (adds_prefix r.source_authority r.target_id r.source_id))
      ≡ false

pub mapping-kept :
    (r : ManifestRow)
    → validate_mapping r ≡ accepted tt
    → is_unchanged r.disposition ≡ true
    → r.source_id ≡ r.target_id
unfolding validate_mapping validate_unchanged refuse
mapping-kept r h kept = ground (arith, eq_iff r.source_id r.target_id)

pub mapping-Renames :
    (r : ManifestRow)
    → validate_mapping r ≡ accepted tt
    → is_unchanged r.disposition ≡ false
    → Renames r
unfolding validate_mapping validate_rename refuse
mapping-Renames r h renamed = ground arith

Renames-mapping :
    (r : ManifestRow)
    → Renames r
    → is_unchanged r.disposition ≡ false
    → validate_mapping r ≡ accepted tt
unfolding validate_mapping validate_rename refuse
Renames-mapping r h renamed = ground arith

Renames-swap_row : (r : ManifestRow) → Renames r → Renames (swap_row r)
unfolding swap_row
Renames-swap_row r k = record {
  no_control = k.no_control;
  source_home = k.target_home;
  target_home = k.source_home;
  renames = ground (arith, eq_iff r.source_id r.target_id, eq_iff r.target_id r.source_id);
  either = ground arith;
}

swap_row-mapping :
    (r : ManifestRow)
    → validate_mapping r ≡ accepted tt
    → validate_mapping (swap_row r) ≡ accepted tt
unfolding swap_row
swap_row-mapping r h = elim (Bool-cases (is_unchanged r.disposition)) [
  | inl kept ↦
      subst (λ t. validate_mapping t ≡ accepted tt)
        (sym (swap_row-eq_self r (mapping-kept r h kept))) h
  | inr renamed ↦
      Renames-mapping (swap_row r) (Renames-swap_row r (mapping-Renames r h renamed)) renamed
]

pub Fits-swap_row : (r : ManifestRow) → Fits r → Fits (swap_row r)
unfolding swap_row
Fits-swap_row r f = record {
  source_tidy = f.target_tidy;
  target_tidy = f.source_tidy;
  owner_tidy = f.owner_tidy;
  evidence_tidy = f.evidence_tidy;
  source_plain = f.target_plain;
  target_plain = f.source_plain;
  mapping = swap_row-mapping r f.mapping;
}

-- A prefix of an authority is an explicit scope.
pub has_explicit_scope-prefix :
    (a : Authority) (x : String) → has_explicit_scope (prefix_of a ++ x) ≡ true
unfolding has_explicit_scope explicit_scope has_dot before_dot valid_scope
has_explicit_scope-prefix jk x = rw (
  cons-append, cons-append, cons-append, cons-append, cons-append, cons-append, cons-append,
  cons-append, cons-append,
)
has_explicit_scope-prefix ucla x =
    rw (cons-append, cons-append, cons-append, cons-append, cons-append)
