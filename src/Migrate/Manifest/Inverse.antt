-- ===== src/Migrate/Manifest/Inverse.antt =====
-- Reading what WriteManifest writes, and the inverse of an accepted manifest.
use Prim.Native.String.{◌++◌}
use pinakes.Base.{
  ℕ, String, Bool, true, false, not, List, [], ◌∷◌, map, ◌+◌, ◌==◌, ◌&&◌, ◌≡◌, refl, sym, ap, ◌∙◌,
  subst, arith, eq_iff, All, length, if◌then◌else◌, inl, inr, Bool-cases, ltb, nat_eq,
}
use pinakes.Base.Dict.{Dict, lookup_or, insert}
use pinakes.Text.Csv.{Records, end, broken, row, read_all}
use pinakes.Text.Csv.Laws.{all_of}
use pinakes.Text.Csv.Returns.{has_return, Writable, read_all-write_all}
use pinakes.Migrate.{
  Authority, jk, ucla, authority_text, Disposition, migrate, retire, split, unchanged,
  disposition_text, ManifestRow, Outcome, accepted, refuse, accepted-inj, >>=-eq-accepted,
  refuse_if-eq-accepted,
}
use pinakes.Migrate.Rows.{
  manifest_header, swap_row, has_explicit_scope, is_unchanged, adds_prefix, prefix_of, bool_text,
  has_control,
}
use pinakes.Migrate.Rows.Laws.{
  Fits, Renames, has_explicit_scope-prefix, mapping-kept, mapping-Renames, swap_row-eq_self,
}
use pinakes.Migrate.Manifest.{
  empty_scan, check_header, validate_header, scan_rows, is_empty, parse_records, parse_manifest,
  record_of, write_manifest, invert_manifest, legacy_id, is_split, collect_pairs, check_pairs,
  validate_split_pairs, Pair, no_pair, set_line,
}
use pinakes.Migrate.Manifest.Scan.{AllTaken, scan_rows-AllTaken, scan_rows-Accepted}
use pinakes.Migrate.Manifest.Apart.{AllTaken-Fits, AllTaken-swap}

check_header-eq :
    (i : ℕ) (names found : List String)
    → length found ≡ length names
    → check_header i names found ≡ accepted tt
    → found ≡ names
unfolding check_header
check_header-eq i [] [] n h = refl
check_header-eq i [] (c ∷ rest) n h = absurd (omega (arith, n))
check_header-eq i (name ∷ names) [] n h = absurd (omega (arith, n))
check_header-eq i (name ∷ names) (c ∷ rest) n h =
    let t = refuse_if-eq-accepted (not (c == name)) _ _ _ _ h in
    let same : c ≡ name = ground (arith, eq_iff c name, t.0) in
    let more = check_header-eq (i + 1) names rest (omega (arith, n)) t.1 in λ j. same j ∷ more j

validate_header-eq :
    (header : List String) → validate_header header ≡ accepted tt → header ≡ manifest_header
unfolding validate_header
validate_header-eq header h =
    let t1 = refuse_if-eq-accepted (ltb 7 (length header)) _ _ _ _ h in
    let t2 = refuse_if-eq-accepted (not (nat_eq (length header) 7)) _ _ _ _ t1.1 in
    check_header-eq 1 manifest_header header (ground (arith, t2.0)) t2.1

validate_header-header : validate_header manifest_header ≡ accepted tt
unfolding validate_header check_header
validate_header-header = refl

adds_prefix-explicit :
    (a : Authority) (x y : String)
    → adds_prefix a x y ≡ true
    → (has_explicit_scope x ≡ false) × (has_explicit_scope y ≡ true)
adds_prefix-explicit a x y h =
    let parts = and_parts (has_explicit_scope x) (y == prefix_of a ++ x) h in
    (
      parts.0,
      ap has_explicit_scope ((eq_iff y (prefix_of a ++ x)).0 parts.1)
          ∙ has_explicit_scope-prefix a x,
    )
  where
    and_parts : (b c : Bool) → (not b && c) ≡ true → (b ≡ false) × (c ≡ true)
    and_parts b c e = ground arith

-- The legacy id of a row is that of the swapped row.
legacy_id-swap : (r : ManifestRow) → Fits r → legacy_id (swap_row r) ≡ legacy_id r
unfolding legacy_id swap_row
legacy_id-swap r f = elim (Bool-cases (is_unchanged r.disposition)) [
  | inl kept ↦ ap legacy_id (swap_row-eq_self r (mapping-kept r f.mapping kept))
  | inr renamed ↦ renamed_case (mapping-Renames r f.mapping renamed)
]
  where
    renamed_case : Renames r → legacy_id (swap_row r) ≡ legacy_id r
    renamed_case k = ground (
      arith,
      adds_prefix-explicit r.source_authority r.source_id r.target_id,
      adds_prefix-explicit r.source_authority r.target_id r.source_id,
      k.either,
    )

collect_pairs-swap :
    (rows : List ManifestRow) (pairs : Dict Pair)
    → All Fits rows
    → collect_pairs (map swap_row rows) pairs ≡ collect_pairs rows pairs
unfolding collect_pairs swap_row
collect_pairs-swap [] pairs h = refl
collect_pairs-swap (r ∷ rows) pairs (f, fs) =
    ap (λ (k : String). collect_pairs (map swap_row rows) (joined k)) (legacy_id-swap r f)
    ∙ collect_pairs-swap rows (joined (legacy_id r)) fs
  where
    joined : String → Dict Pair
    joined k =
        if is_split r.disposition
        then insert k (set_line r.source_authority r.line (lookup_or no_pair k pairs)) pairs
        else pairs

-- What an accepted text is.
pub record Read (records : Records) (rows : List ManifestRow) : Type 0 where
  pub taken : AllTaken rows 2 empty_scan
  pub printed : records ≡ all_of (manifest_header ∷ map record_of rows)
  pub nonempty : is_empty rows ≡ false
  pub paired : validate_split_pairs rows ≡ accepted tt

pub parse_records-Read :
    (records : Records) (rows : List ManifestRow)
    → parse_records records ≡ accepted rows
    → Read records rows
unfolding parse_records refuse
parse_records-Read end rows h = cc
parse_records-Read (broken e) rows h = cc
parse_records-Read (row header rest) rows h =
    let (u, t1, t2) = >>=-eq-accepted (validate_header header) _ h in
    let (out, t3, t4) = >>=-eq-accepted (scan_rows rest 2 empty_scan) _ t2 in
    let t5 = refuse_if-eq-accepted _ _ _ _ _ t4 in
    let (v, t6, t7) = >>=-eq-accepted (validate_split_pairs out) _ t5.1 in
    let a = scan_rows-Accepted rest 2 empty_scan out t3 in
    let same : out ≡ rows = accepted-inj t7 in
    subst (Read (row header rest)) same (record {
      taken = subst (λ rs. AllTaken rs 2 empty_scan) (sym a.result) a.taken;
      printed = λ i.
          row (validate_header-eq header t1 i)
            ((a.printed ∙ ap (λ rs. all_of (map record_of rs)) (sym a.result)) i);
      nonempty = t5.0;
      paired = t6;
    })

pub Read-parse_records :
    (rows : List ManifestRow)
    → AllTaken rows 2 empty_scan
    → is_empty rows ≡ false
    → validate_split_pairs rows ≡ accepted tt
    → parse_records (all_of (manifest_header ∷ map record_of rows)) ≡ accepted rows
unfolding parse_records
Read-parse_records rows h n p = rw (scan_rows-AllTaken rows 2 empty_scan h, n, p)

-- The fields of a row hold no carriage return. Its identities never do.
abbrev pub NoReturn : ManifestRow → Type 0
NoReturn r = (has_return r.owner_repo ≡ false) × (has_return r.evidence ≡ false)

has_return-plain : (s : String) → has_control s ≡ false → has_return s ≡ false
unfolding has_control
has_return-plain String.[] h = refl
has_return-plain (String.◌∷◌ c s) h = ground (arith, has_return-plain s)

authority_plain :
    (a : Authority)
    → (not (authority_text a == "") ≡ true) × (has_return (authority_text a) ≡ false)
authority_plain jk = (refl, refl)
authority_plain ucla = (refl, refl)

disposition_plain : (d : Disposition) → has_return (disposition_text d) ≡ false
disposition_plain migrate = refl
disposition_plain retire = refl
disposition_plain split = refl
disposition_plain unchanged = refl

bool_plain : (b : Bool) → has_return (bool_text b) ≡ false
bool_plain true = refl
bool_plain false = refl

record_of-Writable :
    (rows : List ManifestRow)
    → All Fits rows
    → All NoReturn rows
    → All Writable (map record_of rows)
record_of-Writable [] f n = tt
record_of-Writable (r ∷ rows) (f, fs) (n, ns) = (
  (
    (authority_plain r.source_authority).0,
    (
      (authority_plain r.source_authority).1,
      (
        has_return-plain r.source_id f.source_plain,
        (
          has_return-plain r.target_id f.target_plain,
          (disposition_plain r.disposition, (n.0, (n.1, (bool_plain r.control_plane, tt)))),
        ),
      ),
    ),
  ),
  record_of-Writable rows fs ns,
)

header_plain : Writable manifest_header
header_plain = (refl, (refl, (refl, (refl, (refl, (refl, (refl, (refl, tt))))))))

written_rows :
    (rows : List ManifestRow)
    → All Fits rows
    → All NoReturn rows
    → parse_manifest (write_manifest rows)
      ≡ parse_records (all_of (manifest_header ∷ map record_of rows))
unfolding parse_manifest write_manifest
written_rows rows f n = ap parse_records (
    read_all-write_all (manifest_header ∷ map record_of rows)
      (header_plain, record_of-Writable rows f n))

-- What WriteManifest writes of a manifest that ParseManifest has read, with no carriage return in
-- an owner or an evidence text, ParseManifest reads back as the same rows.
pub parse-write :
    (text : String) (rows : List ManifestRow)
    → parse_manifest text ≡ accepted rows
    → All NoReturn rows
    → parse_manifest (write_manifest rows) ≡ accepted rows
unfolding parse_manifest
parse-write text rows h n =
    let r = parse_records-Read (read_all text) rows h in
    written_rows rows (AllTaken-Fits rows 2 empty_scan r.taken) n
    ∙ Read-parse_records rows r.taken r.nonempty r.paired

NoReturn-swap : (rows : List ManifestRow) → All NoReturn rows → All NoReturn (map swap_row rows)
unfolding swap_row
NoReturn-swap [] h = tt
NoReturn-swap (r ∷ rows) (h, hs) = (h, NoReturn-swap rows hs)

swap-swap : (rows : List ManifestRow) → map swap_row (map swap_row rows) ≡ rows
unfolding swap_row
swap-swap [] = refl
swap-swap (r ∷ rows) = ap (λ rs. r ∷ rs) (swap-swap rows)

is_empty-swap : (rows : List ManifestRow) → is_empty (map swap_row rows) ≡ is_empty rows
is_empty-swap [] = refl
is_empty-swap (r ∷ rows) = refl

-- The inverse of rows that a manifest holds is the swapped rows.
invert-taken :
    (rows : List ManifestRow)
    → AllTaken rows 2 empty_scan
    → is_empty rows ≡ false
    → validate_split_pairs rows ≡ accepted tt
    → All NoReturn rows
    → invert_manifest rows ≡ accepted (map swap_row rows)
unfolding invert_manifest validate_split_pairs
invert-taken rows t e p n =
    let swapped = AllTaken-swap rows 2 t in
    written_rows (map swap_row rows) (AllTaken-Fits (map swap_row rows) 2 empty_scan swapped)
      (NoReturn-swap rows n)
    ∙ Read-parse_records (map swap_row rows) swapped (is_empty-swap rows ∙ e)
        (ap check_pairs (collect_pairs-swap rows [] (AllTaken-Fits rows 2 empty_scan t)) ∙ p)

-- The inverse of a manifest that ParseManifest reads, with no carriage return in an owner or an
-- evidence text, is accepted: it is the manifest with source and target of every row exchanged.
-- And the inverse of the inverse is accepted and is the manifest.
pub invert-invert :
    (text : String) (rows : List ManifestRow)
    → parse_manifest text ≡ accepted rows
    → All NoReturn rows
    → (invert_manifest rows ≡ accepted (map swap_row rows))
      × (invert_manifest (map swap_row rows) ≡ accepted rows)
unfolding parse_manifest validate_split_pairs
invert-invert text rows h n =
    let r = parse_records-Read (read_all text) rows h in
    let swapped = AllTaken-swap rows 2 r.taken in
    (
      invert-taken rows r.taken r.nonempty r.paired n,
      invert-taken (map swap_row rows) swapped (is_empty-swap rows ∙ r.nonempty)
            (ap check_pairs (collect_pairs-swap rows [] (AllTaken-Fits rows 2 empty_scan r.taken))
              ∙ r.paired)
            (NoReturn-swap rows n)
          ∙ ap Outcome.accepted (swap-swap rows),
    )
