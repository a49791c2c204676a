-- ===== src/Migrate/Manifest/Accept.antt =====
-- What ParseManifest promises of the manifests that it accepts.
use Prim.Native.String.{◌++◌}
use pinakes.Base.{
  ℕ, String, Bool, true, false, not, List, [], ◌∷◌, ◌+◌, ◌<◌, ◌==◌, ◌&&◌, ◌||◌, ◌≡◌, ◌⊎◌, refl, sym,
  ap, ◌∙◌, arith, eq_iff, All, if◌then◌else◌, inl, inr, Bool-cases, Option-cases, nat_eq,
}
use pinakes.Base.Dict.{Dict, lookup, lookup_or, insert}
use pinakes.Base.Dict.Laws.{Entries, Entries-lookup, lookup_or-insert}
use pinakes.Text.Csv.{read_all}
use pinakes.Migrate.{Authority, jk, ucla, ManifestRow, accepted, refuse_if-eq-accepted}
use pinakes.Migrate.Rows.{is_unchanged, adds_prefix, prefix_of, foreign_authority_scope}
use pinakes.Migrate.Rows.Laws.{Fits, Renames, mapping-kept, mapping-Renames}
use pinakes.Migrate.Manifest.{
  empty_scan, parse_manifest, legacy_id, is_split, collect_pairs, check_pairs, validate_split_pairs,
  Pair, no_pair, set_line, is_half,
}
use pinakes.Migrate.Manifest.Apart.{
  AllDiffer, Numbered, AllTaken-Fits, AllTaken-AllDiffer, AllTaken-Numbered,
}
use pinakes.Migrate.Manifest.Inverse.{parse_records-Read}

abbrev is_of : Authority → Authority → Bool
is_of jk jk = true
is_of ucla ucla = true
is_of a b = false

-- A split row of the authority stands for the legacy id.
abbrev pub has_half : Authority → String → List ManifestRow → Bool
has_half a id [] = false
has_half a id (r ∷ rows) =
    (is_split r.disposition && is_of a r.source_authority && legacy_id r == id)
    || has_half a id rows

abbrev line_of : Authority → Pair → ℕ
line_of jk p = p.jk_line
line_of ucla p = p.ucla_line

set_line-zero :
    (a b : Authority) (line : ℕ) (p : Pair)
    → 0 < line
    → nat_eq (line_of a (set_line b line p)) 0 ≡ (not (is_of a b) && nat_eq (line_of a p) 0)
set_line-zero jk jk line p h = ground arith
set_line-zero ucla ucla line p h = ground arith
set_line-zero jk ucla line p h = ground arith
set_line-zero ucla jk line p h = ground arith

and_here : (b z : Bool) → (not b && z) ≡ (not (b && true) && z)
and_here b z = ground arith

and_elsewhere : (b z : Bool) → z ≡ (not (b && false) && z)
and_elsewhere b z = ground arith

joined : ManifestRow → Dict Pair → Dict Pair
joined r pairs =
    if is_split r.disposition
    then insert (legacy_id r)
        (set_line r.source_authority r.line (lookup_or no_pair (legacy_id r) pairs)) pairs
    else pairs

joined-zero :
    (a : Authority) (id : String) (r : ManifestRow) (pairs : Dict Pair)
    → 0 < r.line
    → nat_eq (line_of a (lookup_or no_pair id (joined r pairs))) 0 ≡ (
        not (is_split r.disposition && is_of a r.source_authority && legacy_id r == id)
        && nat_eq (line_of a (lookup_or no_pair id pairs)) 0)
unfolding joined
joined-zero a id r pairs h = elim (Bool-cases (is_split r.disposition)) [
  | inr other ↦ rw other
  | inl halves ↦ elim (Bool-cases (legacy_id r == id)) [
    | inl same ↦
        let here : legacy_id r ≡ id = (eq_iff (legacy_id r) id).0 same in
        rw (halves, lookup_or-insert, same)
          (set_line-zero a r.source_authority r.line (lookup_or no_pair (legacy_id r) pairs) h
            ∙ ap
                (λ (k : String).
                  not (is_of a r.source_authority)
                  && nat_eq (line_of a (lookup_or no_pair k pairs)) 0)
                here
            ∙ and_here (is_of a r.source_authority) _)
    | inr elsewhere ↦
        rw (halves, lookup_or-insert, elsewhere) (and_elsewhere (is_of a r.source_authority) _)
  ]
]

or_first : (x hs z : Bool) → (not hs && (not x && z)) ≡ (not (x || hs) && z)
or_first x hs z = ground arith

-- A line of a pair is 0 as long as no row of its authority was met.
collect_pairs-has_half :
    (a : Authority) (id : String) (rows : List ManifestRow) (pairs : Dict Pair)
    → All (λ r. 0 < r.line) rows
    → nat_eq (line_of a (lookup_or no_pair id (collect_pairs rows pairs))) 0
      ≡ (not (has_half a id rows) && nat_eq (line_of a (lookup_or no_pair id pairs)) 0)
unfolding collect_pairs joined
collect_pairs-has_half a id [] pairs h = refl
collect_pairs-has_half a id (r ∷ rows) pairs (h, hs) =
    collect_pairs-has_half a id rows (joined r pairs) hs
    ∙ ap (λ z. not (has_half a id rows) && z) (joined-zero a id r pairs h)
    ∙ or_first (is_split r.disposition && is_of a r.source_authority && legacy_id r == id)
        (has_half a id rows) _

check_pairs-Entries :
    (pairs : Dict Pair) → check_pairs pairs ≡ accepted tt → Entries (λ k p. is_half p ≡ false) pairs
unfolding check_pairs
check_pairs-Entries [] h = tt
check_pairs-Entries ((k, p) ∷ rest) h =
    let t = refuse_if-eq-accepted (is_half p) _ _ _ _ h in (t.0, check_pairs-Entries rest t.1)

Numbered-positive :
    (line : ℕ) (rows : List ManifestRow)
    → 0 < line
    → Numbered line rows
    → All (λ r. 0 < r.line) rows
Numbered-positive line [] h n = tt
Numbered-positive line (r ∷ rows) h (n, ns) =
    (omega (arith, n), Numbered-positive (line + 1) rows (omega arith) ns)

not_half : (p : Pair) → is_half p ≡ false → nat_eq p.jk_line 0 ≡ nat_eq p.ucla_line 0
not_half p h = ground arith

lookup_not_half :
    (id : String) (pairs : Dict Pair)
    → Entries (λ k p. is_half p ≡ false) pairs
    → nat_eq (lookup_or no_pair id pairs).jk_line 0
      ≡ nat_eq (lookup_or no_pair id pairs).ucla_line 0
unfolding lookup_or
lookup_not_half id pairs h = elim (Option-cases (lookup id pairs)) [
  | inl missing ↦ rw (missing, lookup_or)
  | inr (p, found) ↦
      rw (found, lookup_or)
        (not_half p (Entries-lookup (λ k q. is_half q ≡ false) id p pairs h found))
]

-- Under each legacy id the split rows of one authority meet those of the other.
halves_meet :
    (id : String) (rows : List ManifestRow)
    → All (λ r. 0 < r.line) rows
    → validate_split_pairs rows ≡ accepted tt
    → has_half jk id rows ≡ has_half ucla id rows
unfolding validate_split_pairs lookup_or lookup
halves_meet id rows lines h =
    let even =
      lookup_not_half id (collect_pairs rows []) (check_pairs-Entries (collect_pairs rows []) h) in
    let left = collect_pairs-has_half jk id rows [] lines in
    let right = collect_pairs-has_half ucla id rows [] lines in
    not_inj (has_half jk id rows) (has_half ucla id rows) (sym left ∙ even ∙ right)
  where
    not_inj : (b c : Bool) → (not b && true) ≡ (not c && true) → b ≡ c
    not_inj b c e = ground arith

-- A row that keeps its id, or renames it within its own authority by the prefix of that authority.
pub data Sound (r : ManifestRow) : Type 0 where
  keeps : r.source_id ≡ r.target_id → Sound r
  prefixes :
      foreign_authority_scope r.source_authority r.source_id ≡ false
      → foreign_authority_scope r.source_authority r.target_id ≡ false
      → (r.target_id ≡ prefix_of r.source_authority ++ r.source_id)
        ⊎ (r.source_id ≡ prefix_of r.source_authority ++ r.target_id)
      → Sound r

prefix_eq : (a : Authority) (x y : String) → adds_prefix a x y ≡ true → y ≡ prefix_of a ++ x
prefix_eq a x y h = (eq_iff y (prefix_of a ++ x)).0 (and_right _ _ h)
  where
    and_right : (b c : Bool) → (not b && c) ≡ true → c ≡ true
    and_right b c e = ground arith

prefix_either :
    (r : ManifestRow)
    → Renames r
    → (r.target_id ≡ prefix_of r.source_authority ++ r.source_id)
      ⊎ (r.source_id ≡ prefix_of r.source_authority ++ r.target_id)
prefix_either r k = elim (Bool-cases (adds_prefix r.source_authority r.source_id r.target_id)) [
  | inl forward ↦ inl (prefix_eq r.source_authority r.source_id r.target_id forward)
  | inr backward ↦
      inr (prefix_eq r.source_authority r.target_id r.source_id (other _ _ backward k.either))
]
  where
    other : (b c : Bool) → b ≡ false → (not b && not c) ≡ false → c ≡ true
    other b c e h = ground arith

Fits-Sound : (r : ManifestRow) → Fits r → Sound r
Fits-Sound r f = elim (Bool-cases (is_unchanged r.disposition)) [
  | inl kept ↦ keeps (mapping-kept r f.mapping kept)
  | inr renamed ↦
      let k = mapping-Renames r f.mapping renamed in
      prefixes k.source_home k.target_home (prefix_either r k)
]

All-Sound : (rows : List ManifestRow) → All Fits rows → All Sound rows
All-Sound [] h = tt
All-Sound (r ∷ rows) (h, hs) = (Fits-Sound r h, All-Sound rows hs)

-- In a manifest that ParseManifest accepts each row keeps its id, or names no foreign authority
-- and puts the prefix of its own authority before the other id; different rows of an authority
-- have different sources and different targets; and each legacy id has a split row of jk exactly
-- if it has one of ucla.
pub parse_manifest-Sound :
    (text : String) (rows : List ManifestRow)
    → parse_manifest text ≡ accepted rows
    → All Sound rows
      × AllDiffer rows
      × ((id : String) → has_half jk id rows ≡ has_half ucla id rows)
unfolding parse_manifest
parse_manifest-Sound text rows h =
    let r = parse_records-Read (read_all text) rows h in
    (
      All-Sound rows (AllTaken-Fits rows 2 empty_scan r.taken),
      AllTaken-AllDiffer rows 2 empty_scan r.taken,
      λ id.
          halves_meet id rows
            (Numbered-positive 2 rows (omega arith) (AllTaken-Numbered rows 2 empty_scan r.taken))
            r.paired,
    )
