-- ===== src/Migrate/Manifest/Apart.antt =====
-- The rows of an accepted manifest name different sources and different targets, which does not
-- depend on the order in which they were scanned.
use pinakes.Base.{
  ℕ, String, List, [], ◌∷◌, map, ◌+◌, ◌≡◌, ◌≢◌, refl, sym, ap, ◌∙◌, Option, none, some, arith,
  eq_iff, All,
}
use pinakes.Base.Dict.{lookup}
use pinakes.Base.Dict.Laws.{lookup-insert_self, lookup-insert_ne}
use pinakes.Migrate.{ManifestRow, accepted, refuse}
use pinakes.Migrate.Rows.{swap_row}
use pinakes.Migrate.Rows.Laws.{Fits, Fits-swap_row}
use pinakes.Migrate.Manifest.{
  Scanned, source_key, target_key, check_target, add_row, identity_key, empty_scan,
}
use pinakes.Migrate.Manifest.Scan.{identity_key-inj, AllTaken}

-- Rows of different sources and different targets.
pub record Differ (p r : ManifestRow) : Type 0 where
  pub sources : source_key p ≢ source_key r
  pub targets : target_key p ≢ target_key r

abbrev pub AllDiffer : List ManifestRow → Type 0
AllDiffer [] = Unit
AllDiffer (r ∷ rs) = All (Differ r) rs × AllDiffer rs

-- The lines of the rows count up.
abbrev pub Numbered : ℕ → List ManifestRow → Type 0
Numbered line [] = Unit
Numbered line (r ∷ rs) = (r.line ≡ line) × Numbered (line + 1) rs

some≢none : {A : Type 0} {a : A} → Option.some a ≢ none
some≢none h = cc

-- A source that was seen is not taken again.
seen_source :
    (k : String) (n : ℕ) (rows : List ManifestRow) (line : ℕ) (scan : Scanned)
    → lookup k scan.seen_sources ≡ some n
    → AllTaken rows line scan
    → All (λ r. k ≢ source_key r) rows
unfolding add_row
seen_source k n [] line scan h all = tt
seen_source k n (r ∷ rs) line scan h (t, ts) =
    let new : k ≢ source_key r =
      λ e. some≢none (sym h ∙ ap (λ j. lookup j scan.seen_sources) e ∙ t.new_source) in
    (
      new,
      seen_source k n rs (line + 1) (add_row r line scan)
          (lookup-insert_ne (source_key r) k line scan.seen_sources (λ e. new (sym e)) ∙ h) ts,
    )

-- Rows with one target key and one source id have one source key.
same_source :
    (p r : ManifestRow)
    → target_key p ≡ target_key r
    → p.source_id ≡ r.source_id
    → source_key p ≡ source_key r
same_source p r h k =
    let one = identity_key-inj p.source_authority r.source_authority p.target_id r.target_id h in
    λ i. identity_key (one.0 i) (k i)

free_of :
    (p r : ManifestRow) (line : ℕ)
    → check_target (some p) r line ≡ accepted tt
    → p.source_id ≡ r.source_id
unfolding refuse
free_of p r line h = ground (arith, eq_iff p.source_id r.source_id)

-- A target that is owned is not taken by another source.
owned_target :
    (k : String) (p : ManifestRow) (rows : List ManifestRow) (line : ℕ) (scan : Scanned)
    → lookup k scan.target_owners ≡ some p
    → target_key p ≡ k
    → All (λ r. source_key p ≢ source_key r) rows
    → AllTaken rows line scan
    → All (λ r. k ≢ target_key r) rows
unfolding add_row refuse
owned_target k p [] line scan h own apart all = tt
owned_target k p (r ∷ rs) line scan h own (a, rest) (t, ts) =
    let new : k ≢ target_key r = λ e. a (
      same_source p r (own ∙ e) (
        free_of p r line (
          ap (λ o. check_target o r line) (sym h ∙ ap (λ j. lookup j scan.target_owners) e)
          ∙ t.free_target))) in
    (
      new,
      owned_target k p rs (line + 1) (add_row r line scan)
          (lookup-insert_ne (target_key r) k r scan.target_owners (λ e. new (sym e)) ∙ h) own rest
          ts,
    )

join-Differ :
    (r : ManifestRow) (rows : List ManifestRow)
    → All (λ q. source_key r ≢ source_key q) rows
    → All (λ q. target_key r ≢ target_key q) rows
    → All (Differ r) rows
join-Differ r [] a b = tt
join-Differ r (q ∷ rows) (a, more) (b, others) =
    (record { sources = a; targets = b }, join-Differ r rows more others)

pub AllTaken-AllDiffer :
    (rows : List ManifestRow) (line : ℕ) (scan : Scanned) → AllTaken rows line scan → AllDiffer rows
unfolding add_row
AllTaken-AllDiffer [] line scan h = tt
AllTaken-AllDiffer (r ∷ rs) line scan (t, ts) =
    let next = add_row r line scan in
    let sources =
      seen_source (source_key r) line rs (line + 1) next
        (lookup-insert_self (source_key r) line scan.seen_sources) ts in
    let targets =
      owned_target (target_key r) r rs (line + 1) next
        (lookup-insert_self (target_key r) r scan.target_owners) refl sources ts in
    (join-Differ r rs sources targets, AllTaken-AllDiffer rs (line + 1) next ts)

pub AllTaken-Numbered :
    (rows : List ManifestRow) (line : ℕ) (scan : Scanned)
    → AllTaken rows line scan
    → Numbered line rows
AllTaken-Numbered [] line scan h = tt
AllTaken-Numbered (r ∷ rs) line scan (t, ts) =
    (t.numbered, AllTaken-Numbered rs (line + 1) (add_row r line scan) ts)

pub AllTaken-Fits :
    (rows : List ManifestRow) (line : ℕ) (scan : Scanned) → AllTaken rows line scan → All Fits rows
AllTaken-Fits [] line scan h = tt
AllTaken-Fits (r ∷ rs) line scan (t, ts) =
    (t.fits, AllTaken-Fits rs (line + 1) (add_row r line scan) ts)

-- No row of the list is in the maps of the loop.
abbrev Clear : List ManifestRow → Scanned → Type 0
Clear rows scan =
    All
      (λ r.
        (lookup (source_key r) scan.seen_sources ≡ none)
        × (lookup (target_key r) scan.target_owners ≡ none))
      rows

Clear-add_row :
    (r : ManifestRow) (line : ℕ) (scan : Scanned) (rows : List ManifestRow)
    → All (Differ r) rows
    → Clear rows scan
    → Clear rows (add_row r line scan)
unfolding add_row
Clear-add_row r line scan [] d c = tt
Clear-add_row r line scan (q ∷ rows) (d, ds) (c, cs) = (
  (
    lookup-insert_ne (source_key r) (source_key q) line scan.seen_sources d.sources ∙ c.0,
    lookup-insert_ne (target_key r) (target_key q) r scan.target_owners d.targets ∙ c.1,
  ),
  Clear-add_row r line scan rows ds cs,
)

-- Rows that fit, with different sources and targets, are taken in turn.
pub AllDiffer-AllTaken :
    (rows : List ManifestRow) (line : ℕ) (scan : Scanned)
    → All Fits rows
    → Numbered line rows
    → AllDiffer rows
    → Clear rows scan
    → AllTaken rows line scan
AllDiffer-AllTaken [] line scan f n d c = tt
AllDiffer-AllTaken (r ∷ rs) line scan (f, fs) (n, ns) (d, ds) (c, cs) = (
  record {
    fits = f;
    numbered = n;
    new_source = c.0;
    free_target = ap (λ o. check_target o r line) c.1;
  },
  AllDiffer-AllTaken rs (line + 1) (add_row r line scan) fs ns ds
      (Clear-add_row r line scan rs d cs),
)

Clear-empty : (rows : List ManifestRow) → Clear rows empty_scan
unfolding lookup
Clear-empty [] = tt
Clear-empty (r ∷ rows) = ((refl, refl), Clear-empty rows)

-- All of it holds of the swapped rows too.
All-Fits-swap : (rows : List ManifestRow) → All Fits rows → All Fits (map swap_row rows)
All-Fits-swap [] h = tt
All-Fits-swap (r ∷ rows) (h, hs) = (Fits-swap_row r h, All-Fits-swap rows hs)

Numbered-swap :
    (line : ℕ) (rows : List ManifestRow) → Numbered line rows → Numbered line (map swap_row rows)
unfolding swap_row
Numbered-swap line [] h = tt
Numbered-swap line (r ∷ rows) (h, hs) = (h, Numbered-swap (line + 1) rows hs)

Differ-swap :
    (r : ManifestRow) (rows : List ManifestRow)
    → All (Differ r) rows
    → All (Differ (swap_row r)) (map swap_row rows)
unfolding swap_row
Differ-swap r [] h = tt
Differ-swap r (q ∷ rows) (h, hs) =
    (record { sources = h.targets; targets = h.sources }, Differ-swap r rows hs)

AllDiffer-swap : (rows : List ManifestRow) → AllDiffer rows → AllDiffer (map swap_row rows)
AllDiffer-swap [] h = tt
AllDiffer-swap (r ∷ rows) (h, hs) = (Differ-swap r rows h, AllDiffer-swap rows hs)

pub AllTaken-swap :
    (rows : List ManifestRow) (line : ℕ)
    → AllTaken rows line empty_scan
    → AllTaken (map swap_row rows) line empty_scan
AllTaken-swap rows line h =
    AllDiffer-AllTaken (map swap_row rows) line empty_scan
      (All-Fits-swap rows (AllTaken-Fits rows line empty_scan h))
      (Numbered-swap line rows (AllTaken-Numbered rows line empty_scan h))
      (AllDiffer-swap rows (AllTaken-AllDiffer rows line empty_scan h))
      (Clear-empty (map swap_row rows))
