-- ===== src/Migrate/Apply/Names.antt =====
-- Which name an identity has after a run that applied its plan, and that such a run goes through.
use pinakes.Base.{
  String, Bool, true, false, List, [], ◌∷◌, ◌≡◌, ◌≢◌, refl, sym, ap, ◌∙◌, eq_refl, eq_false, All,
  subst, none, false≢true, nat_eq, if◌then◌else◌,
}
use mathlib.Core.Path.{fun_ext}
use pinakes.Base.Dict.{lookup_or}
use pinakes.Migrate.{Authority, jk, ucla, ManifestRow, accepted}
use pinakes.Migrate.Manifest.{parse_manifest}
use pinakes.Migrate.Inspect.{Database, Inspection, inspect}
use pinakes.Migrate.Inspect.Used.{is_used, inspect-present}
use pinakes.Migrate.Plan.{
  Report, Mapping, Plan, applied, ready, select_mappings, preflight, replacements, renamed_by,
  new_report, same_authority, new_mapping, validate_control_plane_agreement,
}
use pinakes.Migrate.Apply.{
  Options, Disk, written, apply_plan, is_nil, finish, close, run, migrate_db, commit_plan,
}
use pinakes.Migrate.Apply.Rename.{Renaming, renaming, active_renamings, AllDisjoint, rename_seq}
use pinakes.Migrate.Apply.Whole.{rename_seq-replacements, kept_name, not_onward, sources_differ}
use pinakes.Migrate.Apply.Conversations.{DistinctIds}
use pinakes.Migrate.Apply.Selected.{
  chosen, same_authority-eq, Fresh, AllMarked, preflight_loop-AllMarked, AllMarked-AllDisjoint,
  tidy-nonblank,
}
use pinakes.Migrate.Apply.Total.{
  rename_db, Planned, preflight-Planned, selected_rows, selected-Fresh, selected-AllSeparate,
  apply_plan-rename_db,
}

-- A sequence of renamings gives each source its target.
sources_hit :
    (ps : List Renaming) → AllDisjoint ps → All (λ p. rename_seq ps p.source ≡ p.target) ps
sources_hit [] d = tt
sources_hit (p ∷ ps) (d, ds) = (
  ap (λ (b : Bool). rename_seq ps (if b then p.target else p.source)) (eq_refl p.source)
      ∙ kept_name p.target ps (not_onward p ps d),
  later ps (sources_differ p ps d) (sources_hit ps ds),
)
  where
    later :
        (qs : List Renaming)
        → All (λ q. p.source ≢ q.source) qs
        → All (λ q. rename_seq ps q.source ≡ q.target) qs
        → All (λ q. rename_seq (p ∷ ps) q.source ≡ q.target) qs
    later [] a h = tt
    later (q ∷ qs) (a, more) (h, hs) = (
      ap (λ (b : Bool). rename_seq ps (if b then p.target else q.source))
            (eq_false q.source p.source (λ e. a (sym e)))
          ∙ h,
      later qs more hs,
    )

module _ (i : Inspection) (f : String → String) where
  -- A marked mapping whose source is in the database has been given its target.
  marked_hit :
      (items marked : List Mapping)
      → AllMarked i items marked
      → All (λ p. f p.source ≡ p.target) (active_renamings marked)
      → All
          (λ m.
            m.row.source_id ≢ m.row.target_id
            → lookup_or false m.row.source_id i.present ≡ true
            → f m.row.source_id ≡ m.row.target_id)
          items
  marked_hit [] [] m h = tt
  marked_hit [] (q ∷ marked) m h = elim m [ ]
  marked_hit (p ∷ items) [] m h = elim m [ ]
  marked_hit (p ∷ items) (p' ∷ marked) (m, ms) h = (
    λ ne used.
        subst (λ (r : ManifestRow). f r.source_id ≡ r.target_id) m.same_row
          (head p'.active (m.woken ne used) h),
    marked_hit items marked ms (tail p'.active h),
  )
    where
      head :
          (b : Bool)
          → b ≡ true
          → All
              (λ p. f p.source ≡ p.target)
              (if b then renaming p' ∷ active_renamings marked else active_renamings marked)
          → f p'.row.source_id ≡ p'.row.target_id
      head true on k = k.0
      head false on k = absurd (false≢true on)

      tail :
          (b : Bool)
          → All
              (λ p. f p.source ≡ p.target)
              (if b then renaming p' ∷ active_renamings marked else active_renamings marked)
          → All (λ p. f p.source ≡ p.target) (active_renamings marked)
      tail true k = k.1
      tail false k = k

  -- A name that no renaming row has as its source is the source of no active mapping.
  marked_apart :
      (x : String) (items marked : List Mapping)
      → AllMarked i items marked
      → All (λ m. m.row.source_id ≢ m.row.target_id → x ≢ m.row.source_id) items
      → All (λ p. x ≢ p.source) (active_renamings marked)
  marked_apart x [] [] m h = tt
  marked_apart x [] (q ∷ marked) m h = elim m [ ]
  marked_apart x (p ∷ items) [] m h = elim m [ ]
  marked_apart x (p ∷ items) (p' ∷ marked) (m, ms) (h, hs) =
      pick p'.active refl (marked_apart x items marked ms hs)
    where
      moves : p'.active ≡ true → p.row.source_id ≢ p.row.target_id
      moves on e = false≢true (
          sym (m.target_free on)
          ∙ ap (λ y. lookup_or false y i.present) (sym e)
          ∙ m.source_there on)

      pick :
          (b : Bool)
          → p'.active ≡ b
          → All (λ p. x ≢ p.source) (active_renamings marked)
          → All
              (λ p. x ≢ p.source)
              (if b then renaming p' ∷ active_renamings marked else active_renamings marked)
      pick true on k = (λ e. h (moves on) (e ∙ ap (λ (r : ManifestRow). r.source_id) m.same_row), k)
      pick false on k = k

same_authority_self : (a b : Authority) → a ≡ b → same_authority a b ≡ true
same_authority_self a b e = subst (λ c. same_authority a c ≡ true) e (self a)
  where
    self : (c : Authority) → same_authority c c ≡ true
    self jk = refl
    self ucla = refl

module _ (authority : Authority) (P : ManifestRow → Type 0) where
  -- What holds of the selected rows holds of the rows of the authority, and the other way round.
  unselect :
      (rows : List ManifestRow)
      → All (λ m. P m.row) (chosen authority rows)
      → All (λ r. r.source_authority ≡ authority → P r) rows
  unfolding chosen
  unselect [] h = tt
  unselect (r ∷ rows) h = (
    λ e.
        head (same_authority r.source_authority authority)
          (same_authority_self r.source_authority authority e) h,
    unselect rows (tail (same_authority r.source_authority authority) h),
  )
    where
      head :
          (b : Bool)
          → b ≡ true
          → All
              (λ m. P m.row)
              (if b then new_mapping r ∷ chosen authority rows else chosen authority rows)
          → P r
      head true on k = k.0
      head false on k = absurd (false≢true on)

      tail :
          (b : Bool)
          → All
              (λ m. P m.row)
              (if b then new_mapping r ∷ chosen authority rows else chosen authority rows)
          → All (λ m. P m.row) (chosen authority rows)
      tail true k = k.1
      tail false k = k

  reselect :
      (rows : List ManifestRow)
      → All (λ r. r.source_authority ≡ authority → P r) rows
      → All (λ m. P m.row) (chosen authority rows)
  unfolding chosen
  reselect [] h = tt
  reselect (r ∷ rows) (h, hs) =
      pick (same_authority r.source_authority authority) refl (reselect rows hs)
    where
      pick :
          (b : Bool)
          → same_authority r.source_authority authority ≡ b
          → All (λ m. P m.row) (chosen authority rows)
          → All
              (λ m. P m.row)
              (if b then new_mapping r ∷ chosen authority rows else chosen authority rows)
      pick true e k = (h (same_authority-eq r.source_authority authority e), k)
      pick false e k = k

-- The function that names an identity after the migration of one authority.
pub record Names (manifest : List ManifestRow) (authority : Authority) (db : Database)
    (f : String → String) : Type 0 where
  pub moved :
      All
        (λ r.
          r.source_authority ≡ authority
          → r.source_id ≢ r.target_id
          → is_used db r.source_id ≡ true
          → f r.source_id ≡ r.target_id)
        manifest
  pub kept :
      (x : String)
      → All
          (λ r. r.source_authority ≡ authority → r.source_id ≢ r.target_id → x ≢ r.source_id)
          manifest
      → f x ≡ x

-- A source that some column uses is one that the inspection found.
used_hit :
    (authority : Authority) (db : Database) (i : Inspection)
    → inspect db ≡ accepted i
    → (f : String → String) (items : List Mapping) → All (Fresh authority) items
    → All
        (λ m.
          m.row.source_id ≢ m.row.target_id
          → lookup_or false m.row.source_id i.present ≡ true
          → f m.row.source_id ≡ m.row.target_id)
        items
    → All
        (λ m.
          m.row.source_id ≢ m.row.target_id
          → is_used db m.row.source_id ≡ true
          → f m.row.source_id ≡ m.row.target_id)
        items
used_hit authority db i seen f [] fresh h = tt
used_hit authority db i seen f (m ∷ items) (fresh, more) (h, hs) = (
  λ ne used. h ne (
      inspect-present m.row.source_id (tidy-nonblank m.row.source_id fresh.fits.source_tidy) db i
        seen
      ∙ used),
  used_hit authority db i seen f items more hs,
)

module _ (text : String) (manifest : List ManifestRow)
    (read : parse_manifest text ≡ accepted manifest) (authority : Authority) where
  plan-Names :
      (now : Report) (db : Database) (i : Inspection) (plan : Plan)
      → inspect db ≡ accepted i
      → Planned (chosen authority manifest) i now plan
      → Names manifest authority db (renamed_by (replacements plan.mappings []))
  plan-Names now db i plan seen p =
      let items = chosen authority manifest in
      let f = renamed_by (replacements plan.mappings []) in
      let marks =
        preflight_loop-AllMarked i authority items plan.mappings now
          (selected-Fresh text manifest read authority) p.marked in
      let apart =
        AllMarked-AllDisjoint i items plan.mappings
          (selected-AllSeparate text manifest read authority) marks in
      let same = rename_seq-replacements plan.mappings in
      record {
        moved =
            unselect authority
              (λ r.
                r.source_id ≢ r.target_id
                → is_used db r.source_id ≡ true
                → f r.source_id ≡ r.target_id)
              manifest
              (used_hit authority db i seen f items (selected-Fresh text manifest read authority) (
                marked_hit i f items plan.mappings marks (
                  subst (λ g. All (λ p. g p.source ≡ p.target) (active_renamings plan.mappings))
                    (fun_ext (λ x. same x apart))
                    (sources_hit (active_renamings plan.mappings) apart))));
        kept = λ x h.
            sym (same x apart)
            ∙ kept_name x (active_renamings plan.mappings) (
                marked_apart i f x items plan.mappings marks (
                  reselect authority (λ r. r.source_id ≢ r.target_id → x ≢ r.source_id) manifest
                    h));
      }

abbrev pub no_faults : Disk
no_faults = record {
  bad_path = none;
  open_error = none;
  begin_error = none;
  rollback_error = none;
  commit_error = none;
}

-- The rows that Run selects, and the report that counts them.
abbrev pub start_of : List ManifestRow → Options → List Mapping × Report
start_of manifest options =
    select_mappings manifest options.authority (new_report options.authority options.apply)

-- An apply on a copy, on a disk without faults, that passes every check with something to rewrite.
pub record Passes (manifest : List ManifestRow) (options : Options) (db : Database) (i : Inspection)
    (plan : Plan) : Type 0 where
  pub applies : options.apply ≡ true
  pub copied : options.acknowledge_copy ≡ true
  pub chosen_some : is_nil (start_of manifest options).0 ≡ false
  pub agreed :
      validate_control_plane_agreement (start_of manifest options).0 options.control_plane_agents
      ≡ accepted tt
  pub seen : inspect db ≡ accepted i
  pub checked :
      (preflight (start_of manifest options).0 i (start_of manifest options).1).1 ≡ accepted plan
  pub busy :
      nat_eq
        (preflight (start_of manifest options).0 i (start_of manifest options).1).0.total_rewrites
        0
      ≡ false

-- The identities under their new names.
abbrev pub new_name : Plan → String → String
new_name plan = renamed_by (replacements plan.mappings [])

commit_goes_through :
    (i : Inspection) (plan : Plan) (report : Report) (db after : Database)
    → apply_plan i plan db ≡ written after
    → commit_plan no_faults i plan report db ≡ finish report applied after
unfolding commit_plan
commit_goes_through i plan report db after h = rw (h, commit_plan)

migrate_goes_through :
    (options : Options) (selected : List Mapping) (report : Report) (db after : Database)
    (i : Inspection) (plan : Plan)
    → options.apply ≡ true
    → inspect db ≡ accepted i
    → (preflight selected i report).1 ≡ accepted plan
    → nat_eq (preflight selected i report).0.total_rewrites 0 ≡ false
    → apply_plan i plan db ≡ written after
    → migrate_db no_faults options selected report db
      ≡ finish (preflight selected i report).0 applied after
unfolding migrate_db
migrate_goes_through options selected report db after i plan on seen checked busy h =
    rw (seen, checked, busy, migrate_db)
      (ap
          (λ (b : Bool).
            if b
            then commit_plan no_faults i plan (preflight selected i report).0 db
            else close no_faults (preflight selected i report).0 ready "close dry-run transaction: "
                db)
          on
        ∙ commit_goes_through i plan (preflight selected i report).0 db after h)

-- For a manifest that ParseManifest reads and a database whose conversation ids stand once: an
-- apply on an acknowledged copy that meets no fault of the disk and passes every check, with
-- something to rewrite, ends as applied, with no error, and the database is the old one in which
-- one function renames every identity of all eight surfaces; that function gives the source of
-- each renaming row of the authority its target, where the source is used, and keeps every name
-- that is the source of no such row.
pub run_applied :
    (text : String) (manifest : List ManifestRow) (options : Options) (db : Database)
    (i : Inspection) (plan : Plan)
    → parse_manifest text ≡ accepted manifest
    → DistinctIds db.conversations
    → Passes manifest options db i plan
    → (run no_faults manifest options db
        ≡ finish
            (preflight (start_of manifest options).0 i (start_of manifest options).1).0
            applied
            (rename_db (new_name plan) db))
      × Names manifest options.authority db (new_name plan)
unfolding run
run_applied text manifest options db i plan read ids p =
    let a = options.authority in
    let start = start_of manifest options in
    let done =
      apply_plan-rename_db text manifest read a (new_report a options.apply) start.1 db i plan
        p.seen p.checked ids in
    (
      rw (p.copied, p.chosen_some, p.agreed)
          (migrate_goes_through options start.0 start.1 db (rename_db (new_name plan) db) i plan
            p.applies p.seen p.checked p.busy done),
      plan-Names text manifest read a start.1 db i plan p.seen (
          subst (λ ms. Planned ms i start.1 plan)
            (selected_rows text manifest read a (new_report a options.apply))
            (preflight-Planned start.0 i start.1 plan p.checked)),
    )
