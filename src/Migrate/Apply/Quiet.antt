-- ===== src/Migrate/Apply/Quiet.antt =====
-- When a run writes to the database.
use pinakes.Base.{
  Bool, true, false, not, List, [], ◌&&◌, ◌≡◌, ◌≢◌, ◌⊎◌, inl, inr, refl, Option, none, some, String,
  nat_eq, if_keeps, if◌then◌else◌,
}
use pinakes.Migrate.{ManifestRow, Refusal, accepted, Outcome-cases}
use pinakes.Migrate.Inspect.{Database, Inspection, inspect}
use pinakes.Migrate.Plan.{
  Report, Status, no_op, ready, applied, Mapping, Plan, preflight, new_report, select_mappings,
  validate_control_plane_agreement,
}
use pinakes.Migrate.Apply.{
  Written, written, failed, apply_plan, Options, Disk, Ended, reject_all, reject, unless_error,
  begin_rejected, close, commit_plan, migrate_db, is_nil, open_db, select_and_open, run,
}

-- The run has left the database as it was, or it has applied the whole plan as it was told to.
pub data Quiet (options : Options) (db : Database) (e : Ended) : Type 0 where
  untouched : e.database ≡ db → e.report.status ≢ applied → Quiet options db e
  committed :
      options.apply ≡ true
      → e.report.status ≡ applied
      → e.error ≡ []
      → (inspected : Inspection) (plan : Plan) → inspect db ≡ accepted inspected
      → (selected : List Mapping) (before : Report)
      → (preflight selected inspected before).1 ≡ accepted plan
      → apply_plan inspected plan db ≡ written e.database
      → Quiet options db e

Written-cases :
    {A : Type 0} (w : Written A) → ((a : A) × (w ≡ written a)) ⊎ ((e : String) × (w ≡ failed e))
Written-cases (written a) = inl (a, refl)
Written-cases (failed e) = inr (e, refl)

if_splits {ℓ κ} :
    {A : Type ℓ} (P : A → Type κ) (b : Bool) (x y : A)
    → (b ≡ true → P x)
    → (b ≡ false → P y)
    → P (if b then x else y)
if_splits P true x y h k = h refl
if_splits P false x y h k = k refl

rejects :
    (options : Options) (report : Report) (found : List Refusal) (db : Database)
    → Quiet options db (reject_all report found db)
rejects options report found db = untouched refl (cc)

module _ (disk : Disk) (options : Options) (db : Database) where
  unless_error-Quiet :
      (o : Option String) (bad : String → Ended) (good : Ended)
      → ((e : String) → Quiet options db (bad e))
      → Quiet options db good
      → Quiet options db (unless_error o bad good)
  unless_error-Quiet none bad good b g = g
  unless_error-Quiet (some e) bad good b g = b e

  close-Quiet :
      (report : Report) (status : Status) (what : String)
      → status ≢ applied
      → Quiet options db (close disk report status what db)
  close-Quiet report status what h =
      unless_error-Quiet disk.rollback_error _ _ (λ e. rejects options report _ db)
        (untouched refl h)

  commit_plan-Quiet :
      (inspected : Inspection) (plan : Plan) (report : Report)
      → options.apply ≡ true
      → inspect db ≡ accepted inspected
      → (selected : List Mapping) (before : Report)
      → (preflight selected inspected before).1 ≡ accepted plan
      → Quiet options db (commit_plan disk inspected plan report db)
  unfolding commit_plan
  commit_plan-Quiet inspected plan report on seen selected before planned =
      elim (Written-cases (apply_plan inspected plan db)) [
        | inl (after, h) ↦
            rw (h, commit_plan)
              (unless_error-Quiet disk.commit_error _ _ (λ e. rejects options report _ db)
                (committed on refl refl inspected plan seen selected before planned h))
        | inr (e, h) ↦ rw (h, commit_plan) (rejects options report _ db)
      ]

  migrate_db-Quiet :
      (selected : List Mapping) (report : Report)
      → Quiet options db (migrate_db disk options selected report db)
  unfolding migrate_db
  migrate_db-Quiet selected report = elim (Outcome-cases (inspect db)) [
    | inr (e, h) ↦ rw (h, migrate_db) (rejects options report e db)
    | inl (inspected, seen) ↦ elim (Outcome-cases (preflight selected inspected report).1) [
      | inr (e, h) ↦
          rw (seen, h, migrate_db) (rejects options (preflight selected inspected report).0 e db)
      | inl (plan, h) ↦
          rw (seen, h, migrate_db)
            (if_keeps (Quiet options db)
              (nat_eq (preflight selected inspected report).0.total_rewrites 0) _ _
              (close-Quiet (preflight selected inspected report).0 no_op _ (cc))
              (if_splits (Quiet options db) options.apply _ _
                (λ on.
                  commit_plan-Quiet inspected plan (preflight selected inspected report).0 on seen
                    selected report h)
                (λ off. close-Quiet (preflight selected inspected report).0 ready _ (cc))))
    ]
  ]

  begin_rejected-Quiet :
      (report : Report) (e : Bool × String) → Quiet options db (begin_rejected options report e db)
  begin_rejected-Quiet report (busy, detail) =
      if_keeps (Quiet options db) (options.apply && busy) _ _ (rejects options report _ db)
        (rejects options report _ db)

  open_db-Quiet :
      (selected : List Mapping) (report : Report)
      → Quiet options db (open_db disk options selected report db)
  open_db-Quiet selected report =
      unless_error-Quiet disk.open_error _ _ (λ e. rejects options report _ db)
        (begun disk.begin_error)
    where
      begun :
          (o : Option (Bool × String))
          → Quiet options db (elim o [
            | some e ↦ begin_rejected options report e db
            | none ↦ migrate_db disk options selected report db
          ])
      begun none = migrate_db-Quiet selected report
      begun (some e) = begin_rejected-Quiet report e

  select_and_open-Quiet :
      (chosen : List Mapping × Report) → Quiet options db (select_and_open disk options chosen db)
  select_and_open-Quiet (selected, report) =
      if_keeps (Quiet options db) (is_nil selected) _ _ (rejects options report _ db)
        (elim (Outcome-cases
          (validate_control_plane_agreement selected options.control_plane_agents)) [
            | inl (u, h) ↦ rw h (open_db-Quiet selected report)
            | inr (e, h) ↦ rw h (rejects options report e db)
          ])

  -- A run leaves the database as it was, and its status is not applied; or it was told to apply,
  -- its status is applied with no error, preflight has accepted a plan of what inspect found in
  -- the database, and the database after it is what applyPlan makes of that plan.
  pub run-Quiet : (manifest : List ManifestRow) → Quiet options db (run disk manifest options db)
  unfolding run
  run-Quiet manifest =
      let report = new_report options.authority options.apply in
      if_keeps (Quiet options db) (not options.acknowledge_copy)
        (reject report "copy_acknowledgment_required" "database"
          "refusing to operate without --acknowledge-copy" db)
        (unless_error disk.bad_path (λ e. reject report "database_refused" "database" e db)
          (select_and_open disk options (select_mappings manifest options.authority report) db))
        (untouched refl (cc))
        (unless_error-Quiet disk.bad_path (λ e. reject report "database_refused" "database" e db)
          (select_and_open disk options (select_mappings manifest options.authority report) db)
          (λ e. untouched refl (cc))
          (select_and_open-Quiet (select_mappings manifest options.authority report)))
