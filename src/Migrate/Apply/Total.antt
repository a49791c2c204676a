-- ===== src/Migrate/Apply/Total.antt =====
-- A plan that passed preflight renames every identity of the database, and nothing else.
use pinakes.Base.{
  String, Bool, false, List, [], ◌∷◌, map, ◌||◌, ◌≡◌, ◌≢◌, sym, ap, ◌∙◌, arith, All, subst, inl,
  inr,
}
use mathlib.Core.Path.{fun_ext}
use pinakes.Text.Csv.{read_all}
use pinakes.Migrate.{
  Authority, ManifestRow, Refusal, accepted, refused, ◌>>=◌, >>=-eq-accepted, accepted-inj,
  Outcome-cases,
}
use pinakes.Migrate.Manifest.{parse_manifest, empty_scan}
use pinakes.Migrate.Manifest.Apart.{AllTaken-Fits, AllTaken-AllDiffer}
use pinakes.Migrate.Manifest.Inverse.{Read, parse_records-Read}
use pinakes.Migrate.Inspect.{Database, Inspection, inspect}
use pinakes.Migrate.Inspect.Used.{
  is_used, inspect-Gathered, inspect-listed, inspect-present, inspect-Counted,
}
use pinakes.Migrate.Plan.{
  Report, Mapping, Plan, select_mappings, preflight, preflight_loop, plan_of, plan_conversations,
  replacements, renamed_by, check_known, plan_one,
}
use pinakes.Migrate.Apply.{
  Written, written, failed, apply_plan, apply_mappings, apply_conversations,
}
use pinakes.Migrate.Apply
use pinakes.Migrate.Apply.Rename.{
  Renaming, active_renamings, Clear, AllClear, rename_columns, apply_mappings-after_all, rename_seq,
}
use pinakes.Migrate.Apply.Whole.{after_all-rename_seq, rename_seq-replacements}
use pinakes.Migrate.Apply.Conversations.{
  plan_conversations-map, rename_row, DistinctIds, apply_conversations-map,
}
use pinakes.Migrate.Apply.Selected.{
  chosen, select-chosen, chosen-Fresh, chosen-AllSeparate, Fresh, AllSeparate,
  preflight_loop-AllMarked, AllMarked-AllDisjoint, Active, AllMarked-Active,
}

-- The database with every identity renamed.
abbrev pub rename_db : (String → String) → Database → Database
rename_db f db = record (rename_columns f db) {
  conversations = map (rename_row f) db.conversations;
}

or_false : (a b : Bool) → (a || b) ≡ false → (a ≡ false) × (b ≡ false)
or_false a b h = ground arith

Active-Clear :
    (db : Database) (i : Inspection)
    → inspect db ≡ accepted i
    → (p : Renaming) → Active i p
    → Clear i p.target p.source db
Active-Clear db i seen p a =
    let free : is_used db p.target ≡ false =
      sym (inspect-present p.target a.target_named db i seen) ∙ a.target_free in
    let n = inspect-Counted p.source a.source_named db i seen in
    let c0 = or_false _ _ free in
    let c1 = or_false _ _ c0.1 in
    let c2 = or_false _ _ c1.1 in
    let c3 = or_false _ _ c2.1 in
    let c4 = or_false _ _ c3.1 in
    let c5 = or_false _ _ c4.1 in
    let c6 = or_false _ _ c5.1 in
    let c7 = or_false _ _ c6.1 in
    record {
      agents = record { unused = c7.0; counted = n.agents };
      froms = record { unused = c6.0; counted = n.froms };
      tos = record { unused = c5.0; counted = n.tos };
      deliveries = record { unused = c4.0; counted = n.deliveries };
      cursors = record { unused = c3.0; counted = n.cursors };
      key_froms = record { unused = c2.0; counted = n.key_froms };
      key_tos = record { unused = c1.0; counted = n.key_tos };
    }

All-Clear :
    (db : Database) (i : Inspection)
    → inspect db ≡ accepted i
    → (ps : List Renaming) → All (Active i) ps
    → AllClear i ps db
All-Clear db i seen [] a = tt
All-Clear db i seen (p ∷ ps) (a, more) = (Active-Clear db i seen p a, All-Clear db i seen ps more)

-- What a preflight that accepts has done.
pub record Planned (selected : List Mapping) (i : Inspection) (report : Report) (plan : Plan)
    : Type 0 where
  pub known : check_known selected i.present ≡ accepted tt
  pub marked : (preflight_loop i selected report).1 ≡ accepted plan.mappings
  pub planned :
      plan_conversations (replacements plan.mappings []) i.conversations
      ≡ accepted plan.conversations

pub preflight-Planned :
    (selected : List Mapping) (i : Inspection) (report : Report) (plan : Plan)
    → (preflight selected i report).1 ≡ accepted plan
    → Planned selected i report plan
unfolding preflight
preflight-Planned selected i report plan h = elim (Outcome-cases (check_known selected i.present)) [
  | inr (e, bad) ↦ absurd (no_way (rw (bad, preflight) at h))
  | inl (u, good) ↦
      let rest : ((preflight_loop i selected report).1 >>= plan_of i.conversations)
          ≡ accepted plan =
        rw (good, preflight) at h in
      let (ms, e1, t) =
        >>=-eq-accepted (preflight_loop i selected report).1 (plan_of i.conversations) rest in
      let (cs, e2, last) =
        >>=-eq-accepted (plan_conversations (replacements ms []) i.conversations) _ t in
      subst (Planned selected i report) (accepted-inj last)
        (record { known = good; marked = e1; planned = e2 })
]
  where
    no_way : {e : List Refusal} → refused e ≢ accepted plan
    no_way k = cc

module _ (text : String) (manifest : List ManifestRow)
    (read : parse_manifest text ≡ accepted manifest) (authority : Authority) where
  pub manifest-Read : Read (read_all text) manifest
  unfolding parse_manifest
  manifest-Read = parse_records-Read (read_all text) manifest read

  pub selected_rows :
      (before : Report) → (select_mappings manifest authority before).0 ≡ chosen authority manifest
  selected_rows before = select-chosen authority manifest before

  pub selected-Fresh : All (Fresh authority) (chosen authority manifest)
  selected-Fresh =
      chosen-Fresh authority manifest (AllTaken-Fits manifest 2 empty_scan manifest-Read.taken)

  pub selected-AllSeparate : AllSeparate (chosen authority manifest)
  selected-AllSeparate =
      chosen-AllSeparate authority manifest
        (AllTaken-AllDiffer manifest 2 empty_scan manifest-Read.taken)

  plan_renames :
      (db : Database) (i : Inspection) (report : Report) (plan : Plan)
      → inspect db ≡ accepted i
      → Planned (chosen authority manifest) i report plan
      → DistinctIds db.conversations
      → apply_plan i plan db ≡ written (rename_db (renamed_by (replacements plan.mappings [])) db)
  unfolding apply_plan
  plan_renames db i report plan seen p ids =
      let marks =
        preflight_loop-AllMarked i authority (chosen authority manifest) plan.mappings report
          selected-Fresh p.marked in
      let apart =
        AllMarked-AllDisjoint i (chosen authority manifest) plan.mappings selected-AllSeparate
          marks in
      let clear = All-Clear db i seen (active_renamings plan.mappings) (
        AllMarked-Active i authority (chosen authority manifest) plan.mappings selected-Fresh
          marks) in
      let g = inspect-Gathered db i seen in
      let names : rename_seq (active_renamings plan.mappings)
          ≡ renamed_by (replacements plan.mappings []) =
        fun_ext (λ x. rename_seq-replacements plan.mappings x apart) in
      let columns : apply_mappings i plan.mappings db
          ≡ written (rename_columns (renamed_by (replacements plan.mappings [])) db) =
        apply_mappings-after_all i plan.mappings db apart clear
        ∙ ap Written.written (
            after_all-rename_seq (active_renamings plan.mappings) db
            ∙ ap (λ f. rename_columns f db) names) in
      let plans =
        plan_conversations-map (replacements plan.mappings []) i.conversations plan.conversations
          p.planned in
      let stored_plans =
        plans ∙ ap (map (plan_one (replacements plan.mappings []))) (inspect-listed db i seen) in
      let conversations : apply_conversations plan.conversations db.conversations
          ≡ written
              (map (rename_row (renamed_by (replacements plan.mappings []))) db.conversations) =
        ap (λ cs. apply_conversations cs db.conversations) stored_plans
        ∙ apply_conversations-map (replacements plan.mappings []) db.conversations ids g.decoded in
      ap (λ w. Apply.◌>>=◌ w (then_conversations plan)) columns
      ∙ ap
          (λ w. Apply.◌>>=◌ w (λ cs.
            written (record (rename_columns (renamed_by (replacements plan.mappings [])) db) {
              conversations = cs;
            })))
          conversations
    where
      then_conversations : Plan → Database → Written Database
      then_conversations ps renamed =
          Apply.◌>>=◌ (apply_conversations ps.conversations renamed.conversations)
            (λ cs. written (record renamed { conversations = cs }))

  pub apply_plan-rename_db :
      (before now : Report) (db : Database) (i : Inspection) (plan : Plan)
      → inspect db ≡ accepted i
      → (preflight (select_mappings manifest authority before).0 i now).1 ≡ accepted plan
      → DistinctIds db.conversations
      → apply_plan i plan db ≡ written (rename_db (renamed_by (replacements plan.mappings [])) db)
  apply_plan-rename_db before now db i plan seen h ids =
      plan_renames db i now plan seen
        (preflight-Planned (chosen authority manifest) i now plan
          (subst (λ ms. (preflight ms i now).1 ≡ accepted plan) (selected_rows before) h))
        ids
