-- ===== src/Migrate/Apply/Selected.antt =====
-- The rows that Run selects, and what preflight marks of them.
use pinakes.Base.{
  String, Bool, true, false, not, List, [], ◌∷◌, ◌&&◌, ◌==◌, ◌≡◌, ◌≢◌, refl, sym, ap, ◌∙◌, arith,
  eq_iff, All, subst, if◌then◌else◌, inl, inr, false≢true,
}
use pinakes.Base.Dict.{lookup_or}
use pinakes.Migrate.{
  Authority, jk, ucla, ManifestRow, Outcome, Refusal, accepted, refused, refuse, ◌>>=◌,
  Outcome-cases, >>=-eq-accepted, accepted-inj,
}
use pinakes.Migrate.Rows.Laws.{Fits, tidy}
use pinakes.Migrate.Manifest.Apart.{Differ, AllDiffer}
use pinakes.Migrate.Manifest.{identity_key}
use pinakes.Migrate.Inspect.{Inspection}
use pinakes.Migrate.Plan.{
  Mapping, Report, select_mappings, same_authority, new_mapping, preflight_mapping, preflight_loop,
}
use pinakes.Migrate.Apply.Rename.{Renaming, renaming, active_renamings, Disjoint, AllDisjoint}

-- A selected row: not marked yet, with names that are not blank.
pub record Fresh (authority : Authority) (item : Mapping) : Type 0 where
  pub idle : item.active ≡ false
  pub of_authority : item.row.source_authority ≡ authority
  pub fits : Fits item.row

-- Two selected rows have different sources and different targets.
pub record Separate (p q : Mapping) : Type 0 where
  pub sources : p.row.source_id ≢ q.row.source_id
  pub targets : p.row.target_id ≢ q.row.target_id

abbrev pub AllSeparate : List Mapping → Type 0
AllSeparate [] = Unit
AllSeparate (p ∷ ps) = All (Separate p) ps × AllSeparate ps

pub same_authority-eq : (a b : Authority) → same_authority a b ≡ true → a ≡ b
same_authority-eq jk jk h = refl
same_authority-eq ucla ucla h = refl
same_authority-eq jk ucla h = cc
same_authority-eq ucla jk h = cc

module _ (authority : Authority) where
  -- The selection without the report.
  unfoldable pub chosen : List ManifestRow → List Mapping
  chosen [] = []
  chosen (r ∷ rows) =
      let more = chosen rows in
      if same_authority r.source_authority authority then new_mapping r ∷ more else more

  pub select-chosen :
      (rows : List ManifestRow) (report : Report)
      → (select_mappings rows authority report).0 ≡ chosen rows
  unfolding select_mappings chosen
  select-chosen [] report = refl
  select-chosen (r ∷ rows) report =
      pick (same_authority r.source_authority authority) _ _ (select-chosen rows)
    where
      pick :
          (b : Bool) (counted old : Report)
          → ((now : Report) → (select_mappings rows authority now).0 ≡ chosen rows)
          → (if b
              then new_mapping r ∷ (select_mappings rows authority (if b then counted else old)).0
              else (select_mappings rows authority (if b then counted else old)).0)
            ≡ (if b then new_mapping r ∷ chosen rows else chosen rows)
      pick true counted old ih = ap (λ ms. new_mapping r ∷ ms) (ih counted)
      pick false counted old ih = ih old

  if-All :
      (P : Mapping → Type 0) (b : Bool) (item : Mapping) (more : List Mapping)
      → (b ≡ true → P item)
      → All P more
      → All P (if b then item ∷ more else more)
  if-All P true item more h k = (h refl, k)
  if-All P false item more h k = k

  pub chosen-Fresh : (rows : List ManifestRow) → All Fits rows → All (Fresh authority) (chosen rows)
  unfolding chosen
  chosen-Fresh [] f = tt
  chosen-Fresh (r ∷ rows) (f, fs) =
      if-All (Fresh authority) (same_authority r.source_authority authority) (new_mapping r)
        (chosen rows)
        (λ e. record {
          idle = refl;
          of_authority = same_authority-eq r.source_authority authority e;
          fits = f;
        })
        (chosen-Fresh rows fs)

  -- Rows of one authority with different keys have different ids.
  chosen-apart :
      (r : ManifestRow) (rows : List ManifestRow)
      → r.source_authority ≡ authority
      → All (Differ r) rows
      → All (Separate (new_mapping r)) (chosen rows)
  unfolding chosen
  chosen-apart r [] h d = tt
  chosen-apart r (q ∷ rows) h (d, ds) =
      if-All (Separate (new_mapping r)) (same_authority q.source_authority authority)
        (new_mapping q) (chosen rows)
        (λ e.
          let one : r.source_authority ≡ q.source_authority =
            h ∙ sym (same_authority-eq q.source_authority authority e) in
          record {
            sources = λ s. d.sources (λ i. identity_key (one i) (s i));
            targets = λ t. d.targets (λ i. identity_key (one i) (t i));
          })
        (chosen-apart r rows h ds)

  pub chosen-AllSeparate : (rows : List ManifestRow) → AllDiffer rows → AllSeparate (chosen rows)
  unfolding chosen
  chosen-AllSeparate [] d = tt
  chosen-AllSeparate (r ∷ rows) (d, ds) =
      pick (same_authority r.source_authority authority)
        (λ e. chosen-apart r rows (same_authority-eq r.source_authority authority e) d)
        (chosen-AllSeparate rows ds)
    where
      pick :
          (b : Bool)
          → (b ≡ true → All (Separate (new_mapping r)) (chosen rows))
          → AllSeparate (chosen rows)
          → AllSeparate (if b then new_mapping r ∷ chosen rows else chosen rows)
      pick true h k = (h refl, k)
      pick false h k = k

-- What preflight has made of a mapping: an active one has its source in the database and its target
-- nowhere.
pub record Marked (i : Inspection) (item marked : Mapping) : Type 0 where
  pub same_row : marked.row ≡ item.row
  pub source_there : marked.active ≡ true → lookup_or false item.row.source_id i.present ≡ true
  pub target_free : marked.active ≡ true → lookup_or false item.row.target_id i.present ≡ false
  pub woken :
      item.row.source_id ≢ item.row.target_id
      → lookup_or false item.row.source_id i.present ≡ true
      → marked.active ≡ true

abbrev pub AllMarked : Inspection → List Mapping → List Mapping → Type 0
AllMarked i [] [] = Unit
AllMarked i [] (m ∷ ms) = ⊥
AllMarked i (p ∷ ps) [] = ⊥
AllMarked i (p ∷ ps) (m ∷ ms) = Marked i p m × AllMarked i ps ms

abbrev three_ways :
    Bool
    → Bool
    → Report × Outcome Mapping
    → Report × Outcome Mapping
    → Report × Outcome Mapping
    → Report × Outcome Mapping
three_ways b c x y z = if b then x else if c then y else z

module _ (i : Inspection) (item : Mapping) (idle : item.active ≡ false) where
  mark_cases :
      (there taken same : Bool) (marked : Mapping) (r1 r2 r3 : Report) (flag : Bool)
      (bad : Outcome Mapping)
      → lookup_or false item.row.source_id i.present ≡ there
      → lookup_or false item.row.target_id i.present ≡ taken
      → (item.row.source_id == item.row.target_id) ≡ same
      → ((m : Mapping) → bad ≢ accepted m)
      → (three_ways same
          (there && taken)
          (r1, accepted item)
          (r2, bad)
          (r3, accepted (record item { active = there; already_applied = flag }))).1
        ≡ accepted marked
      → Marked i item marked
  mark_cases there taken true marked r1 r2 r3 flag bad s t e no_way h =
      subst (Marked i item) (accepted-inj h) (record {
        same_row = refl;
        source_there = λ on. absurd (false≢true (sym idle ∙ on));
        target_free = λ on. absurd (false≢true (sym idle ∙ on));
        woken = λ ne used. absurd (ne ((eq_iff item.row.source_id item.row.target_id).0 e));
      })
  mark_cases true true false marked r1 r2 r3 flag bad s t e no_way h = absurd (no_way marked h)
  mark_cases true false false marked r1 r2 r3 flag bad s t e no_way h =
      subst (Marked i item) (accepted-inj h) (record {
        same_row = refl;
        source_there = λ on. s;
        target_free = λ on. t;
        woken = λ ne used. refl;
      })
  mark_cases false taken false marked r1 r2 r3 flag bad s t e no_way h =
      subst (Marked i item) (accepted-inj h) (record {
        same_row = refl;
        source_there = λ on. absurd (false≢true on);
        target_free = λ on. absurd (false≢true on);
        woken = λ ne used. absurd (false≢true (sym s ∙ used));
      })

  preflight_mapping-Marked :
      (marked : Mapping) (report : Report)
      → (preflight_mapping i item report).1 ≡ accepted marked
      → Marked i item marked
  unfolding preflight_mapping refuse
  preflight_mapping-Marked marked report h =
      mark_cases (lookup_or false item.row.source_id i.present)
        (lookup_or false item.row.target_id i.present) (item.row.source_id == item.row.target_id)
        marked _ _ _ _ _ refl refl refl (λ m. cc) h

pub preflight_loop-AllMarked :
    (i : Inspection) (authority : Authority) (items marked : List Mapping) (report : Report)
    → All (Fresh authority) items
    → (preflight_loop i items report).1 ≡ accepted marked
    → AllMarked i items marked
unfolding preflight_loop
preflight_loop-AllMarked i authority [] marked report f h =
    subst (AllMarked i []) (accepted-inj h) tt
preflight_loop-AllMarked i authority (item ∷ rest) marked report (f, fs) h =
    elim (Outcome-cases (preflight_mapping i item report).1) [
      | inr (e, bad) ↦ absurd (no_way (rw (bad, preflight_loop) at h))
      | inl (m, good) ↦
          let tail : ((preflight_loop i rest (preflight_mapping i item report).0).1 >>= λ items.
          accepted (m ∷ items))
              ≡ accepted marked =
            rw (good, preflight_loop) at h in
          let (items, e, last) =
            >>=-eq-accepted (preflight_loop i rest (preflight_mapping i item report).0).1
              (λ items. accepted (m ∷ items)) tail in
          subst (AllMarked i (item ∷ rest)) (accepted-inj last) (
            preflight_mapping-Marked i item f.idle m report good,
            preflight_loop-AllMarked i authority rest items _ fs e,
          )
    ]
  where
    no_way : {e : List Refusal} → refused e ≢ accepted marked
    no_way k = cc

-- The active mappings of distinct rows do not touch one another.
Marked-Disjoint :
    (i : Inspection) (p q p' q' : Mapping)
    → Marked i p p'
    → Marked i q q'
    → Separate p q
    → p'.active ≡ true
    → q'.active ≡ true
    → Disjoint (renaming p') (renaming q')
Marked-Disjoint i p q p' q' m n s on_p on_q = record {
  targets = λ e.
      s.targets (sym (ap (λ r. r.target_id) m.same_row) ∙ e ∙ ap (λ r. r.target_id) n.same_row);
  sources = λ e.
      s.sources (sym (ap (λ r. r.source_id) m.same_row) ∙ e ∙ ap (λ r. r.source_id) n.same_row);
  onward = λ e. false≢true (
      sym (m.target_free on_p)
      ∙ ap (λ x. lookup_or false x i.present)
          (sym (ap (λ (r : ManifestRow). r.target_id) m.same_row)
            ∙ e
            ∙ ap (λ (r : ManifestRow). r.source_id) n.same_row)
      ∙ n.source_there on_q);
  back = λ e. false≢true (
      sym (n.target_free on_q)
      ∙ ap (λ x. lookup_or false x i.present)
          (sym (ap (λ (r : ManifestRow). r.target_id) n.same_row)
            ∙ sym e
            ∙ ap (λ (r : ManifestRow). r.source_id) m.same_row)
      ∙ m.source_there on_p);
}

active_apart :
    (i : Inspection) (p p' : Mapping) (rest marked : List Mapping)
    → Marked i p p'
    → p'.active ≡ true
    → All (Separate p) rest
    → AllMarked i rest marked
    → All (Disjoint (renaming p')) (active_renamings marked)
active_apart i p p' [] [] m on s ms = tt
active_apart i p p' [] (q' ∷ marked) m on s ms = elim ms [ ]
active_apart i p p' (q ∷ rest) [] m on s ms = elim ms [ ]
active_apart i p p' (q ∷ rest) (q' ∷ marked) m on (s, ss) (n, ns) =
    pick q'.active refl (active_apart i p p' rest marked m on ss ns)
  where
    pick :
        (b : Bool)
        → q'.active ≡ b
        → All (Disjoint (renaming p')) (active_renamings marked)
        → All
            (Disjoint (renaming p'))
            (if b then renaming q' ∷ active_renamings marked else active_renamings marked)
    pick true e h = (Marked-Disjoint i p q p' q' m n s on e, h)
    pick false e h = h

pub AllMarked-AllDisjoint :
    (i : Inspection) (items marked : List Mapping)
    → AllSeparate items
    → AllMarked i items marked
    → AllDisjoint (active_renamings marked)
AllMarked-AllDisjoint i [] [] s m = tt
AllMarked-AllDisjoint i [] (q ∷ marked) s m = elim m [ ]
AllMarked-AllDisjoint i (p ∷ items) [] s m = elim m [ ]
AllMarked-AllDisjoint i (p ∷ items) (p' ∷ marked) (s, ss) (m, ms) =
    pick p'.active refl (AllMarked-AllDisjoint i items marked ss ms)
  where
    pick :
        (b : Bool)
        → p'.active ≡ b
        → AllDisjoint (active_renamings marked)
        → AllDisjoint (if b then renaming p' ∷ active_renamings marked else active_renamings marked)
    pick true e h = (active_apart i p p' items marked m e s ms, h)
    pick false e h = h

-- An active renaming: its names are not blank, its source is in the database and its target is not.
pub record Active (i : Inspection) (p : Renaming) : Type 0 where
  pub source_named : p.source ≢ ""
  pub target_named : p.target ≢ ""
  pub source_there : lookup_or false p.source i.present ≡ true
  pub target_free : lookup_or false p.target i.present ≡ false

pub tidy-nonblank : (s : String) → tidy s ≡ true → s ≢ ""
tidy-nonblank s h e = false≢true (sym (and_right _ _ h) ∙ (eq_iff s "").1 e)
  where
    and_right : (b c : Bool) → (b && not c) ≡ true → c ≡ false
    and_right b c k = ground arith

pub AllMarked-Active :
    (i : Inspection) (authority : Authority) (items marked : List Mapping)
    → All (Fresh authority) items
    → AllMarked i items marked
    → All (Active i) (active_renamings marked)
AllMarked-Active i authority [] [] f m = tt
AllMarked-Active i authority [] (q ∷ marked) f m = elim m [ ]
AllMarked-Active i authority (p ∷ items) [] f m = elim m [ ]
AllMarked-Active i authority (p ∷ items) (p' ∷ marked) (f, fs) (m, ms) =
    pick p'.active refl (AllMarked-Active i authority items marked fs ms)
  where
    pick :
        (b : Bool)
        → p'.active ≡ b
        → All (Active i) (active_renamings marked)
        → All
            (Active i)
            (if b then renaming p' ∷ active_renamings marked else active_renamings marked)
    pick false e h = h
    pick true e h = (
      record {
        source_named =
            subst (λ (r : ManifestRow). r.source_id ≢ "") (sym m.same_row)
              (tidy-nonblank p.row.source_id f.fits.source_tidy);
        target_named =
            subst (λ (r : ManifestRow). r.target_id ≢ "") (sym m.same_row)
              (tidy-nonblank p.row.target_id f.fits.target_tidy);
        source_there =
            subst (λ (r : ManifestRow). lookup_or false r.source_id i.present ≡ true)
              (sym m.same_row) (m.source_there e);
        target_free =
            subst (λ (r : ManifestRow). lookup_or false r.target_id i.present ≡ false)
              (sym m.same_row) (m.target_free e);
      },
      h,
    )
