-- ===== src/Migrate/Apply/Whole.antt =====
-- The sequence of renamings is one function on identities, that of the plan's replacements.
use pinakes.Base.{
  String, Bool, List, [], ◌∷◌, map, ◌==◌, ◌≡◌, ◌≢◌, refl, sym, ap, ◌∙◌, arith, eq_iff, eq_refl,
  eq_false, All, if◌then◌else◌, Bool-cases, inl, inr, false≢true,
}
use pinakes.Base.Dict.{Dict, lookup, lookup_or, insert}
use pinakes.Base.Dict.Laws.{lookup_or-insert}
use pinakes.Migrate.Inspect.{Database}
use pinakes.Migrate.Plan.{Mapping, replacements, renamed_by}
use pinakes.Migrate.Apply.Columns.{rename}
use pinakes.Migrate.Apply.Rename.{
  Renaming, active_renamings, Disjoint, AllDisjoint, after_one, after_all, rename_seq,
  rename_columns, rename_message, rename_delivery, rename_key, map-agents, map-deliveries,
  map-messages, map-idempotency,
}

map-map {ℓ} :
    {A : Type ℓ} (f g h : A → A) (xs : List A)
    → ((x : A) → g (f x) ≡ h x)
    → map g (map f xs) ≡ map h xs
map-map f g h [] e = refl
map-map f g h (x ∷ xs) e = λ i. e x i ∷ map-map f g h xs e i

map-same {ℓ} : {A : Type ℓ} (xs : List A) → map (λ x. x) xs ≡ xs
map-same [] = refl
map-same (x ∷ xs) = λ i. x ∷ map-same xs i

after_one-rename :
    (target source : String) (db : Database)
    → after_one target source db ≡ rename_columns (rename target source) db
after_one-rename target source db = λ i. record db {
  agents = map-agents target source db.agents i;
  messages = map-messages target source db.messages i;
  deliveries = map-deliveries target source db.deliveries i;
  delivery_cursors = map-agents target source db.delivery_cursors i;
  idempotency = map-idempotency target source db.idempotency i;
}

rename_columns-twice :
    (f g : String → String) (db : Database)
    → rename_columns g (rename_columns f db) ≡ rename_columns (λ x. g (f x)) db
rename_columns-twice f g db = λ i. record db {
  agents = map-map f g (λ x. g (f x)) db.agents (λ x. refl) i;
  messages =
      map-map (rename_message f) (rename_message g) (rename_message (λ x. g (f x))) db.messages
        (λ x. refl) i;
  deliveries =
      map-map (rename_delivery f) (rename_delivery g) (rename_delivery (λ x. g (f x))) db.deliveries
        (λ x. refl) i;
  delivery_cursors = map-map f g (λ x. g (f x)) db.delivery_cursors (λ x. refl) i;
  idempotency =
      map-map (rename_key f) (rename_key g) (rename_key (λ x. g (f x))) db.idempotency (λ x. refl)
        i;
}

pub after_all-rename_seq :
    (ps : List Renaming) (db : Database) → after_all ps db ≡ rename_columns (rename_seq ps) db
after_all-rename_seq [] db = λ i. record db {
  agents = sym (map-same db.agents) i;
  messages = sym (map-same db.messages) i;
  deliveries = sym (map-same db.deliveries) i;
  delivery_cursors = sym (map-same db.delivery_cursors) i;
  idempotency = sym (map-same db.idempotency) i;
}
after_all-rename_seq (p ∷ ps) db =
    after_all-rename_seq ps (after_one p.target p.source db)
    ∙ ap (rename_columns (rename_seq ps)) (after_one-rename p.target p.source db)
    ∙ rename_columns-twice (rename p.target p.source) (rename_seq ps) db

insert_all : List Renaming → Dict String → Dict String
insert_all [] known = known
insert_all (p ∷ ps) known = insert_all ps (insert p.source p.target known)

replacements-insert_all :
    (items : List Mapping) (known : Dict String)
    → replacements items known ≡ insert_all (active_renamings items) known
unfolding replacements insert_all
replacements-insert_all [] known = refl
replacements-insert_all (item ∷ rest) known = ground (
  arith,
  replacements-insert_all rest known,
  replacements-insert_all rest (insert item.row.source_id item.row.target_id known),
)

-- A text that is no source keeps its name.
pub kept_name : (x : String) (ps : List Renaming) → All (λ q. x ≢ q.source) ps → rename_seq ps x ≡ x
kept_name x [] h = refl
kept_name x (q ∷ ps) (h, hs) =
    ap (rename_seq ps) (ap (λ (b : Bool). if b then q.target else x) (eq_false x q.source h))
    ∙ kept_name x ps hs

renamed_by-insert_ne :
    (x source target : String) (known : Dict String)
    → x ≢ source
    → renamed_by (insert source target known) x ≡ renamed_by known x
renamed_by-insert_ne x source target known h =
    lookup_or-insert x source x target known
    ∙ ap (λ (b : Bool). if b then target else lookup_or x x known)
        (eq_false source x (λ e. h (sym e)))

kept_entry :
    (x : String) (ps : List Renaming) (known : Dict String)
    → All (λ q. x ≢ q.source) ps
    → renamed_by (insert_all ps known) x ≡ renamed_by known x
unfolding insert_all
kept_entry x [] known h = refl
kept_entry x (q ∷ ps) known (h, hs) =
    kept_entry x ps (insert q.source q.target known) hs
    ∙ renamed_by-insert_ne x q.source q.target known h

pub sources_differ :
    (p : Renaming) (ps : List Renaming) → All (Disjoint p) ps → All (λ q. p.source ≢ q.source) ps
sources_differ p [] h = tt
sources_differ p (q ∷ ps) (h, hs) = (h.sources, sources_differ p ps hs)

pub not_onward :
    (p : Renaming) (ps : List Renaming) → All (Disjoint p) ps → All (λ q. p.target ≢ q.source) ps
not_onward p [] h = tt
not_onward p (q ∷ ps) (h, hs) = (h.onward, not_onward p ps hs)

rename_seq-insert_all :
    (x : String) (ps : List Renaming) (known : Dict String)
    → AllDisjoint ps
    → renamed_by known x ≡ x
    → rename_seq ps x ≡ renamed_by (insert_all ps known) x
unfolding insert_all
rename_seq-insert_all x [] known d h = sym h
rename_seq-insert_all x (p ∷ ps) known (d, ds) h = elim (Bool-cases (x == p.source)) [
  | inl same ↦
      let here = (eq_iff x p.source).0 same in
      ap (λ (b : Bool). rename_seq ps (if b then p.target else x)) same
      ∙ kept_name p.target ps (not_onward p ps d)
      ∙ sym (
          ap (λ (y : String). renamed_by (insert_all ps (insert p.source p.target known)) y) here
          ∙ kept_entry p.source ps (insert p.source p.target known) (sources_differ p ps d)
          ∙ lookup_or-insert p.source p.source p.source p.target known
          ∙ ap (λ (b : Bool). if b then p.target else lookup_or p.source p.source known)
              (eq_refl p.source))
  | inr other ↦
      ap (λ (b : Bool). rename_seq ps (if b then p.target else x)) other
      ∙ rename_seq-insert_all x ps (insert p.source p.target known) ds (
          renamed_by-insert_ne x p.source p.target known
            (λ e. false≢true (sym other ∙ (eq_iff x p.source).1 e))
          ∙ h)
]

pub rename_seq-replacements :
    (items : List Mapping) (x : String)
    → AllDisjoint (active_renamings items)
    → rename_seq (active_renamings items) x ≡ renamed_by (replacements items []) x
unfolding lookup_or lookup
rename_seq-replacements items x d =
    rename_seq-insert_all x (active_renamings items) [] d refl
    ∙ ap (λ known. renamed_by known x) (sym (replacements-insert_all items []))
