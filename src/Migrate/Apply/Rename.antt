-- ===== src/Migrate/Apply/Rename.antt =====
-- The statements for all active mappings together rename every identity once.
use pinakes.Base.{
  String, Bool, true, false, List, [], ◌∷◌, map, ◌==◌, ◌≡◌, ◌≢◌, refl, ap, ◌∙◌, arith, All,
  if◌then◌else◌,
}
use pinakes.Migrate.Inspect.{
  Database, agents_column, from_column, to_column, deliveries_column, cursors_column,
  idempotency_from_column, idempotency_to_column, MessageRow, DeliveryRow, IdempotencyRow,
  Inspection, occurrences_of,
}
use pinakes.Migrate.Plan.{Mapping}
use pinakes.Migrate.Apply.{written, ◌>>=◌, set_rows, apply_mapping, apply_mappings}
use pinakes.Migrate.Apply.Columns.{Ready, rename, update_column-Ready, Ready-set_rows, Ready-other}

-- Every column of the database is ready for the mapping.
pub record Clear (i : Inspection) (target source : String) (db : Database) : Type 0 where
  pub agents :
      Ready agents_column target source (occurrences_of i "agents.agent_id" source) db.agents
  pub froms :
      Ready from_column target source (occurrences_of i "messages.from_agent" source) db.messages
  pub tos : Ready to_column target source (occurrences_of i "messages.to_agent" source) db.messages
  pub deliveries :
      Ready deliveries_column target source
        (occurrences_of i "deliveries.target_agent_id" source)
        db.deliveries
  pub cursors :
      Ready cursors_column target source
        (occurrences_of i "delivery_cursors.target_agent_id" source)
        db.delivery_cursors
  pub key_froms :
      Ready idempotency_from_column target source
        (occurrences_of i "idempotency.from_agent" source)
        db.idempotency
  pub key_tos :
      Ready idempotency_to_column target source
        (occurrences_of i "idempotency.to_agent" source)
        db.idempotency

abbrev pub after_one : String → String → Database → Database
after_one target source db = record db {
  agents = set_rows agents_column target source db.agents;
  messages = set_rows to_column target source (set_rows from_column target source db.messages);
  deliveries = set_rows deliveries_column target source db.deliveries;
  delivery_cursors = set_rows cursors_column target source db.delivery_cursors;
  idempotency =
      set_rows idempotency_to_column target source
        (set_rows idempotency_from_column target source db.idempotency);
}

apply_mapping-Clear :
    (i : Inspection) (target source : String) (db : Database)
    → Clear i target source db
    → apply_mapping i target source db ≡ written (after_one target source db)
unfolding apply_mapping
apply_mapping-Clear i target source db c = rw (
  update_column-Ready agents_column target source _ db.agents c.agents,
  update_column-Ready from_column target source _ db.messages c.froms,
  update_column-Ready to_column target source _ _ (
      Ready-other from_column to_column (λ id r. refl) target source target source _ db.messages
        c.tos),
  update_column-Ready deliveries_column target source _ db.deliveries c.deliveries,
  update_column-Ready cursors_column target source _ db.delivery_cursors c.cursors,
  update_column-Ready idempotency_from_column target source _ db.idempotency c.key_froms,
  update_column-Ready idempotency_to_column target source _ _ (
      Ready-other idempotency_from_column idempotency_to_column (λ id r. refl) target source target
        source _ db.idempotency c.key_tos),
)

Clear-after_one :
    (i : Inspection) (target source target' source' : String) (db : Database)
    → target ≢ target'
    → source ≢ source'
    → target ≢ source'
    → Clear i target' source' db
    → Clear i target' source' (after_one target source db)
Clear-after_one i target source target' source' db tt' ss' ts' c = record {
  agents =
      Ready-set_rows agents_column (λ id r. refl) target source target' source' _ db.agents tt' ss'
        ts' c.agents;
  froms =
      Ready-other to_column from_column (λ id r. refl) target source target' source' _ _
        (Ready-set_rows from_column (λ id r. refl) target source target' source' _ db.messages tt'
          ss' ts' c.froms);
  tos =
      Ready-set_rows to_column (λ id r. refl) target source target' source' _ _ tt' ss' ts'
        (Ready-other from_column to_column (λ id r. refl) target source target' source' _
          db.messages c.tos);
  deliveries =
      Ready-set_rows deliveries_column (λ id r. refl) target source target' source' _ db.deliveries
        tt' ss' ts' c.deliveries;
  cursors =
      Ready-set_rows cursors_column (λ id r. refl) target source target' source' _
        db.delivery_cursors tt' ss' ts' c.cursors;
  key_froms =
      Ready-other idempotency_to_column idempotency_from_column (λ id r. refl) target source target'
        source' _ _
        (Ready-set_rows idempotency_from_column (λ id r. refl) target source target' source' _
          db.idempotency tt' ss' ts' c.key_froms);
  key_tos =
      Ready-set_rows idempotency_to_column (λ id r. refl) target source target' source' _ _ tt' ss'
        ts'
        (Ready-other idempotency_from_column idempotency_to_column (λ id r. refl) target source
          target' source' _ db.idempotency c.key_tos);
}

-- The sources and targets of the active mappings.
pub record Renaming : Type 0 where
  pub target : String
  pub source : String

abbrev pub renaming : Mapping → Renaming
renaming item = record { target = item.row.target_id; source = item.row.source_id }

abbrev pub active_renamings : List Mapping → List Renaming
active_renamings [] = []
active_renamings (item ∷ rest) =
    if item.active then renaming item ∷ active_renamings rest else active_renamings rest

-- Two renamings that do not touch one another.
pub record Disjoint (p q : Renaming) : Type 0 where
  pub targets : p.target ≢ q.target
  pub sources : p.source ≢ q.source
  pub onward : p.target ≢ q.source
  pub back : p.source ≢ q.target

abbrev pub AllDisjoint : List Renaming → Type 0
AllDisjoint [] = Unit
AllDisjoint (p ∷ ps) = All (Disjoint p) ps × AllDisjoint ps

abbrev pub AllClear : Inspection → List Renaming → Database → Type 0
AllClear i ps db = All (λ p. Clear i p.target p.source db) ps

abbrev pub after_all : List Renaming → Database → Database
after_all [] db = db
after_all (p ∷ ps) db = after_all ps (after_one p.target p.source db)

AllClear-after_one :
    (i : Inspection) (p : Renaming) (ps : List Renaming) (db : Database)
    → All (Disjoint p) ps
    → AllClear i ps db
    → AllClear i ps (after_one p.target p.source db)
AllClear-after_one i p [] db d c = tt
AllClear-after_one i p (q ∷ ps) db (d, ds) (c, cs) = (
  Clear-after_one i p.target p.source q.target q.source db d.targets d.sources d.onward c,
  AllClear-after_one i p ps db ds cs,
)

pub apply_mappings-after_all :
    (i : Inspection) (items : List Mapping) (db : Database)
    → AllDisjoint (active_renamings items)
    → AllClear i (active_renamings items) db
    → apply_mappings i items db ≡ written (after_all (active_renamings items) db)
unfolding apply_mappings
apply_mappings-after_all i [] db d c = refl
apply_mappings-after_all i (item ∷ rest) db d c =
    go item.active (renaming item) (active_renamings rest) (apply_mappings-after_all i rest) d c
  where
    go :
        (on : Bool) (p : Renaming) (ps : List Renaming)
        → ((now : Database)
            → AllDisjoint ps
            → AllClear i ps now
            → apply_mappings i rest now ≡ written (after_all ps now))
        → AllDisjoint (if on then p ∷ ps else ps)
        → AllClear i (if on then p ∷ ps else ps) db
        → ((if on then apply_mapping i p.target p.source db else written db)
            >>= apply_mappings i rest)
          ≡ written (after_all (if on then p ∷ ps else ps) db)
    go false p ps ih e f = ih db e f
    go true p ps ih (e, es) (f, fs) =
        ap (λ w. w >>= apply_mappings i rest) (apply_mapping-Clear i p.target p.source db f)
        ∙ ih (after_one p.target p.source db) es (AllClear-after_one i p ps db e fs)

abbrev pub rename_message : (String → String) → MessageRow → MessageRow
rename_message f m = record { from_agent = f m.from_agent; to_agent = f m.to_agent }

abbrev pub rename_delivery : (String → String) → DeliveryRow → DeliveryRow
rename_delivery f d = record {
  target_agent_id = f d.target_agent_id;
  delivery_seq = d.delivery_seq;
}

abbrev pub rename_key : (String → String) → IdempotencyRow → IdempotencyRow
rename_key f k = record {
  from_agent = f k.from_agent;
  to_agent = f k.to_agent;
  request_id = k.request_id;
}

-- Every identity outside the conversations, renamed.
abbrev pub rename_columns : (String → String) → Database → Database
rename_columns f db = record db {
  agents = map f db.agents;
  messages = map (rename_message f) db.messages;
  deliveries = map (rename_delivery f) db.deliveries;
  delivery_cursors = map f db.delivery_cursors;
  idempotency = map (rename_key f) db.idempotency;
}

abbrev pub rename_seq : List Renaming → String → String
rename_seq [] x = x
rename_seq (p ∷ ps) x = rename_seq ps (rename p.target p.source x)

pub map-agents :
    (target source : String) (rows : List String)
    → set_rows agents_column target source rows ≡ map (rename target source) rows
map-agents target source [] = refl
map-agents target source (a ∷ rows) = λ i. rename target source a ∷ map-agents target source rows i

if_deliveries :
    (b : Bool) (target : String) (d : DeliveryRow)
    → (if b then record d { target_agent_id = target } else d) ≡ record {
      target_agent_id = if b then target else d.target_agent_id;
      delivery_seq = d.delivery_seq;
    }
if_deliveries true target d = refl
if_deliveries false target d = refl

pub map-deliveries :
    (target source : String) (rows : List DeliveryRow)
    → set_rows deliveries_column target source rows
      ≡ map (rename_delivery (rename target source)) rows
map-deliveries target source [] = refl
map-deliveries target source (d ∷ rows) = λ i.
    if_deliveries (d.target_agent_id == source) target d i ∷ map-deliveries target source rows i

pub map-messages :
    (target source : String) (rows : List MessageRow)
    → set_rows to_column target source (set_rows from_column target source rows)
      ≡ map (rename_message (rename target source)) rows
map-messages target source [] = refl
map-messages target source (m ∷ rows) = ground (arith, map-messages target source rows)

pub map-idempotency :
    (target source : String) (rows : List IdempotencyRow)
    → set_rows idempotency_to_column target source
        (set_rows idempotency_from_column target source rows)
      ≡ map (rename_key (rename target source)) rows
map-idempotency target source [] = refl
map-idempotency target source (k ∷ rows) = ground (arith, map-idempotency target source rows)
