-- ===== src/Migrate/Apply.antt =====
-- internal/nsmigrate/migrate.go: the statements of applyPlan, and Run.
pub mod Quiet
pub mod Columns
pub mod Rename
pub mod Whole
pub mod Conversations
pub mod Selected
pub mod Total
pub mod Names
use Prim.Native.String.{◌++◌}
use pinakes.Base.{
  ℕ, String, Bool, true, false, not, List, [], ◌∷◌, map, ◌+◌, ◌&&◌, ◌||◌, ◌==◌, nat_eq, Option,
  none, some, if◌then◌else◌,
}
use mathlib.Core.List
use pinakes.Text.Decimal.{format_int}
use pinakes.Migrate.{Authority, ManifestRow, Refusal, Outcome, accepted, refused}
use pinakes.Migrate.Inspect.{
  Database, Column, agents_column, from_column, to_column, deliveries_column, cursors_column,
  idempotency_from_column, idempotency_to_column, ConversationRow, ConversationPlan, Inspection,
  inspect, occurrences_of,
}
use pinakes.Migrate.Plan.{
  Report, Status, was_refused, no_op, ready, applied, Mapping, Plan, new_report, select_mappings,
  validate_control_plane_agreement, preflight,
}

-- A value, or the text of an error.
pub data Written {ℓ} (A : Type ℓ) : Type ℓ where
  written : A → Written A
  failed : String → Written A

infixl 5 ◌>>=◌
abbrev pub ◌>>=◌ {ℓ κ} : {A : Type ℓ} {B : Type κ} → Written A → (A → Written B) → Written B
written a >>= f = f a
failed e >>= f = failed e

module _ {R : Type 0} (c : Column R) (target source : String) where
  -- A row that is rewritten would have the key of a row with the target in the column.
  abbrev pub is_taken : R → List R → Bool
  is_taken r [] = false
  is_taken r (q ∷ rows) = (c.get q == target && c.clash r q) || is_taken r rows

  abbrev pub violates : List R → List R → Bool
  violates all [] = false
  violates all (r ∷ rows) = (c.get r == source && is_taken r all) || violates all rows

  abbrev pub set_rows : List R → List R
  set_rows [] = []
  set_rows (r ∷ rows) = (if c.get r == source then c.set target r else r) ∷ set_rows rows

  -- RowsAffected
  abbrev pub affected_rows : List R → ℕ
  affected_rows [] = 0
  affected_rows (r ∷ rows) = (if c.get r == source then 1 else 0) + affected_rows rows

  -- UPDATE table SET column = target WHERE column = source, and the test of the rows it changed. The
  -- text of the driver's error is left out.
  unfoldable pub update_column : ℕ → List R → Written (List R)
  update_column expected rows =
      if violates rows rows
      then failed ("rewrite " ++ (c.surface ++ ": UNIQUE constraint failed"))
      else if nat_eq (affected_rows rows) expected
      then written (set_rows rows)
      else failed (
          "rewrite "
          ++ (c.surface
              ++ (" changed "
                  ++ (format_int (affected_rows rows)
                      ++ (" rows; preflight planned " ++ format_int expected)))))

-- The seven statements for one active mapping.
unfoldable pub apply_mapping : Inspection → String → String → Database → Written Database
unfolding update_column
apply_mapping inspected target source db = do
  agents ←
      update_column agents_column target source (occurrences_of inspected "agents.agent_id" source)
        db.agents
  froms ←
      update_column from_column target source
        (occurrences_of inspected "messages.from_agent" source) db.messages
  messages ←
      update_column to_column target source (occurrences_of inspected "messages.to_agent" source)
        froms
  deliveries ←
      update_column deliveries_column target source
        (occurrences_of inspected "deliveries.target_agent_id" source) db.deliveries
  cursors ←
      update_column cursors_column target source
        (occurrences_of inspected "delivery_cursors.target_agent_id" source) db.delivery_cursors
  keys ←
      update_column idempotency_from_column target source
        (occurrences_of inspected "idempotency.from_agent" source) db.idempotency
  idempotency ←
      update_column idempotency_to_column target source
        (occurrences_of inspected "idempotency.to_agent" source) keys
  written (record db {
    agents = agents;
    messages = messages;
    deliveries = deliveries;
    delivery_cursors = cursors;
    idempotency = idempotency;
  })

unfoldable pub apply_mappings : Inspection → List Mapping → Database → Written Database
unfolding apply_mapping
apply_mappings inspected [] db = written db
apply_mappings inspected (item ∷ rest) db =
    let changed = apply_mapping inspected item.row.target_id item.row.source_id db in
    (if item.active then changed else written db) >>= apply_mappings inspected rest

-- UPDATE conversations SET participants = ? WHERE conversation_id = ?
abbrev pub set_participants : String → List String → List ConversationRow → List ConversationRow
set_participants id participants [] = []
set_participants id participants (row ∷ rows) =
    (if row.conversation_id == id then record row { participants = some participants } else row)
    ∷ set_participants id participants rows

abbrev pub conversations_of : String → List ConversationRow → ℕ
conversations_of id [] = 0
conversations_of id (row ∷ rows) =
    (if row.conversation_id == id then 1 else 0) + conversations_of id rows

-- One conversation of the plan: one row is written, and it has to be there once.
abbrev pub apply_conversation :
    ConversationPlan → List ConversationRow → Written (List ConversationRow)
apply_conversation c rows =
    if nat_eq (conversations_of c.id rows) 1
    then written (set_participants c.id c.participants rows)
    else failed (
        "rewrite conversations.participants changed "
        ++ (format_int (conversations_of c.id rows) ++ " rows; preflight planned 1"))

-- The loop over the planned conversations, which the query returned in the order of their ids.
unfoldable pub apply_conversations :
    List ConversationPlan → List ConversationRow → Written (List ConversationRow)
apply_conversations [] rows = written rows
apply_conversations (c ∷ rest) rows =
    (if c.changed then apply_conversation c rows else written rows) >>= apply_conversations rest

unfoldable pub apply_plan : Inspection → Plan → Database → Written Database
unfolding apply_mappings apply_conversations
apply_plan inspected plan db = do
  renamed ← apply_mappings inspected plan.mappings db
  conversations ← apply_conversations plan.conversations renamed.conversations
  written (record renamed { conversations = conversations })

pub record Options : Type 0 where
  pub authority : Authority
  pub apply : Bool
  pub acknowledge_copy : Bool
  pub control_plane_agents : List String

-- What the file system and the driver answer: the texts of the errors of validateDBPath, openExistingDB,
-- BeginTx with whether it is a busy lock, Rollback and Commit.
pub record Disk : Type 0 where
  pub bad_path : Option String
  pub open_error : Option String
  pub begin_error : Option (Bool × String)
  pub rollback_error : Option String
  pub commit_error : Option String

-- The report, the refusals of the error, and the database after it.
pub record Ended : Type 0 where
  pub report : Report
  pub error : List Refusal
  pub database : Database

abbrev pub reject_all : Report → List Refusal → Database → Ended
reject_all report found db = record {
  report = record report { status = was_refused; refusals = List.◌++◌ report.refusals found };
  error = found;
  database = db;
}

abbrev pub reject : Report → String → String → String → Database → Ended
reject report code location detail db =
    reject_all report (record { code = code; location = location; detail = detail } ∷ []) db

abbrev pub finish : Report → Status → Database → Ended
finish report status db = record {
  report = record report { status = status };
  error = [];
  database = db;
}

-- An error of the disk rejects the run.
abbrev unless_error : Option String → (String → Ended) → Ended → Ended
unless_error none bad good = good
unless_error (some detail) bad good = bad detail

abbrev begin_rejected : Options → Report → Bool × String → Database → Ended
begin_rejected options report (busy, detail) db =
    if options.apply && busy
    then reject report "database_busy" "database"
        "another process held a write lock when the apply transaction started" db
    else reject report "database_error" "database" ("begin transaction: " ++ detail) db

-- A transaction that is rolled back leaves the database as it was.
abbrev pub close : Disk → Report → Status → String → Database → Ended
close disk report status what db =
    unless_error disk.rollback_error (λ e. reject report "database_error" "database" (what ++ e) db)
      (finish report status db)

unfoldable pub commit_plan : Disk → Inspection → Plan → Report → Database → Ended
unfolding apply_plan
commit_plan disk inspected plan report db = elim (apply_plan inspected plan db) [
  | failed e ↦ reject report "apply_failed" "database" e db
  | written after ↦
      unless_error disk.commit_error
        (λ e. reject report "apply_failed" "database" ("commit transaction: " ++ e) db)
        (finish report applied after)
]

-- From the transaction on.
unfoldable pub migrate_db : Disk → Options → List Mapping → Report → Database → Ended
unfolding inspect preflight commit_plan
migrate_db disk options selected report db = elim (inspect db) [
  | refused e ↦ reject_all report e db
  | accepted inspected ↦
      let (planned, checked) = preflight selected inspected report in
      elim checked [
        | refused e ↦ reject_all planned e db
        | accepted plan ↦
            if nat_eq planned.total_rewrites 0
            then close disk planned no_op "close read transaction: " db
            else if options.apply
            then commit_plan disk inspected plan planned db
            else close disk planned ready "close dry-run transaction: " db
      ]
]

abbrev pub is_nil {ℓ} : {A : Type ℓ} → List A → Bool
is_nil [] = true
is_nil (x ∷ xs) = false

abbrev open_db : Disk → Options → List Mapping → Report → Database → Ended
open_db disk options selected report db =
    unless_error disk.open_error (λ e. reject report "database_refused" "database" e db)
      (elim disk.begin_error [
        | some e ↦ begin_rejected options report e db
        | none ↦ migrate_db disk options selected report db
      ])

abbrev select_and_open : Disk → Options → List Mapping × Report → Database → Ended
select_and_open disk options (selected, report) db =
    if is_nil selected
    then reject report "manifest_authority" "manifest"
        "manifest has no rows for the declared authority" db
    else elim (validate_control_plane_agreement selected options.control_plane_agents) [
      | refused e ↦ reject_all report e db
      | accepted agreed ↦ open_db disk options selected report db
    ]

-- Run; an authority of the model is jk or ucla, as ParseAuthority checks.
unfoldable pub run : Disk → List ManifestRow → Options → Database → Ended
unfolding new_report select_mappings validate_control_plane_agreement migrate_db
run disk manifest options db =
    let report = new_report options.authority options.apply in
    if not options.acknowledge_copy
    then reject report "copy_acknowledgment_required" "database"
        "refusing to operate without --acknowledge-copy" db
    else unless_error disk.bad_path (λ e. reject report "database_refused" "database" e db)
        (select_and_open disk options (select_mappings manifest options.authority report) db)
