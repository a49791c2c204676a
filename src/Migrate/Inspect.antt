-- ===== src/Migrate/Inspect.antt =====
-- internal/nsmigrate/migrate.go: the columns of the database that hold an identity, and what inspect
-- counts in them.
pub mod Laws
pub mod Used
use pinakes.Base.{
  ℕ, String, Bool, true, false, not, List, [], ◌∷◌, map, ◌++◌, ◌+◌, ◌&&◌, ◌||◌, ◌==◌, nat_eq,
  Option, none, some, if◌then◌else◌,
}
use pinakes.Base.Dict.{Dict, lookup_or, insert}
use pinakes.Migrate.{Outcome, accepted, refuse, ◌>>=◌}

-- from_agent and to_agent of a row of messages
pub record MessageRow : Type 0 where
  pub from_agent : String
  pub to_agent : String

-- target_agent_id and the rest of the primary key of a row of deliveries
pub record DeliveryRow : Type 0 where
  pub target_agent_id : String
  pub delivery_seq : ℕ

-- The primary key of a row of idempotency.
pub record IdempotencyRow : Type 0 where
  pub from_agent : String
  pub to_agent : String
  pub request_id : String

-- A row of conversations; the participants are what json.Unmarshal reads in the column, `none` where
-- that is no array of texts.
pub record ConversationRow : Type 0 where
  pub conversation_id : String
  pub participants : Option (List String)

-- The identities of a database and the keys beside them. No statement of the migration reads or
-- writes another column.
pub record Database : Type 0 where
  pub agents : List String
  pub messages : List MessageRow
  pub conversations : List ConversationRow
  pub deliveries : List DeliveryRow
  pub delivery_cursors : List String
  pub idempotency : List IdempotencyRow

-- A column that holds an identity: its name in the report, its value in a row, the row with another
-- value, and whether two rows with one value in it would have one key.
pub record Column (R : Type 0) : Type 0 where
  pub surface : String
  pub get : R → String
  pub set : String → R → R
  pub clash : R → R → Bool

abbrev pub agents_column : Column String
agents_column = record {
  surface = "agents.agent_id";
  get = λ a. a;
  set = λ id a. id;
  clash = λ a b. true;
}

abbrev pub from_column : Column MessageRow
from_column = record {
  surface = "messages.from_agent";
  get = λ m. m.from_agent;
  set = λ id m. record m { from_agent = id };
  clash = λ m n. false;
}

abbrev pub to_column : Column MessageRow
to_column = record {
  surface = "messages.to_agent";
  get = λ m. m.to_agent;
  set = λ id m. record m { to_agent = id };
  clash = λ m n. false;
}

abbrev pub deliveries_column : Column DeliveryRow
deliveries_column = record {
  surface = "deliveries.target_agent_id";
  get = λ d. d.target_agent_id;
  set = λ id d. record d { target_agent_id = id };
  clash = λ d e. nat_eq d.delivery_seq e.delivery_seq;
}

abbrev pub cursors_column : Column String
cursors_column = record {
  surface = "delivery_cursors.target_agent_id";
  get = λ a. a;
  set = λ id a. id;
  clash = λ a b. true;
}

abbrev pub idempotency_from_column : Column IdempotencyRow
idempotency_from_column = record {
  surface = "idempotency.from_agent";
  get = λ k. k.from_agent;
  set = λ id k. record k { from_agent = id };
  clash = λ k l. k.to_agent == l.to_agent && k.request_id == l.request_id;
}

abbrev pub idempotency_to_column : Column IdempotencyRow
idempotency_to_column = record {
  surface = "idempotency.to_agent";
  get = λ k. k.to_agent;
  set = λ id k. record k { to_agent = id };
  clash = λ k l. k.from_agent == l.from_agent && k.request_id == l.request_id;
}

abbrev pub participants_surface : String
participants_surface = "conversations.participants"

pub record ConversationPlan : Type 0 where
  pub id : String
  pub participants : List String
  pub changed : Bool

pub record Inspection : Type 0 where
  pub present : Dict Bool
  pub occurrences : Dict (Dict ℕ)
  pub conversations : List ConversationPlan

abbrev pub no_inspection : Inspection
no_inspection = record { present = []; occurrences = []; conversations = [] }

-- inspected.occurrences[surface][identity]
abbrev pub occurrences_of : Inspection → String → String → ℕ
occurrences_of i surface identity = lookup_or 0 identity (lookup_or [] surface i.occurrences)

unfoldable pub add_occurrence : String → String → Inspection → Inspection
add_occurrence surface identity i =
    let counts = lookup_or [] surface i.occurrences in
    let counted = insert identity (lookup_or 0 identity counts + 1) counts in
    let found = record i {
      present = insert identity true i.present;
      occurrences = insert surface counted i.occurrences;
    } in
    if identity == "" then i else found

-- The loop over the values that one query returns.
unfoldable pub add_all : String → List String → Inspection → Inspection
unfolding add_occurrence
add_all surface [] i = i
add_all surface (identity ∷ rest) i = add_all surface rest (add_occurrence surface identity i)

-- SELECT column FROM table; a blank text counts nowhere, whether the query leaves it out or not.
abbrev pub add_column : {R : Type 0} → Column R → List R → Inspection → Inspection
add_column c rows = add_all c.surface (map c.get rows)

abbrev participants_of : Option (List String) → Outcome (List String)
participants_of none =
    refuse "invalid_participants_json" participants_surface
      "conversation participants must be a JSON array of strings"
participants_of (some participants) = accepted participants

unfoldable pub add_conversation : String → List String → Inspection → Inspection
unfolding add_all
add_conversation id participants i =
    let counted = add_all participants_surface participants i in
    record counted {
      conversations =
          counted.conversations
          ++ record { id = id; participants = participants; changed = false } ∷ [];
    }

unfoldable pub inspect_conversations : List ConversationRow → Inspection → Outcome Inspection
unfolding add_conversation
inspect_conversations [] i = accepted i
inspect_conversations (row ∷ rest) i = do
  participants ← participants_of row.participants
  inspect_conversations rest (add_conversation row.conversation_id participants i)

unfoldable pub inspect : Database → Outcome Inspection
unfolding inspect_conversations
inspect db = inspect_conversations db.conversations (
    add_column idempotency_to_column db.idempotency (
      add_column idempotency_from_column db.idempotency (
        add_column cursors_column db.delivery_cursors (
          add_column deliveries_column db.deliveries (
            add_column to_column db.messages (
              add_column from_column db.messages
                (add_column agents_column db.agents no_inspection)))))))
