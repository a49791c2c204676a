-- ===== src/Migrate/Inspect/Used.antt =====
-- What inspect says of a whole database.
use pinakes.Base.{
  ℕ, String, Bool, false, List, [], map, ◌++◌, ◌+◌, ◌||◌, ◌==◌, ◌≡◌, ◌≢◌, refl, ap, ◌∙◌, arith,
  contains, if◌then◌else◌,
}
use pinakes.Base.Dict.{lookup, lookup_or}
use pinakes.Migrate.{accepted}
use pinakes.Migrate.Inspect.{
  Database, Column, agents_column, from_column, to_column, deliveries_column, cursors_column,
  idempotency_from_column, idempotency_to_column, Inspection, inspect, occurrences_of,
  no_inspection, add_column, participants_surface,
}
use pinakes.Migrate.Inspect.Laws.{
  count, add_all-conversations, unchanged_plans, add_all-present, add_all-occurrences,
  all_participants, Gathered, inspect_conversations-Gathered,
}

-- An identity stands in some column.
abbrev pub is_used : Database → String → Bool
is_used db x =
    contains (all_participants db.conversations) x
    || (contains (map idempotency_to_column.get db.idempotency) x
        || (contains (map idempotency_from_column.get db.idempotency) x
            || (contains (map cursors_column.get db.delivery_cursors) x
                || (contains (map deliveries_column.get db.deliveries) x
                    || (contains (map to_column.get db.messages) x
                        || (contains (map from_column.get db.messages) x
                            || (contains (map agents_column.get db.agents) x || false)))))))

abbrev columns_read : Database → Inspection
columns_read db = add_column idempotency_to_column db.idempotency (
    add_column idempotency_from_column db.idempotency (
      add_column cursors_column db.delivery_cursors (
        add_column deliveries_column db.deliveries (
          add_column to_column db.messages (
            add_column from_column db.messages
              (add_column agents_column db.agents no_inspection))))))

pub inspect-Gathered :
    (db : Database) (i : Inspection)
    → inspect db ≡ accepted i
    → Gathered db.conversations (columns_read db) i
unfolding inspect
inspect-Gathered db i h = inspect_conversations-Gathered db.conversations (columns_read db) i h

column-conversations :
    {R : Type 0} (c : Column R) (rows : List R) (i : Inspection)
    → i.conversations ≡ []
    → (add_column c rows i).conversations ≡ []
column-conversations c rows i h = add_all-conversations c.surface (map c.get rows) i ∙ h

-- The plan lists the conversations as they are stored.
pub inspect-listed :
    (db : Database) (i : Inspection)
    → inspect db ≡ accepted i
    → i.conversations ≡ unchanged_plans db.conversations
inspect-listed db i h =
    (inspect-Gathered db i h).listed
    ∙ ap (λ cs. cs ++ unchanged_plans db.conversations)
        (column-conversations idempotency_to_column db.idempotency _ (
          column-conversations idempotency_from_column db.idempotency _ (
            column-conversations cursors_column db.delivery_cursors _ (
              column-conversations deliveries_column db.deliveries _ (
                column-conversations to_column db.messages _ (
                  column-conversations from_column db.messages _
                    (column-conversations agents_column db.agents no_inspection refl)))))))

module _ (x : String) (nonblank : x ≢ "") where
  column_present :
      {R : Type 0} (c : Column R) (rows : List R) (i : Inspection) {b : Bool}
      → lookup_or false x i.present ≡ b
      → lookup_or false x (add_column c rows i).present ≡ (contains (map c.get rows) x || b)
  column_present c rows i h =
      add_all-present x nonblank c.surface (map c.get rows) i
      ∙ ap (λ b. contains (map c.get rows) x || b) h

  pub inspect-present :
      (db : Database) (i : Inspection)
      → inspect db ≡ accepted i
      → lookup_or false x i.present ≡ is_used db x
  unfolding lookup_or lookup
  inspect-present db i h =
      (inspect-Gathered db i h).found x nonblank
      ∙ ap (λ b. contains (all_participants db.conversations) x || b)
          (column_present idempotency_to_column db.idempotency _ (
            column_present idempotency_from_column db.idempotency _ (
              column_present cursors_column db.delivery_cursors _ (
                column_present deliveries_column db.deliveries _ (
                  column_present to_column db.messages _ (
                    column_present from_column db.messages _
                      (column_present agents_column db.agents no_inspection refl)))))))

  column_count :
      {R : Type 0} (c : Column R) (rows : List R) (s : String) (i : Inspection) {n : ℕ}
      → occurrences_of i s x ≡ n
      → occurrences_of (add_column c rows i) s x
        ≡ (if c.surface == s then count x (map c.get rows) else 0) + n
  column_count c rows s i h =
      add_all-occurrences x nonblank c.surface s (map c.get rows) i
      ∙ ap (λ (n : ℕ). (if c.surface == s then count x (map c.get rows) else 0) + n) h

  inspect-counts :
      (db : Database) (i : Inspection) (s : String)
      → inspect db ≡ accepted i
      → occurrences_of i s x
        ≡ (if participants_surface == s then count x (all_participants db.conversations) else 0)
          + ((if "idempotency.to_agent" == s
                then count x (map idempotency_to_column.get db.idempotency)
                else 0)
              + ((if "idempotency.from_agent" == s
                    then count x (map idempotency_from_column.get db.idempotency)
                    else 0)
                  + ((if "delivery_cursors.target_agent_id" == s
                        then count x (map cursors_column.get db.delivery_cursors)
                        else 0)
                      + ((if "deliveries.target_agent_id" == s
                            then count x (map deliveries_column.get db.deliveries)
                            else 0)
                          + ((if "messages.to_agent" == s
                                then count x (map to_column.get db.messages)
                                else 0)
                              + ((if "messages.from_agent" == s
                                    then count x (map from_column.get db.messages)
                                    else 0)
                                  + ((if "agents.agent_id" == s
                                        then count x (map agents_column.get db.agents)
                                        else 0)
                                      + 0)))))))
  unfolding lookup_or lookup
  inspect-counts db i s h =
      (inspect-Gathered db i h).counts x s nonblank
      ∙ ap
          (λ (n : ℕ).
            (if participants_surface == s then count x (all_participants db.conversations) else 0)
            + n)
          (column_count idempotency_to_column db.idempotency s _ (
            column_count idempotency_from_column db.idempotency s _ (
              column_count cursors_column db.delivery_cursors s _ (
                column_count deliveries_column db.deliveries s _ (
                  column_count to_column db.messages s _ (
                    column_count from_column db.messages s _
                      (column_count agents_column db.agents s no_inspection refl)))))))

  -- Each count is that of its own column.
  pub record Counted (db : Database) (i : Inspection) : Type 0 where
    pub agents : occurrences_of i "agents.agent_id" x ≡ count x (map agents_column.get db.agents)
    pub froms : occurrences_of i "messages.from_agent" x ≡ count x (map from_column.get db.messages)
    pub tos : occurrences_of i "messages.to_agent" x ≡ count x (map to_column.get db.messages)
    pub deliveries :
        occurrences_of i "deliveries.target_agent_id" x
        ≡ count x (map deliveries_column.get db.deliveries)
    pub cursors :
        occurrences_of i "delivery_cursors.target_agent_id" x
        ≡ count x (map cursors_column.get db.delivery_cursors)
    pub key_froms :
        occurrences_of i "idempotency.from_agent" x
        ≡ count x (map idempotency_from_column.get db.idempotency)
    pub key_tos :
        occurrences_of i "idempotency.to_agent" x
        ≡ count x (map idempotency_to_column.get db.idempotency)

  pub inspect-Counted : (db : Database) (i : Inspection) → inspect db ≡ accepted i → Counted db i
  inspect-Counted db i h = record {
    agents = omega (arith, inspect-counts db i "agents.agent_id" h);
    froms = omega (arith, inspect-counts db i "messages.from_agent" h);
    tos = omega (arith, inspect-counts db i "messages.to_agent" h);
    deliveries = omega (arith, inspect-counts db i "deliveries.target_agent_id" h);
    cursors = omega (arith, inspect-counts db i "delivery_cursors.target_agent_id" h);
    key_froms = omega (arith, inspect-counts db i "idempotency.from_agent" h);
    key_tos = omega (arith, inspect-counts db i "idempotency.to_agent" h);
  }
