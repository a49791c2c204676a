-- ===== src/Tests/Durability.antt =====
-- Durable tables with a delivery that was received and one that waits, and the transactions on them.
use pinakes.Base.{
  ℕ, ◌+◌, ◌*◌, ◌≡◌, ◌≢◌, ◌↔◌, refl, sym, ◌∙◌, true, false, not, none, some, List, [], ◌∷◌, map,
  select, ltb, ◌&&◌, ◌||◌, ◌==◌, arith, eq_iff,
}
use pinakes.Base.Int.{pos}
use pinakes.Base.Dict.{Dict, lookup, lookup_or}
use pinakes.Types.{Conversation, Agent, push, nil}
use pinakes.Config.{complete}
use pinakes.Store.{add_duration, seconds, new_store}
use pinakes.Store.Register.{new_agent, ttl_or}
use pinakes.Store.Acceptance.{SendAcceptance}
use pinakes.Durable.{Tables, Delivery, Receipt, pending, received, text_le, text_lt}
use pinakes.Durable.Accept.{persist_acceptance}
use pinakes.Durable.Push.{claim_due_pushes, record_push_success, order_by, expire_deliveries}
use pinakes.Durable.Read.{offer_from, message_inbox_event, join_messages, Sequenced}
use pinakes.Durable.Moves.{Moved, Sound, cursor_of}
use pinakes.Durable.Steps.{Run, here, then, claimed, pushed, Step-Moved, Run-Sound}
use pinakes.Durable.Refusals.{persist_acceptance_iff, has_delivery, repeats}
use pinakes.Durable.Rows.{IsKeyed}
use pinakes.Durable.Answers.{offers_of, offer_from-eq_select, offer_from_some}
use pinakes.Tests.Data.{cfg, start_time, sent_message, agent_a}

abbrev later : ℕ
later = start_time + 600 * 1_000_000_000

abbrev received_delivery : Delivery
received_delivery = record {
  target_agent_id = "ucla.b";
  delivery_seq = 0;
  message_id = "m-000000";
  status = received;
  next_attempt_at = 0;
  attempt_count = 1;
  received_at = start_time;
  expires_at = later;
  last_error = "";
}

abbrev waiting_delivery : Delivery
waiting_delivery = record received_delivery {
  delivery_seq = 1;
  message_id = "m-000001";
  status = pending;
  next_attempt_at = start_time;
  received_at = 0;
}

abbrev receipt : Receipt
receipt = record {
  from_agent = "ucla.a";
  to_agent = "ucla.b";
  request_id = "r1";
  message_id = "m-000001";
  accepted_at = start_time;
  expires_at = later;
}

abbrev tables : Tables
tables = record {
  conversations = [];
  messages = ("m-000001", sent_message) ∷ [];
  links = [];
  next_conversation_id = 1;
  next_message_id = 2;
  cursors = ("ucla.b", record { next_seq = 2; acknowledged_cursor = 1 }) ∷ [];
  deliveries = received_delivery ∷ waiting_delivery ∷ [];
  receipts = receipt ∷ [];
}

abbrev conversation : Conversation
conversation = record {
  conversation_id = "c-000002";
  title = "";
  participants = "ucla.a" ∷ [];
  status = "active";
  message_count = 1;
  created_at = start_time;
  last_message_at = start_time;
  meta = nil;
}

-- The same request id again, under another message.
abbrev resend : SendAcceptance
resend = record {
  message = record sent_message { message_id = "m-000002" };
  conversation = conversation;
  conversation_pos = 0;
  next_conversation_id = 2;
  next_message_id = 3;
  idempotency = some ("key", record { message_id = "m-000002"; created_at = later });
  inbox_event = none;
  push_job = none;
}

abbrev agents : Dict Agent
agents = ("ucla.b", record agent_a { mode = push; callback_url = "http://b" }) ∷ []

tables-Sound : Sound tables
unfolding cursor_of lookup_or lookup
tables-Sound = record {
  below = (omega arith, (omega arith, tt));
  ahead = λ a. ground (arith, eq_iff "ucla.b" a);
  keyed = λ a. (λ same. ((λ also. omega arith), tt), ((λ same. tt), tt));
}

tables-IsKeyed : IsKeyed "ucla.b" tables.deliveries
tables-IsKeyed = (λ same. ((λ also. omega arith), tt), ((λ same. tt), tt))

offers_test :
    offers_of start_time "ucla.b" 1 tables ≡ record { seq = 1; message = sent_message } ∷ []
unfolding join_messages order_by lookup text_lt
offers_test = refl

some_not_empty : (x : Sequenced) (xs : List Sequenced) → x ∷ xs ≢ []
some_not_empty x xs = λ e. cc

tables_offered : offers_of start_time "ucla.b" 1 tables ≢ []
tables_offered =
    λ e. some_not_empty (record { seq = 1; message = sent_message }) [] (sym offers_test ∙ e)

claims_test : (claim_due_pushes start_time agents tables).0 ≡ waiting_delivery ∷ []
unfolding claim_due_pushes expire_deliveries order_by lookup text_le text_lt new_agent add_duration
    seconds ttl_or new_store complete
claims_test = refl

Step-Moved_example : Moved tables (claim_due_pushes start_time agents tables).1
Step-Moved_example =
    Step-Moved tables (claim_due_pushes start_time agents tables).1
      (claimed start_time agents tables)

abbrev claimed_tables : Tables
claimed_tables = (claim_due_pushes start_time agents tables).1

abbrev run_pushed : Run tables (record_push_success start_time "m-000001" 1 claimed_tables)
run_pushed =
    then tables claimed_tables (record_push_success start_time "m-000001" 1 claimed_tables)
      (then tables tables claimed_tables (here tables) (claimed start_time agents tables))
      (pushed start_time "m-000001" 1 claimed_tables)

Run-Sound_example : Sound (record_push_success start_time "m-000001" 1 claimed_tables)
Run-Sound_example =
    Run-Sound tables (record_push_success start_time "m-000001" 1 claimed_tables) run_pushed
      tables-Sound

offer_from-eq_select_example :
    (offer_from cfg start_time "ucla.b" 1 (pos 10) tables).events
    ≡ map
        (λ i. message_inbox_event i.message)
        (select
          (λ i. ltb i.seq (offer_from cfg start_time "ucla.b" 1 (pos 10) tables).next)
          (offers_of start_time "ucla.b" 1 tables))
offer_from-eq_select_example =
    offer_from-eq_select cfg start_time "ucla.b" 1 (pos 10) tables tables-IsKeyed

offer_from_some_example : (offer_from cfg start_time "ucla.b" 1 (pos 10) tables).events ≢ []
offer_from_some_example = offer_from_some cfg start_time "ucla.b" 1 (pos 10) tables tables_offered

persist_acceptance_iff_example : (persist_acceptance 1 false resend tables ≡ none) ↔ (
    (false
      || ((not (resend.message.to == "")
            && has_delivery resend.message.message_id tables.deliveries)
          || repeats resend tables.receipts))
    ≡ true)
persist_acceptance_iff_example = persist_acceptance_iff 1 false resend tables tables-Sound
