-- ===== src/Durable/Accept.antt =====
-- pkg/bus/sqlite_delivery.go: persistAcceptance, the durability barrier of a send, and persistAck.
use pinakes.Base.{
  ℕ, ◌+◌, Bool, true, false, not, List, [], ◌∷◌, ◌++◌, ◌&&◌, ◌||◌, ◌==◌, nat_eq, ltb, Option, none,
  some, if◌then◌else◌,
}
use pinakes.Base.Dict.{lookup_or, insert}
use pinakes.Types.{Conversation, Message}
use pinakes.Store.{IdempotencyEntry, is_zero}
use pinakes.Store.Acceptance.{SendAcceptance}
use pinakes.Durable.{
  Tables, Delivery, pending, attempting, no_cursor, Receipt, Link, ensure_cursor, delivery_clash,
  receipt_clash, update_where, is_open, received_row,
}

unfoldable pub delivery_expiry : Message → ℕ
delivery_expiry m =
    if not (is_zero m.grace_until)
      && (is_zero m.ttl_expires_at || ltb m.grace_until m.ttl_expires_at)
    then m.grace_until
    else m.ttl_expires_at

-- INSERT OR REPLACE INTO conversation_messages
unfoldable pub save_link : Link → List Link → List Link
save_link new [] = new ∷ []
save_link new (l ∷ ls) =
    let kept = l ∷ save_link new ls in
    if l.conversation_id == new.conversation_id && nat_eq l.position new.position
    then new ∷ ls
    else kept

abbrev pub is_push : SendAcceptance → Bool
is_push a = elim a.push_job [ none ↦ false | some job ↦ true ]

abbrev pub new_delivery : SendAcceptance → ℕ → Delivery
new_delivery a seq = record {
  target_agent_id = a.message.to;
  delivery_seq = seq;
  message_id = a.message.message_id;
  status = if is_push a then attempting else pending;
  next_attempt_at = a.message.created_at;
  attempt_count = 0;
  received_at = 0;
  expires_at = delivery_expiry a.message;
  last_error = "";
}

-- saveConversationTo, saveMessageTo, saveConversationMessageTo and saveCountersTo
unfoldable pub save_message : SendAcceptance → Tables → Tables
unfolding save_link
save_message a t = record t {
  conversations = insert a.conversation.conversation_id a.conversation t.conversations;
  messages = insert a.message.message_id a.message t.messages;
  links =
      save_link
        (record {
          conversation_id = a.conversation.conversation_id;
          message_id = a.message.message_id;
          position = a.conversation_pos;
        })
        t.links;
  next_conversation_id = a.next_conversation_id;
  next_message_id = a.next_message_id;
}

-- The delivery of a message that has a target. `none` is a violated key.
unfoldable pub add_delivery : SendAcceptance → Tables → Option Tables
unfolding ensure_cursor delivery_expiry
add_delivery a t =
    let cursors = ensure_cursor a.message.to t.cursors in
    let cursor = lookup_or no_cursor a.message.to cursors in
    let new = new_delivery a cursor.next_seq in
    let added = record t {
      cursors = insert a.message.to (record cursor { next_seq = cursor.next_seq + 1 }) cursors;
      deliveries = t.deliveries ++ new ∷ [];
    } in
    if a.message.to == ""
    then some t
    else if delivery_clash new t.deliveries
    then none
    else some added

abbrev pub new_receipt : ℕ → Message → IdempotencyEntry → Receipt
new_receipt window m entry = record {
  from_agent = m.from;
  to_agent = m.to;
  request_id = m.request_id;
  message_id = m.message_id;
  accepted_at = entry.created_at;
  expires_at = entry.created_at + window;
}

-- The receipt of a send with a request id. `none` is a violated key.
unfoldable pub add_receipt : ℕ → SendAcceptance → Tables → Option Tables
add_receipt window a t = elim a.idempotency [
  | none ↦ some t
  | some (key, entry) ↦
      let new = new_receipt window a.message entry in
      if receipt_clash new t.receipts
      then none
      else some (record t { receipts = t.receipts ++ new ∷ [] })
]

infixl 5 ◌>>=◌
abbrev pub ◌>>=◌ : {A B : Type 0} → Option A → (A → Option B) → Option B
none >>= f = none
some a >>= f = f a

-- persistAcceptance: the tables after the commit, or `none` for a transaction that is rolled back, by
-- a key or by a fault of the driver.
unfoldable pub persist_acceptance :
    (window : ℕ) → (fault : Bool) → SendAcceptance → Tables → Option Tables
unfolding save_message add_delivery add_receipt
persist_acceptance window fault a t = do
  delivered ← add_delivery a (save_message a t)
  receipted ← add_receipt window a delivered
  if fault then none else some receipted

-- The transaction of CreateConversation, after the store in memory has made the conversation.
unfoldable pub persist_conversation :
    Conversation → (next_conv next_msg : ℕ) → (fault : Bool) → Tables → Option Tables
persist_conversation c next_conv next_msg fault t =
    let saved = record t {
      conversations = insert c.conversation_id c t.conversations;
      next_conversation_id = next_conv;
      next_message_id = next_msg;
    } in
    if fault then none else some saved

-- persistAck: the message and the receipt of its delivery
unfoldable pub persist_ack : ℕ → (fault : Bool) → Message → Tables → Option Tables
persist_ack now fault m t =
    let acked = record t {
      messages = insert m.message_id m t.messages;
      deliveries =
          update_where (λ d. d.message_id == m.message_id && is_open d.status) (received_row now)
            t.deliveries;
    } in
    if fault then none else some acked
