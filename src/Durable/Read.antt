-- ===== src/Durable/Read.antt =====
-- pkg/bus/sqlite_delivery.go: readDurableInbox, one look of a poll at the durable inbox.
use pinakes.Base.{
  ℕ, ◌+◌, String, Bool, true, false, List, [], ◌∷◌, ◌&&◌, ◌||◌, ◌==◌, ltb, leb, Option, none, some,
  map, take, select, if◌then◌else◌,
}
use pinakes.Base.Int.{ℤ, pos, negsuc}
use pinakes.Base.Dict.{Dict, lookup, lookup_or, insert}
use pinakes.Types.{Message, InboxEvent}
use pinakes.Config.{Config}
use pinakes.Store.{is_zero}
use pinakes.Store.Inbox.{inbox_event_size}
use pinakes.Durable.{
  Tables, Delivery, Cursor, no_cursor, ensure_cursor, update_where, is_open, received_row, text_lt,
}
use pinakes.Durable.Push.{order_by, offer_message}

unfoldable pub durable_inbox_batch_limits : Config → ℕ × ℕ
durable_inbox_batch_limits cfg = (
  if is_zero cfg.max_inbox_events_per_agent then 10_000 else cfg.max_inbox_events_per_agent,
  if is_zero cfg.max_inbox_bytes_per_agent || ltb 33_554_432 cfg.max_inbox_bytes_per_agent
      then 33_554_432
      else cfg.max_inbox_bytes_per_agent,
)

unfoldable pub message_inbox_event : Message → InboxEvent
message_inbox_event m = record {
  message_id = m.message_id;
  type = m.type;
  from = m.from;
  conversation_id = m.conversation_id;
  body = m.body;
  meta = m.meta;
  attachments = m.attachments;
  created_at = m.created_at;
}

-- The requested cursor, brought between the acknowledged one and the next number.
unfoldable pub bounded_cursor : ℤ → Cursor → ℕ
bounded_cursor (pos n) c =
    let low = if ltb n c.acknowledged_cursor then c.acknowledged_cursor else n in
    if ltb c.next_seq low then c.next_seq else low
bounded_cursor (negsuc n) c =
    if ltb c.next_seq c.acknowledged_cursor then c.next_seq else c.acknowledged_cursor

-- A delivery before the cursor, which the poll receipts.
abbrev pub receipted_by : String → ℕ → Delivery → Bool
receipted_by agent_id cursor d =
    d.target_agent_id == agent_id && (ltb d.delivery_seq cursor && is_open d.status)

-- The receipt of everything before a cursor that has moved.
unfoldable pub acknowledge : ℕ → String → ℕ → Cursor → Tables → Tables
acknowledge now agent_id cursor c t =
    let moved = record t {
      cursors = insert agent_id (record c { acknowledged_cursor = cursor }) t.cursors;
      deliveries = update_where (receipted_by agent_id cursor) (received_row now) t.deliveries;
    } in
    if ltb c.acknowledged_cursor cursor then moved else t

-- The rows of the query: open, not past their deadline, from the cursor on.
abbrev pub is_offered : ℕ → String → ℕ → Delivery → Bool
is_offered now agent_id cursor d =
    d.target_agent_id == agent_id
    && (leb cursor d.delivery_seq && (is_open d.status && text_lt now d.expires_at))

abbrev pub by_seq : Delivery → Delivery → Bool
by_seq d e = leb d.delivery_seq e.delivery_seq

pub record Sequenced : Type 0 where
  pub seq : ℕ
  pub message : Message

-- The JOIN with messages.
unfoldable pub join_messages : Dict Message → List Delivery → List Sequenced
join_messages messages [] = []
join_messages messages (d ∷ ds) =
    let rest = join_messages messages ds in
    elim (lookup d.message_id messages) [
      | none ↦ rest
      | some m ↦ record { seq = d.delivery_seq; message = m } ∷ rest
    ]

-- The loop over the rows, up to the byte ceiling; the first row is always taken.
unfoldable pub take_batch :
    (max_bytes used : ℕ) → (started : Bool) → List Sequenced → List Sequenced
unfolding message_inbox_event
take_batch max_bytes used started [] = []
take_batch max_bytes used started (item ∷ rest) =
    let size = inbox_event_size (message_inbox_event item.message) in
    let more = take_batch max_bytes (used + size) true rest in
    if started && ltb max_bytes (used + size) then [] else item ∷ more

unfoldable pub offer_all : ℕ → List Sequenced → Dict Message → Dict Message
offer_all now [] messages = messages
offer_all now (item ∷ rest) messages =
    offer_all now rest (offer_message now item.message.message_id messages)

unfoldable pub next_cursor : ℕ → List Sequenced → ℕ
next_cursor cursor [] = cursor
next_cursor cursor (item ∷ rest) = next_cursor (item.seq + 1) rest

-- if requestedLimit > 0 && requestedLimit < maxEvents
unfoldable pub limit_rows : ℤ → ℕ → ℕ
limit_rows (pos n) max_events = if ltb 0 n && ltb n max_events then n else max_events
limit_rows (negsuc n) max_events = max_events

-- What a look answers, with the tables after its commit.
pub record Look : Type 0 where
  pub events : List InboxEvent
  pub next : ℕ
  pub tables : Tables

-- The offer from a cursor.
unfoldable pub offer_from : Config → ℕ → String → ℕ → ℤ → Tables → Look
unfolding durable_inbox_batch_limits order_by join_messages take_batch offer_all next_cursor
    limit_rows message_inbox_event
offer_from cfg now agent_id cursor limit t =
    let (max_events, max_bytes) = durable_inbox_batch_limits cfg in
    let rows = take (limit_rows limit max_events) (
      join_messages t.messages
        (order_by by_seq (select (is_offered now agent_id cursor) t.deliveries))) in
    let batch = take_batch max_bytes 0 false rows in
    record {
      events = map (λ item. message_inbox_event item.message) batch;
      next = next_cursor cursor batch;
      tables = record t { messages = offer_all now batch t.messages };
    }

-- readDurableInbox, whose clock readings are one; `none` is a fault of the driver.
unfoldable pub read_durable_inbox :
    Config → ℕ → (fault : Bool) → String → (cursor limit : ℤ) → Tables → Option Look
unfolding ensure_cursor bounded_cursor acknowledge offer_from
read_durable_inbox cfg now fault agent_id requested limit t =
    let cursors = ensure_cursor agent_id t.cursors in
    let c = lookup_or no_cursor agent_id cursors in
    let cursor = bounded_cursor requested c in
    let ready = acknowledge now agent_id cursor c (record t { cursors = cursors }) in
    if fault then none else some (offer_from cfg now agent_id cursor limit ready)
