-- ===== src/Durable/Answers.antt =====
-- pkg/bus/sqlite_delivery.go: what a look of readDurableInbox answers.
use pinakes.Base.{
  ℕ, zero, suc, ◌+◌, ◌≤◌, String, ◌≡◌, ◌≢◌, refl, sym, ap, ◌∙◌, Bool, true, false, ◌&&◌, ltb,
  lt→ltb, List, [], ◌∷◌, map, take, select, if◌then◌else◌, arith,
}
use pinakes.Base.Int.{ℤ, pos, negsuc}
use pinakes.Types.{InboxEvent}
use pinakes.Config.{Config}
use pinakes.Durable.{Tables}
use pinakes.Durable.Push.{order_by}
use pinakes.Durable.Read.{
  durable_inbox_batch_limits, message_inbox_event, is_offered, by_seq, Sequenced, join_messages,
  take_batch, next_cursor, limit_rows, offer_from,
}
use pinakes.Store.Inbox.{inbox_event_size}
use pinakes.Durable.Rows.{IsKeyed}
use pinakes.Durable.Rising.{RisingItems, RisingItems-join_messages, Rising-offered}

select-RisingItems :
    (low high : ℕ) (items : List Sequenced)
    → low ≤ high
    → RisingItems high items
    → select (λ i. ltb i.seq low) items ≡ []
select-RisingItems low high [] h rising = refl
select-RisingItems low high (i ∷ items) h rising = ground (
  arith,
  select-RisingItems low (i.seq + 1) items (omega (arith, h, rising.0)) rising.1,
  rising.0,
  h,
)

next_cursor_le :
    (max_bytes used : ℕ) (started_yet : Bool) (n low : ℕ) (items : List Sequenced)
    → RisingItems low items
    → low ≤ next_cursor low (take_batch max_bytes used started_yet (take n items))
unfolding next_cursor take_batch
next_cursor_le max_bytes used started_yet zero low items rising = omega arith
next_cursor_le max_bytes used started_yet (suc n) low [] rising = omega arith
next_cursor_le max_bytes used started_yet (suc n) low (i ∷ items) rising = ground (
  arith,
  rising.0,
  next_cursor_le max_bytes (used + inbox_event_size (message_inbox_event i.message)) true n
      (i.seq + 1) items rising.1,
)

select_hit :
    (p : Sequenced → Bool) (i : Sequenced) (items : List Sequenced)
    → p i ≡ true
    → select p (i ∷ items) ≡ i ∷ select p items
select_hit p i items hit = rw hit refl

-- The batch ends before an item, or takes it.
cut_here :
    (ends : Bool) (low : ℕ) (i : Sequenced) (more items : List Sequenced)
    → RisingItems low (i ∷ items)
    → i.seq + 1 ≤ next_cursor (i.seq + 1) more
    → more ≡ select (λ x. ltb x.seq (next_cursor (i.seq + 1) more)) items
    → (if ends then [] else i ∷ more)
      ≡ select (λ x. ltb x.seq (next_cursor low (if ends then [] else i ∷ more))) (i ∷ items)
unfolding next_cursor
cut_here true low i more items rising above rest =
    sym (select-RisingItems low low (i ∷ items) (omega arith) rising)
cut_here false low i more items rising above rest =
    ap (λ xs. i ∷ xs) rest
    ∙ sym (
        select_hit (λ x. ltb x.seq (next_cursor (i.seq + 1) more)) i items
          (lt→ltb i.seq (next_cursor (i.seq + 1) more) (omega (arith, above))))

take_batch-eq_select :
    (max_bytes used : ℕ) (started_yet : Bool) (n low : ℕ) (items : List Sequenced)
    → RisingItems low items
    → take_batch max_bytes used started_yet (take n items)
      ≡ select
          (λ i. ltb i.seq (next_cursor low (take_batch max_bytes used started_yet (take n items))))
          items
unfolding next_cursor take_batch
take_batch-eq_select max_bytes used started_yet zero low items rising =
    sym (select-RisingItems low low items (omega arith) rising)
take_batch-eq_select max_bytes used started_yet (suc n) low [] rising = refl
take_batch-eq_select max_bytes used started_yet (suc n) low (i ∷ items) rising =
    cut_here
      (started_yet && ltb max_bytes (used + inbox_event_size (message_inbox_event i.message))) low i
      (take_batch max_bytes (used + inbox_event_size (message_inbox_event i.message)) true
        (take n items))
      items rising
      (next_cursor_le max_bytes (used + inbox_event_size (message_inbox_event i.message)) true n
        (i.seq + 1) items rising.1)
      (take_batch-eq_select max_bytes (used + inbox_event_size (message_inbox_event i.message)) true
        n (i.seq + 1) items rising.1)

-- The rows of a query with their messages, in the order of the numbers.
abbrev pub offers_of : ℕ → String → ℕ → Tables → List Sequenced
offers_of now agent_id cursor t =
    join_messages t.messages
      (order_by by_seq (select (is_offered now agent_id cursor) t.deliveries))

-- If the numbers of the deliveries of an agent stand once, a look from a cursor answers exactly
-- those of its open deliveries from the cursor on, with a deadline that has not passed and a
-- message that is stored, whose number is below the next cursor that it returns, in the order of
-- the numbers.
pub offer_from-eq_select :
    (cfg : Config) (now : ℕ) (agent_id : String) (cursor : ℕ) (limit : ℤ) (t : Tables)
    → IsKeyed agent_id t.deliveries
    → (offer_from cfg now agent_id cursor limit t).events
      ≡ map
          (λ i. message_inbox_event i.message)
          (select
            (λ i. ltb i.seq (offer_from cfg now agent_id cursor limit t).next)
            (offers_of now agent_id cursor t))
unfolding offer_from
offer_from-eq_select cfg now agent_id cursor limit t keyed =
    ap (map (λ i. message_inbox_event i.message)) (
      take_batch-eq_select (durable_inbox_batch_limits cfg).1 0 false
        (limit_rows limit (durable_inbox_batch_limits cfg).0) cursor
        (offers_of now agent_id cursor t)
        (RisingItems-join_messages t.messages cursor
          (order_by by_seq (select (is_offered now agent_id cursor) t.deliveries))
          (Rising-offered now agent_id cursor t.deliveries keyed)))

limit_rows_pos : (limit : ℤ) (most : ℕ) → 1 ≤ most → 1 ≤ limit_rows limit most
unfolding limit_rows
limit_rows_pos (pos n) most h = ground arith
limit_rows_pos (negsuc n) most h = ground arith

most_pos : (cfg : Config) → 1 ≤ (durable_inbox_batch_limits cfg).0
unfolding durable_inbox_batch_limits
most_pos cfg = ground arith

take_batch_some :
    (max_bytes n : ℕ) (items : List Sequenced)
    → 1 ≤ n
    → items ≢ []
    → take_batch max_bytes 0 false (take n items) ≢ []
unfolding take_batch
take_batch_some max_bytes n [] h ne = absurd (ne refl)
take_batch_some max_bytes zero (i ∷ items) h ne = absurd (omega arith)
take_batch_some max_bytes (suc n) (i ∷ items) h ne = λ e. cc

map_some : (f : Sequenced → InboxEvent) (items : List Sequenced) → items ≢ [] → map f items ≢ []
map_some f [] ne = absurd (ne refl)
map_some f (i ∷ items) ne = λ e. cc

-- A look answers at least one event if there is an open delivery from the cursor on, with a
-- deadline that has not passed and a message that is stored, whatever the limits of the look and
-- of the configuration are.
pub offer_from_some :
    (cfg : Config) (now : ℕ) (agent_id : String) (cursor : ℕ) (limit : ℤ) (t : Tables)
    → offers_of now agent_id cursor t ≢ []
    → (offer_from cfg now agent_id cursor limit t).events ≢ []
unfolding offer_from
offer_from_some cfg now agent_id cursor limit t ne =
    map_some (λ i. message_inbox_event i.message)
      (take_batch (durable_inbox_batch_limits cfg).1 0 false (
        take (limit_rows limit (durable_inbox_batch_limits cfg).0)
          (offers_of now agent_id cursor t)))
      (take_batch_some (durable_inbox_batch_limits cfg).1
        (limit_rows limit (durable_inbox_batch_limits cfg).0) (offers_of now agent_id cursor t)
        (limit_rows_pos limit (durable_inbox_batch_limits cfg).0 (most_pos cfg)) ne)
