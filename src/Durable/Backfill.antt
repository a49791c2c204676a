-- ===== src/Durable/Backfill.antt =====
-- pkg/bus/sqlite_delivery.go: backfillLegacyDeliveryState, which gives the messages of an old database
-- their deliveries and receipts, once. The times of the rows are times that parse.
pub mod Laws
use pinakes.Base.{
  ℕ, ◌+◌, ◌-◌, ◌≡◌, String, Bool, true, false, not, List, [], ◌∷◌, ◌++◌, ◌&&◌, ◌||◌, ◌==◌, nat_eq,
  ltb, Option, none, some, map, select, refl, if◌then◌else◌, arith, Option-cases, inl, inr, sym,
  subst,
}
use Prim.Native.Char.{code}
use pinakes.Base.Dict.{Dict, lookup_or, insert}
use pinakes.Types.{Message}
use pinakes.Types
use pinakes.Config.{Config}
use pinakes.Store.{is_zero}
use pinakes.Store.Status.{is_request}
use pinakes.Durable.{
  Tables, Delivery, pending, no_cursor, Receipt, ensure_cursor, delivery_clash, receipt_clash,
  text_lt, text_le, text_rank, is_open,
}
use pinakes.Durable.Accept.{◌>>=◌}
use pinakes.Durable.Refusals.{has_delivery}
use pinakes.Durable.Moves.{
  Sound, Moved, Moved-Sound, cursor_of, number_of, numbered, unless_added-Moved,
}

-- a < b of two texts
unfoldable pub text_before : String → String → Bool
text_before String.[] String.[] = false
text_before String.[] (String.◌∷◌ d t) = true
text_before (String.◌∷◌ c s) String.[] = false
text_before (String.◌∷◌ c s) (String.◌∷◌ d t) =
    ltb (code c) (code d) || (nat_eq (code c) (code d) && text_before s t)

-- ORDER BY created_at, message_id
unfoldable pub older_message : Message → Message → Bool
unfolding text_before
older_message m n =
    text_lt m.created_at n.created_at
    || (nat_eq (text_rank m.created_at) (text_rank n.created_at)
        && text_before m.message_id n.message_id)

unfoldable pub place_in : Message → List Message → List Message
place_in m [] = m ∷ []
place_in m (n ∷ ms) =
    let later = n ∷ place_in m ms in if older_message n m then later else m ∷ n ∷ ms

unfoldable pub in_order : List Message → List Message
unfolding place_in
in_order [] = []
in_order (m ∷ ms) = place_in m (in_order ms)

-- state IN ('pending', 'waiting')
abbrev pub is_unanswered : Types.MessageState → Bool
is_unanswered Types.pending = true
is_unanswered Types.waiting = true
is_unanswered other = false

-- The messages that were still to be delivered when the database had no deliveries.
abbrev pub lacks_delivery : List Delivery → Message → Bool
lacks_delivery ds m =
    not (m.to == "")
    && ((not (is_request m.type) || is_unanswered m.state) && not (has_delivery m.message_id ds))

-- expiresAt before the grace period is looked at
abbrev pub legacy_ttl : Config → Message → ℕ
legacy_ttl cfg m =
    if is_zero m.ttl_expires_at then m.created_at + cfg.default_message_ttl else m.ttl_expires_at

abbrev pub legacy_expiry : Config → Message → ℕ
legacy_expiry cfg m =
    if not (is_zero m.grace_until) && ltb m.grace_until (legacy_ttl cfg m)
    then m.grace_until
    else legacy_ttl cfg m

abbrev pub legacy_delivery : Config → Message → ℕ → Delivery
legacy_delivery cfg m seq = record {
  target_agent_id = m.to;
  delivery_seq = seq;
  message_id = m.message_id;
  status = pending;
  next_attempt_at = m.created_at;
  attempt_count = 0;
  received_at = 0;
  expires_at = legacy_expiry cfg m;
  last_error = "";
}

-- One turn of the loop over the messages. `none` is a violated key.
unfoldable pub backfill_delivery : Config → ℕ → Message → Tables → Option Tables
unfolding ensure_cursor
backfill_delivery cfg now m t =
    let messages =
      if is_zero m.ttl_expires_at
      then insert m.message_id (record m { ttl_expires_at = legacy_ttl cfg m }) t.messages
      else t.messages in
    let cursors = ensure_cursor m.to t.cursors in
    let cursor = lookup_or no_cursor m.to cursors in
    let new = legacy_delivery cfg m cursor.next_seq in
    let added = record t {
      messages = messages;
      cursors = insert m.to (record cursor { next_seq = cursor.next_seq + 1 }) cursors;
      deliveries = t.deliveries ++ new ∷ [];
    } in
    if not (ltb now (legacy_expiry cfg m))
    then some (record t { messages = messages })
    else if delivery_clash new t.deliveries
    then none
    else some added

unfoldable pub backfill_deliveries : Config → ℕ → List Message → Tables → Option Tables
unfolding backfill_delivery
backfill_deliveries cfg now [] t = some t
backfill_deliveries cfg now (m ∷ ms) t =
    backfill_delivery cfg now m t >>= (λ u. backfill_deliveries cfg now ms u)

-- The messages whose receipts are made up.
abbrev pub has_request : ℕ → Message → Bool
has_request cutoff m =
    not (m.from == "")
    && (not (m.to == "") && (not (m.request_id == "") && text_le cutoff m.created_at))

abbrev pub legacy_receipt : Config → Message → Receipt
legacy_receipt cfg m = record {
  from_agent = m.from;
  to_agent = m.to;
  request_id = m.request_id;
  message_id = m.message_id;
  accepted_at = m.created_at;
  expires_at = m.created_at + cfg.idempotency_window;
}

-- ON CONFLICT(from_agent, to_agent, request_id) DO NOTHING
unfoldable pub backfill_receipts : Config → List Message → List Receipt → List Receipt
backfill_receipts cfg [] rs = rs
backfill_receipts cfg (m ∷ ms) rs =
    backfill_receipts cfg ms
      (if receipt_clash (legacy_receipt cfg m) rs then rs else rs ++ legacy_receipt cfg m ∷ [])

abbrev pub stored : Dict Message → List Message
stored messages = map (λ entry. entry.1) messages

-- The transaction of the first time.
unfoldable pub fill_state : Config → ℕ → (fault : Bool) → Tables → Option Tables
unfolding in_order backfill_deliveries backfill_receipts
fill_state cfg now fault t = do
  delivered ←
      backfill_deliveries cfg now
        (in_order (select (lacks_delivery t.deliveries) (stored t.messages))) t
  let receipts =
      backfill_receipts cfg
        (in_order (select (has_request (now - cfg.idempotency_window)) (stored delivered.messages)))
        delivered.receipts
  if fault then none else some (record delivered { receipts = receipts })

-- backfillLegacyDeliveryState; it has been applied already if its key stands in schema_migrations.
unfoldable pub backfill_legacy_delivery_state :
    Config → ℕ → (applied fault : Bool) → Tables → Option Tables
unfolding fill_state
backfill_legacy_delivery_state cfg now applied fault t =
    if applied then some t else fill_state cfg now fault t
