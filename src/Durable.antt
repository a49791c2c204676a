-- ===== src/Durable.antt =====
-- pkg/bus/sqlite.go and sqlite_delivery.go: the tables of durable delivery. A time is a count of
-- nanoseconds, 0 for the empty text; the statements compare the texts of time.RFC3339Nano.
pub mod Rows
pub mod Moves
pub mod Transactions
pub mod Looked
pub mod Steps
pub mod Refusals
pub mod Backfill
pub mod Rising
pub mod Answers
pub mod Accept
pub mod Push
pub mod Read
pub mod Prune
use pinakes.Base.{
  ℕ, zero, suc, ◌+◌, ◌-◌, ◌*◌, ◌/◌, ◌%◌, ◌^◌, String, Bool, true, false, not, List, [], ◌∷◌, ◌&&◌,
  ◌||◌, ◌==◌, nat_eq, ltb, leb, Option, none, some, if◌then◌else◌,
}
use pinakes.Base.Dict.{Dict, lookup, insert}
use pinakes.Types.{Message, Conversation}
use pinakes.Store.{is_zero}

-- The rank of the fraction of a second among the texts of n digits: trailing zeros are not written,
-- and the Z after the last digit is greater than a digit.
unfoldable pub fraction_rank : ℕ → ℕ → ℕ
fraction_rank zero fraction = 0
fraction_rank (suc n) fraction =
    let rest = fraction_rank n (fraction % 10 ^ n) in
    if nat_eq fraction 0 then 10 * 11 ^ n else (fraction / 10 ^ n) * 11 ^ n + rest

-- The place of a time among the texts of timeToString; the empty text comes first.
unfoldable pub text_rank : ℕ → ℕ
unfolding fraction_rank
text_rank t =
    if is_zero t
    then 0
    else suc ((t / 1_000_000_000) * 11 ^ 9 + fraction_rank 9 (t % 1_000_000_000))

-- a < b and a <= b of two columns
unfoldable pub text_lt : ℕ → ℕ → Bool
unfolding text_rank
text_lt a b = ltb (text_rank a) (text_rank b)

unfoldable pub text_le : ℕ → ℕ → Bool
unfolding text_rank
text_le a b = leb (text_rank a) (text_rank b)

pub data DeliveryStatus : Type 0 where
  pending attempting received failed : DeliveryStatus

-- A row of deliveries.
pub record Delivery : Type 0 where
  pub target_agent_id : String
  pub delivery_seq : ℕ
  pub message_id : String
  pub status : DeliveryStatus
  pub next_attempt_at : ℕ
  pub attempt_count : ℕ
  pub received_at : ℕ
  pub expires_at : ℕ
  pub last_error : String

-- A row of delivery_cursors, under its target.
pub record Cursor : Type 0 where
  pub next_seq : ℕ
  pub acknowledged_cursor : ℕ

-- A row of idempotency.
pub record Receipt : Type 0 where
  pub from_agent : String
  pub to_agent : String
  pub request_id : String
  pub message_id : String
  pub accepted_at : ℕ
  pub expires_at : ℕ

-- A row of conversation_messages.
pub record Link : Type 0 where
  pub conversation_id : String
  pub message_id : String
  pub position : ℕ

-- The database; the rows of deliveries stand in the order in which they were inserted.
pub record Tables : Type 0 where
  pub conversations : Dict Conversation
  pub messages : Dict Message
  pub links : List Link
  pub next_conversation_id : ℕ
  pub next_message_id : ℕ
  pub cursors : Dict Cursor
  pub deliveries : List Delivery
  pub receipts : List Receipt

-- status IN ('pending', 'attempting')
abbrev pub is_open : DeliveryStatus → Bool
is_open pending = true
is_open attempting = true
is_open received = false
is_open failed = false

abbrev pub is_attempting : DeliveryStatus → Bool
is_attempting attempting = true
is_attempting other = false

abbrev pub is_pending : DeliveryStatus → Bool
is_pending pending = true
is_pending other = false

-- UPDATE deliveries SET ... WHERE ...
abbrev pub update_where : (Delivery → Bool) → (Delivery → Delivery) → List Delivery → List Delivery
update_where p f [] = []
update_where p f (d ∷ ds) = (if p d then f d else d) ∷ update_where p f ds

-- SET status = 'received', received_at = ?, last_error = ''
abbrev pub received_row : ℕ → Delivery → Delivery
received_row now d = record d { status = received; received_at = now; last_error = "" }

-- INSERT INTO delivery_cursors ... VALUES (target, 0, 0) ON CONFLICT DO NOTHING
unfoldable pub ensure_cursor : String → Dict Cursor → Dict Cursor
unfolding lookup insert
ensure_cursor target cursors = elim (lookup target cursors) [
  | some cursor ↦ cursors
  | none ↦ insert target (record { next_seq = 0; acknowledged_cursor = 0 }) cursors
]

abbrev pub no_cursor : Cursor
no_cursor = record { next_seq = 0; acknowledged_cursor = 0 }

-- A row that has the message id, or the target and the number, of a new one: UNIQUE and PRIMARY KEY.
abbrev pub delivery_clash : Delivery → List Delivery → Bool
delivery_clash new [] = false
delivery_clash new (d ∷ ds) =
    (d.message_id == new.message_id
      || (d.target_agent_id == new.target_agent_id && nat_eq d.delivery_seq new.delivery_seq))
    || delivery_clash new ds

abbrev pub receipt_clash : Receipt → List Receipt → Bool
receipt_clash new [] = false
receipt_clash new (r ∷ rs) =
    (r.from_agent == new.from_agent
      && (r.to_agent == new.to_agent && r.request_id == new.request_id))
    || receipt_clash new rs
