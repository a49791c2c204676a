-- ===== src/Store.antt =====
-- The state of pkg/bus/store.go. A lock holds each operation together, so that an operation is a
-- function from the state to a result and the next state. The notification channels, the logger and
-- the mutex have no part in the data and are left out.
pub mod Access
pub mod Inbox
pub mod Observe
pub mod Push
pub mod Status
pub mod Conversations
pub mod Sweep
pub mod Register
pub mod Listing
pub mod Acceptance
pub mod Send
pub mod Inject
pub mod Poll
pub mod Lifecycle
pub mod Observing
pub mod Sound
use pinakes.Base.{
  ℕ, zero, suc, ◌+◌, ◌-◌, ◌*◌, ◌/◌, ◌%◌, ◌^◌, String, Bool, true, false, List, [], Option, none,
  some, ltb, leb, ◌&&◌, not,
}
use pinakes.Base.Int.{ℤ, pos, negsuc, signed64, pattern64}
use pinakes.Base.Dict.{Dict}
use pinakes.Types.{
  Agent, Conversation, Message, InboxEvent, ObserveEvent, EventData, MessageType, Any, Attachment,
}
use pinakes.Config.{Config}
use pinakes.Errors.{Result, ok, err}

-- What the store takes from Go's standard library and leaves open here: the length of the JSON text
-- of an observe event's data (`none` where json.Marshal fails), and sha256.Sum256.
pub record Env : Type 0 where
  pub json_length : EventData → Option ℕ
  pub sha256 : String → String

pub record IdempotencyEntry : Type 0 where
  pub message_id : String
  pub created_at : ℕ

-- The body of a push callback: the message as its target sees it, and the request id.
pub record PushPayload : Type 0 where
  pub event : InboxEvent
  pub request_id : String

pub record PushJob : Type 0 where
  pub url : String
  pub payload : PushPayload

pub record Store : Type 0 where
  pub cfg : Config
  pub env : Env
  pub next_conversation_id : ℕ
  pub next_message_id : ℕ
  pub next_observe_id : ℕ
  pub agents : Dict Agent
  pub conversations : Dict Conversation
  pub messages : Dict Message
  pub conversation_messages : Dict (List String)
  pub inboxes : Dict (List InboxEvent)
  pub inbox_base : Dict ℕ
  pub inbox_bytes : Dict ℕ
  pub observe_events : List ObserveEvent
  pub observe_bytes : ℕ
  pub observe_epoch : String
  pub idempotency : Dict IdempotencyEntry
  pub last_sweep_at : ℕ
  pub sweep_skipped : ℕ
  pub sweep_ran : ℕ
  pub human_allowlist : List String
  pub push_failures : ℕ
  pub push_successes : ℕ
  pub push_queue : List PushJob
  pub push_closed : Bool

-- The store that NewStore returns for a completed configuration.
unfoldable pub new_store : Config → Env → (allowlist : List String) → (epoch : String) → Store
new_store cfg env allowlist epoch = record {
  cfg = cfg;
  env = env;
  next_conversation_id = 0;
  next_message_id = 0;
  next_observe_id = 0;
  agents = [];
  conversations = [];
  messages = [];
  conversation_messages = [];
  inboxes = [];
  inbox_base = [];
  inbox_bytes = [];
  observe_events = [];
  observe_bytes = 0;
  observe_epoch = epoch;
  idempotency = [];
  last_sweep_at = 0;
  sweep_skipped = 0;
  sweep_ran = 0;
  human_allowlist = allowlist;
  push_failures = 0;
  push_successes = 0;
  push_queue = [];
  push_closed = false;
}

-- An operation on the locked store.
abbrev pub Operation : Type 0 → Type 0
Operation A = Store → Result A × Store

-- t.IsZero()
abbrev pub is_zero : ℕ → Bool
is_zero zero = true
is_zero (suc t) = false

-- now.After(t)
abbrev pub after : ℕ → ℕ → Bool
after now t = ltb t now

-- now.Sub(t) > d, also where t lies after now
abbrev pub older_than : ℕ → ℕ → ℕ → Bool
older_than now t d = ltb (t + d) now

-- now.Sub(t) < d
abbrev pub younger_than : ℕ → ℕ → ℕ → Bool
younger_than now t d = ltb now (t + d)

-- time.Duration(n) * time.Second, a 64-bit product that wraps
unfoldable pub seconds : ℤ → ℤ
unfolding signed64 pattern64
seconds n = signed64 (pattern64 n * 1_000_000_000 % 2 ^ 64)

-- t.Add(d). A time of the bus is more than 2^63 nanoseconds after the zero time.
unfoldable pub add_duration : ℕ → ℤ → ℕ
add_duration t (pos d) = t + d
add_duration t (negsuc d) = t - suc d

-- `a, err := ...; if err != nil { return err }`, and what follows
abbrev pub try : {A B : Type 0} → Result A → (A → Operation B) → Operation B
try (ok a) next s = next a s
try (err e) next s = (err e, s)

-- `if err := ...; err != nil { return err }`
abbrev pub guarded : {A : Type 0} → Result (Unit {0}) → Operation A → Operation A
guarded (ok _) op s = op s
guarded (err e) op s = (err e, s)
