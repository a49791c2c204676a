-- ===== src/Store/Acceptance.antt =====
-- What sendMessage and inject of pkg/bus/store.go share: the record that a durable backend commits,
-- and the changes of the store once it is committed.
use Prim.Native.String.{◌++◌ as concat}
use pinakes.Base.{ℕ, String, [], ◌∷◌, ◌++◌, Option, none, some, ◌==◌, if◌then◌else◌}
use pinakes.Base.Dict.{Dict, lookup_or, insert}
use pinakes.Text.{trim_space}
use pinakes.Text.Decimal.{format_padded}
use pinakes.Types.{Agent, AgentMode, pull, push, Conversation, Message, InboxEvent}
use pinakes.Types
use pinakes.Errors.{Result, ok}
use pinakes.Store.{Store, PushJob, IdempotencyEntry}
use pinakes.Store.Inbox.{append_inbox}
use pinakes.Store.Observe.{publish}
use pinakes.Store.Push.{enqueue_push_job}

-- fmt.Sprintf("m-%06d", n)
unfoldable pub message_id : ℕ → String
message_id n = concat "m-" (format_padded n)

pub record SendAcceptance : Type 0 where
  pub message : Message
  pub conversation : Conversation
  pub conversation_pos : ℕ
  pub next_conversation_id : ℕ
  pub next_message_id : ℕ
  pub idempotency : Option (String × IdempotencyEntry)
  pub inbox_event : Option InboxEvent
  pub push_job : Option PushJob

-- The durability barrier of a backend; the in-memory store has none.
abbrev pub Barrier : Type 0 → Type 0
Barrier A = A → Result (Unit {0})

abbrev pub no_barrier : {A : Type 0} → Barrier A
no_barrier a = ok tt

-- The push callback of an active target.
unfoldable pub push_job_for : Agent → InboxEvent → String → Option PushJob
push_job_for target event request_id = elim target.mode [
  | pull ↦ none
  | push ↦
      let url = trim_space target.callback_url in
      if url == ""
      then none
      else some (record { url = url; payload = record { event = event; request_id = request_id } })
]

abbrev pub remember :
    Option (String × IdempotencyEntry) → Dict IdempotencyEntry → Dict IdempotencyEntry
remember none keys = keys
remember (some (key, entry)) keys = insert key entry keys

abbrev pub hand_in : String → Option InboxEvent → Store → Store
hand_in to none s = s
hand_in to (some event) s = append_inbox to event s

-- The accepted message, its conversation and its counters become visible, and its event stands in the
-- inbox of its target.
unfoldable pub install : SendAcceptance → Store → Store
install a s =
    let m = a.message in
    let cid = a.conversation.conversation_id in
    hand_in m.to a.inbox_event (record s {
      next_conversation_id = a.next_conversation_id;
      next_message_id = a.next_message_id;
      conversations = insert cid a.conversation s.conversations;
      messages = insert m.message_id m s.messages;
      conversation_messages =
          insert cid (lookup_or [] cid s.conversation_messages ++ m.message_id ∷ [])
            s.conversation_messages;
      idempotency = remember a.idempotency s.idempotency;
    })

unfoldable pub publish_message : Message → ℕ → Store → Store
publish_message m now s =
    publish (Types.message m.message_id m.type m.from m.to m.conversation_id m.body m.created_at)
      m.conversation_id (m.from ∷ m.to ∷ []) now s

unfoldable pub schedule_push : Option PushJob → Store → Store
schedule_push none s = s
schedule_push (some job) s = (enqueue_push_job job s).1
