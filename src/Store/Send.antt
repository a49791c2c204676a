-- ===== src/Store/Send.antt =====
-- SendMessage of pkg/bus/store.go: checks, planning, the durability barrier, and acceptance.
pub mod Laws
pub mod Memory
pub mod Again
pub mod Delivery
use Prim.Native.String.{◌++◌ as concat}
use pinakes.Base.{
  ℕ, suc, ◌+◌, String, Bool, true, false, not, ◌&&◌, List, [], ◌∷◌, ◌++◌, Option, none, some,
  length, ltb, ◌==◌, if◌then◌else◌,
}
use pinakes.Base.Int.{ℤ}
use pinakes.Base.Dict.{Dict, lookup, lookup_or}
use pinakes.Text.{trim_space}
use pinakes.Types.{
  Agent, Conversation, Message, MessageType, request, response, inform, MessageState, pending,
  waiting, completed, SendMessageInput, nil,
}
use pinakes.Errors.{
  Result, ok, err, fail, validation, unauthorized, not_found, reject_if, ◌>>=◌, ◌>>◌,
}
use pinakes.Config.{Config}
use pinakes.Scope.{accepts_name}
use pinakes.Store.{
  Store, IdempotencyEntry, Operation, try, guarded, after, older_than, seconds, add_duration,
}
use pinakes.Store.Status.{is_active, is_request}
use pinakes.Store.Access.{
  authorize_agent_for_name, authorize_send_target, authorize_actor_for_names,
}
use pinakes.Store.Conversations.{conversation_id, merge_participants}
use pinakes.Store.Sweep.{sweep, message_event}
use pinakes.Store.Register.{ttl_or}
use pinakes.Store.Acceptance.{
  SendAcceptance, Barrier, message_id, push_job_for, install, publish_message, schedule_push,
}

-- from + "\x1f" + to + "\x1f" + requestID
unfoldable pub dedupe_key : String → String → String → String
dedupe_key from to request_id =
    concat from (concat "\u{1f}" (concat to (concat "\u{1f}" request_id)))

-- A checked request: its texts are trimmed.
pub record SendRequest : Type 0 where
  pub to : String
  pub from : String
  pub request_id : String
  pub body : String
  pub type : MessageType
  pub ttl : ℤ

unfoldable pub parse_message_type : String → Result MessageType
parse_message_type raw =
    if raw == ""
    then ok request
    else if raw == "request"
    then ok request
    else if raw == "response"
    then ok response
    else if raw == "inform"
    then ok inform
    else fail validation "type must be request, response, or inform"

-- The checks before the lock, in their order.
unfoldable pub check_send : Config → SendMessageInput → Result SendRequest
check_send cfg input = do
  let to = trim_space input.to
  let from = trim_space input.from
  let request_id = trim_space input.request_id
  let body = trim_space input.body
  reject_if (to == "") validation "to is required"
  reject_if (not (accepts_name cfg to)) validation
      "to must be prefixed with personal., ucla., or shared."
  reject_if (from == "") validation "from is required"
  reject_if (not (accepts_name cfg from)) validation
      "from must be prefixed with personal., ucla., or shared."
  reject_if (request_id == "") validation "request_id is required"
  reject_if (body == "") validation "body is required"
  type ← parse_message_type input.type
  ok (record {
    to = to;
    from = from;
    request_id = request_id;
    body = body;
    type = type;
    ttl = ttl_or input.ttl_seconds cfg.default_message_ttl;
  })

-- The answer: a new message, the message of an earlier send with the same key, or what is remembered
-- of it once it is pruned.
pub data Sent : Type 0 where
  accepted : Message → Sent
  duplicate : Message → Sent
  remembered : (message_id from to request_id : String) → (created_at : ℕ) → Sent

abbrev active_sender : Option Agent → Result Agent
active_sender none = fail unauthorized "sender is not registered/active"
active_sender (some a) =
    if is_active a.status then ok a else fail unauthorized "sender is not registered/active"

abbrev pub registered_target : Option Agent → Result Agent
registered_target none = fail not_found "target agent not registered"
registered_target (some a) = ok a

-- The sender and the target, once the sender may publish to the target.
unfoldable pub route : Store → SendRequest → Result Agent
route s r = do
  sender ← active_sender (lookup r.from s.agents)
  authorize_agent_for_name s.cfg sender r.from
  authorize_send_target s.cfg sender r.to
  registered_target (lookup r.to s.agents)

-- The idempotency entry of a request that is still in its window.
unfoldable pub earlier : ℕ → Store → SendRequest → Option IdempotencyEntry
earlier now s r = elim (lookup (dedupe_key r.from r.to r.request_id) s.idempotency) [
  | none ↦ none
  | some entry ↦
      if older_than now entry.created_at s.cfg.idempotency_window then none else some entry
]

unfoldable pub answer_again : Store → SendRequest → IdempotencyEntry → Sent
answer_again s r entry = elim (lookup entry.message_id s.messages) [
  | some m ↦ duplicate m
  | none ↦ remembered entry.message_id r.from r.to r.request_id entry.created_at
]

abbrev new_conversation : ℕ → String → List String → Conversation
new_conversation now id participants = record {
  conversation_id = id;
  title = "";
  participants = participants;
  status = "active";
  message_count = 0;
  created_at = now;
  last_message_at = now;
  meta = nil;
}

-- The conversation that the message joins: an existing one, or a new one.
unfoldable pub join_conversation : ℕ → Store → SendRequest → String → Result Conversation
join_conversation now s r id = elim (lookup id s.conversations) [
  | some existing ↦ do
    authorize_actor_for_names s.cfg r.from existing.participants
    authorize_actor_for_names s.cfg r.from (r.from ∷ r.to ∷ [])
    ok (merge_participants existing (r.from ∷ r.to ∷ []))
  | none ↦ do
    authorize_actor_for_names s.cfg r.from (r.from ∷ [])
    ok (new_conversation now id (r.from ∷ r.to ∷ []))
]

-- The conversation id, and the counter after it.
unfoldable pub choose_conversation : Store → String → String × ℕ
choose_conversation s raw =
    let given = trim_space raw in
    if given == ""
    then (conversation_id (suc s.next_conversation_id), suc s.next_conversation_id)
    else (given, s.next_conversation_id)

-- An expired target still takes messages within the grace period.
unfoldable pub check_grace : ℕ → Config → Agent → Result (Unit {0})
check_grace now cfg target =
    reject_if (not (is_active target.status) && after now (target.expires_at + cfg.grace_period))
      not_found "target agent expired beyond grace period"

-- The message as it is accepted. A request to an active target waits for its ack; one to an expired
-- target is queued; what is no request is complete at once.
unfoldable pub new_message :
    ℕ → SendMessageInput → SendRequest → Config → Agent → String → String → Message
new_message now input r cfg target id cid =
    let present = is_active target.status in
    let asks = is_request r.type in
    record {
      message_id = id;
      type = r.type;
      from = r.from;
      to = r.to;
      conversation_id = cid;
      request_id = r.request_id;
      in_reply_to = trim_space input.in_reply_to;
      body = r.body;
      meta = input.meta;
      attachments = input.attachments;
      state = if asks then (if present then waiting else pending) else completed;
      created_at = now;
      terminal_at = if asks then 0 else now;
      delivered_at = if asks && present then now else 0;
      last_progress_at = 0;
      ttl_expires_at = add_duration now (seconds r.ttl);
      grace_until = if present then 0 else target.expires_at + cfg.grace_period;
      queued_for_agent = not present;
    }

-- `conv.MessageCount = position + 1; conv.LastMessageAt = now`, and the status where there is none
unfoldable pub count_message : ℕ → ℕ → Conversation → Conversation
count_message now position c = record c {
  message_count = position + 1;
  last_message_at = now;
  status = if c.status == "" then "active" else c.status;
}

-- The acceptance of a request to a target, planned against the store.
unfoldable pub plan :
    ℕ → SendMessageInput → SendRequest → Store → Agent → ℕ → Conversation → SendAcceptance
plan now input r s target next_conv conv =
    let m =
      new_message now input r s.cfg target (message_id (s.next_message_id + 1))
        conv.conversation_id in
    let position = length (lookup_or [] conv.conversation_id s.conversation_messages) in
    let present = is_active target.status in
    record {
      message = m;
      conversation = count_message now position conv;
      conversation_pos = position;
      next_conversation_id = next_conv;
      next_message_id = s.next_message_id + 1;
      idempotency = some (
        dedupe_key r.from r.to r.request_id,
        record { message_id = m.message_id; created_at = now },
      );
      inbox_event = if present then some (message_event m) else none;
      push_job = if present then push_job_for target (message_event m) r.request_id else none;
    }

unfoldable pub plan_send :
    ℕ → SendMessageInput → SendRequest → Store → Agent → Result SendAcceptance
plan_send now input r s target = do
  let (id, next_conv) = choose_conversation s input.conversation_id
  conv ← join_conversation now s r id
  check_grace now s.cfg target
  ok (plan now input r s target next_conv conv)

unfoldable pub accept : ℕ → SendAcceptance → Store → Store
accept now a s = schedule_push a.push_job (publish_message a.message now (install a s))

-- The rest of sendMessage for a request without an earlier send.
unfoldable pub send_new :
    ℕ → SendMessageInput → SendRequest → Barrier SendAcceptance → Agent → Operation Sent
send_new now input r commit target s =
    try (plan_send now input r s target)
      (λ a. guarded (commit a) (λ (s : Store). (ok (accepted a.message), accept now a s))) s

-- A request that was sent before is answered from memory.
unfoldable pub send_once :
    ℕ
    → SendMessageInput
    → SendRequest
    → Barrier SendAcceptance
    → Agent
    → Option IdempotencyEntry
    → Operation Sent
send_once now input r commit target (some entry) s = (ok (answer_again s r entry), s)
send_once now input r commit target none s = send_new now input r commit target s

-- What happens under the lock, after the sweep.
unfoldable pub send_locked :
    ℕ → SendMessageInput → SendRequest → Barrier SendAcceptance → Operation Sent
send_locked now input r commit s =
    try (route s r) (λ target. send_once now input r commit target (earlier now s r)) s

unfoldable pub send_message : ℕ → SendMessageInput → Barrier SendAcceptance → Operation Sent
send_message now input commit s =
    try (check_send s.cfg input) (λ r (s : Store). send_locked now input r commit (sweep now s)) s
