-- ===== src/Store/Inject.antt =====
-- Inject of pkg/bus/store.go: a message that a human puts into a conversation.
use Prim.Native.String.{◌++◌ as concat}
use pinakes.Base.{
  ℕ, ◌+◌, ◌-◌, ◌*◌, String, Bool, true, false, not, ◌&&◌, ◌||◌, List, [], ◌∷◌, Option, none, some,
  length, contains, ◌==◌, if◌then◌else◌,
}
use pinakes.Base.Dict.{lookup, lookup_or}
use pinakes.Text.{trim_space}
use pinakes.Text.Decimal.{format_int}
use pinakes.Text.Json.{identity_json}
use pinakes.Types.{
  Agent, Conversation, Message, inform, pending, completed, nil, json, InboxEvent, InjectInput,
  human_injection,
}
use pinakes.Errors.{Result, ok, validation, unauthorized, reject_if, ◌>>=◌, ◌>>◌}
use pinakes.Store.{Store, PushJob, Operation, try, guarded}
use pinakes.Store.Status.{is_active, is_terminal}
use pinakes.Store.Observe.{publish}
use pinakes.Store.Sweep.{sweep, message_event}
use pinakes.Store.Send.{choose_conversation, check_grace, registered_target}
use pinakes.Store.Acceptance.{
  SendAcceptance, Barrier, message_id, push_job_for, install, publish_message, schedule_push,
}

abbrev no_allowlist : List String → Bool
no_allowlist [] = true
no_allowlist (x ∷ xs) = false

-- The checks before the lock, in their order.
unfoldable pub check_inject : Store → InjectInput → Result (Unit {0})
check_inject s input = do
  let identity = trim_space input.identity
  let to = trim_space input.to
  reject_if (identity == "" || trim_space input.body == "") validation
      "identity and body are required"
  reject_if (not (to == "") && not (pinakes.Scope.accepts_name s.cfg to)) validation
      "to must be prefixed with personal., ucla., or shared."
  reject_if (not (no_allowlist s.human_allowlist) && not (contains s.human_allowlist identity))
      unauthorized "human identity not allowed"

-- The nanoseconds from Go's zero time to the Unix epoch.
abbrev unix_epoch : ℕ
unix_epoch = 62135596800 * 1_000_000_000

-- t.UnixNano() of a time after 1970
abbrev unix_nano : ℕ → ℕ
unix_nano t = t - unix_epoch

-- The injected message before its target is looked at.
unfoldable pub injected : ℕ → InjectInput → Store → String → Message
injected now input s cid = record {
  message_id = message_id (s.next_message_id + 1);
  type = inform;
  from = concat "human:" (trim_space input.identity);
  to = trim_space input.to;
  conversation_id = cid;
  request_id = concat "inject-" (format_int (unix_nano now));
  in_reply_to = "";
  body = trim_space input.body;
  meta = json (identity_json (trim_space input.identity));
  attachments = [];
  state = completed;
  created_at = now;
  terminal_at = 0;
  delivered_at = 0;
  last_progress_at = 0;
  ttl_expires_at = now + s.cfg.default_message_ttl;
  grace_until = 0;
  queued_for_agent = false;
}

-- The conversation that an injection joins, with nobody added to it.
unfoldable pub injected_conversation : ℕ → Store → String → Conversation
injected_conversation now s id = elim (lookup id s.conversations) [
  | some existing ↦ existing
  | none ↦ record {
    conversation_id = id;
    title = "";
    participants = [];
    status = "active";
    message_count = 0;
    created_at = now;
    last_message_at = now;
    meta = nil;
  }
]

-- The message as it is accepted, with its inbox event and its push callback.
abbrev Placed : Type 0
Placed = Message × Option InboxEvent × Option PushJob

unfoldable pub place_at : ℕ → Store → Message → Agent → Result Placed
place_at now s m target =
    if is_active target.status
    then ok (m, some (message_event m), push_job_for target (message_event m) m.request_id)
    else do
      check_grace now s.cfg target
      ok (
        record m {
          queued_for_agent = true;
          grace_until = target.expires_at + s.cfg.grace_period;
          state = pending;
        },
        none,
        none,
      )

unfoldable pub place : ℕ → Store → Message → Result Placed
place now s m =
    if m.to == ""
    then ok (m, none, none)
    else do target ← registered_target (lookup m.to s.agents); place_at now s m target

-- `if isTerminal(m.State) { m.TerminalAt = now }`
unfoldable pub stamp_terminal : ℕ → Message → Message
stamp_terminal now m = record m { terminal_at = if is_terminal m.state then now else m.terminal_at }

unfoldable pub plan_inject : ℕ → InjectInput → Store → Result SendAcceptance
plan_inject now input s = do
  let (id, next_conv) = choose_conversation s input.conversation_id
  let conv = injected_conversation now s id
  (m, event, job) ← place now s (injected now input s conv.conversation_id)
  let position = length (lookup_or [] conv.conversation_id s.conversation_messages)
  ok (record {
    message = stamp_terminal now m;
    conversation = record conv { message_count = position + 1; last_message_at = now };
    conversation_pos = position;
    next_conversation_id = next_conv;
    next_message_id = s.next_message_id + 1;
    idempotency = none;
    inbox_event = event;
    push_job = job;
  })

unfoldable pub accept_injection : ℕ → InjectInput → SendAcceptance → Store → Store
accept_injection now input a s =
    let m = a.message in
    let announced =
      publish
        (human_injection (trim_space input.identity) m.message_id m.conversation_id m.to m.body now)
        m.conversation_id (m.from ∷ m.to ∷ []) now (install a s) in
    schedule_push a.push_job (publish_message m now announced)

unfoldable pub inject_locked : ℕ → InjectInput → Barrier SendAcceptance → Operation Message
inject_locked now input commit s =
    try (plan_inject now input s)
      (λ a. guarded (commit a) (λ (s : Store). (ok a.message, accept_injection now input a s))) s

unfoldable pub inject : ℕ → InjectInput → Barrier SendAcceptance → Operation Message
inject now input commit s =
    guarded (check_inject s input) (λ (s : Store). inject_locked now input commit (sweep now s)) s
