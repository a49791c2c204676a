-- ===== src/Tests/Data.antt =====
-- A small bus: two agents, a request from one to the other, and its answer.
use pinakes.Base.{ℕ, ◌*◌, ◌+◌, String, true, false, [], ◌∷◌, none, some}
use pinakes.Base.Int.{pos}
use pinakes.Types.{
  Message, Agent, pull, pending, InjectInput, completed, waiting, nil, RegisterAgentInput,
  SendMessageInput, AckInput, EventInput, InboxEvent, request, ObserveFilter,
}
use pinakes.Errors.{Error, new_error, unauthorized, ok}
use pinakes.Store.Poll.{Advance}
use pinakes.Config.{RawConfig, Config, complete}
use pinakes.Store.{Store, Env, new_store}
use pinakes.Store.Register.{register_agent, new_agent}
use pinakes.Store.Send.{send_message, SendRequest}
use pinakes.Store.Sweep.{sweep}
use pinakes.Store.Sound.Reach.{Reach, start, next, registers, sends, acks, posts, sweeps}
use pinakes.Store.Lifecycle.{ack, post_event}
use pinakes.Store.Acceptance.{no_barrier}

-- Nothing is given, so that every default is taken.
abbrev pub raw_config : RawConfig
raw_config = record {
  grace_period = pos 0;
  progress_min_interval = pos 0;
  idempotency_window = pos 0;
  inbox_wait_max = pos 0;
  ack_timeout = pos 0;
  default_message_ttl = pos 0;
  default_registration_ttl = pos 0;
  push_max_attempts = pos 0;
  push_base_backoff = pos 0;
  push_queue_size = pos 0;
  push_workers = pos 0;
  push_shutdown_timeout = pos 0;
  max_inbox_events_per_agent = pos 0;
  max_observe_events = pos 0;
  max_inbox_bytes_per_agent = pos 0;
  max_observe_bytes = pos 0;
  message_retention = pos 0;
  message_max_age = pos 0;
  conversation_retention = pos 0;
  agent_retention = pos 0;
  sweep_min_interval = pos 0;
  namespace_mode = "";
  legacy_scope = "";
  shared_grant_agents = [];
  control_plane_agents = [];
  control_plane_agent_secret_hashes = [];
}

abbrev pub cfg : Config
cfg = complete raw_config []

abbrev pub env : Env
env = record { json_length = λ content. some 100; sha256 = λ text. text }

abbrev pub start_time : ℕ
start_time = 63_000_000_000 * 1_000_000_000

abbrev pub empty_store : Store
empty_store = new_store cfg env [] "epoch-1"

abbrev pub registration : String → RegisterAgentInput
registration agent_id = record {
  agent_id = agent_id;
  secret = "";
  allowed_scopes = [];
  shared_grants = [];
  capabilities = [];
  version = "1";
  description = "";
  agent_class = "";
  mutation_class = "";
  build = none;
  meta = none;
  mode = "pull";
  callback_url = "";
  ttl_seconds = pos 0;
}

abbrev pub question : SendMessageInput
question = record {
  to = "ucla.b";
  from = "ucla.a";
  conversation_id = "";
  request_id = "r1";
  type = "request";
  body = "hello";
  meta = nil;
  attachments = [];
  ttl_seconds = pos 0;
  in_reply_to = "";
}

abbrev pub answer : EventInput
answer = record {
  actor_agent_id = "ucla.b";
  message_id = "m-000001";
  type = "final";
  body = "done";
  meta = nil;
}

abbrev pub acceptance : AckInput
acceptance = record {
  agent_id = "ucla.b";
  message_id = "m-000001";
  status = "accepted";
  reason = "";
}

abbrev pub with_a : Store
with_a = (register_agent start_time (registration "ucla.a") empty_store).1

abbrev pub with_both : Store
with_both = (register_agent start_time (registration "ucla.b") with_a).1

abbrev pub asked : Store
asked = (send_message start_time question no_barrier with_both).1

abbrev pub answered : Store
answered = (post_event start_time answer no_barrier asked).1

abbrev pub incoming : InboxEvent
incoming = record {
  message_id = "m-000009";
  type = request;
  from = "ucla.a";
  conversation_id = "c-000001";
  body = "again";
  meta = nil;
  attachments = [];
  created_at = start_time;
}

-- The request after its answer.
abbrev pub final_message : Message
final_message = record {
  message_id = "m-000001";
  type = request;
  from = "ucla.a";
  to = "ucla.b";
  conversation_id = "c-000001";
  request_id = "r1";
  in_reply_to = "";
  body = "hello";
  meta = nil;
  attachments = [];
  state = completed;
  created_at = start_time;
  terminal_at = start_time;
  delivered_at = start_time;
  last_progress_at = 0;
  ttl_expires_at = start_time + 600 * 1_000_000_000;
  grace_until = 0;
  queued_for_agent = false;
}

-- The request as it is accepted.
abbrev pub sent_message : Message
sent_message = record final_message { state = waiting; terminal_at = 0 }

abbrev pub sent_event : InboxEvent
sent_event = record incoming { message_id = "m-000001"; body = "hello" }

abbrev pub request_from_a : SendRequest
request_from_a = record {
  to = "ucla.b";
  from = "ucla.a";
  request_id = "r1";
  body = "hello";
  type = request;
  ttl = pos 600;
}

-- The registrations, the request and its answer.
abbrev pub run_answered : Reach empty_store answered
run_answered =
    next
      (next
        (next (next start (registers start_time (registration "ucla.a")))
          (registers start_time (registration "ucla.b")))
        (sends start_time question no_barrier))
      (posts start_time answer no_barrier)

-- An ack after the end, and a sweep a second later.
abbrev pub swept : Store
swept = sweep (start_time + 1_000_000_000) (ack start_time acceptance no_barrier answered).1

abbrev pub run_swept : Reach answered swept
run_swept =
    next (next start (acks start_time acceptance no_barrier)) (sweeps (start_time + 1_000_000_000))

abbrev pub run_asked : Reach empty_store asked
run_asked =
    next
      (next (next start (registers start_time (registration "ucla.a")))
        (registers start_time (registration "ucla.b")))
      (sends start_time question no_barrier)

abbrev pub no_advance : Advance
no_advance agent_id cursor = ok tt

abbrev pub whole_ring : ObserveFilter
whole_ring = record { conversation_id = ""; agent_id = ""; actor_agent_id = "" }

abbrev pub agent_a : Agent
agent_a = new_agent start_time (registration "ucla.a") pull empty_store

-- A strict bus with one control-plane agent.
abbrev pub raw_strict : RawConfig
raw_strict = record raw_config {
  namespace_mode = "strict";
  control_plane_agents = " operator " ∷ "" ∷ "operator" ∷ [];
  control_plane_agent_secret_hashes = ("operator", "00") ∷ [];
}

abbrev pub cfg_strict : Config
cfg_strict = complete raw_strict ("operator" ∷ [])

-- A request that waits for its target to come back.
abbrev pub queued_message : Message
queued_message = record sent_message { state = pending; queued_for_agent = true; delivered_at = 0 }

abbrev pub denied : String → Error
denied text = new_error unauthorized text false 0

abbrev pub foreign_ack : AckInput
foreign_ack = record acceptance { agent_id = "ucla.a" }

abbrev pub foreign_answer : EventInput
foreign_answer = record answer { actor_agent_id = "ucla.a" }

abbrev pub empty_injection : InjectInput
empty_injection = record { identity = ""; conversation_id = ""; to = ""; body = "" }

abbrev pub run_both : Reach empty_store with_both
run_both =
    next (next start (registers start_time (registration "ucla.a")))
      (registers start_time (registration "ucla.b"))
