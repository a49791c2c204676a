-- ===== src/Store/Sweep.antt =====
-- The sweep of pkg/bus/store.go: it forgets old idempotency keys, expires agents, times requests out,
-- delivers queued requests, and prunes. A loop over a map goes in the order of the association list,
-- which stands for whatever order Go takes: the theorems hold for every list.
pub mod Prune
pub mod Laws
pub mod Kept
use pinakes.Base.{
  ℕ, suc, String, Bool, true, false, not, ◌&&◌, ◌||◌, List, [], ◌∷◌, Option, none, some, ltb,
  if◌then◌else◌,
}
use pinakes.Base.Dict.{Dict, lookup, keep_if, sweep_values}
use pinakes.Types.{
  Agent, active, expired, Message, waiting, error, InboxEvent, state_failure, agent_expired,
}
use pinakes.Store.{Store, IdempotencyEntry, is_zero, after, older_than, younger_than}
use pinakes.Store.Status.{is_terminal, is_request, is_waiting, is_active}
use pinakes.Store.Inbox.{append_inbox}
use pinakes.Store.Observe.{publish}
use Prune.{prune}

unfoldable pub forget_keys : ℕ → Store → Store
forget_keys now s = record s {
  idempotency =
      keep_if (λ (e : IdempotencyEntry). not (older_than now e.created_at s.cfg.idempotency_window))
        s.idempotency;
}

unfoldable pub expire_agent : ℕ → String → Agent → Store → Agent × Store
expire_agent now key a s =
    if is_active a.status && after now a.expires_at
    then (
      record a { status = expired },
      publish (agent_expired a.agent_id now) "" (a.agent_id ∷ []) now s,
    )
    else (a, s)

unfoldable pub expire_agents : ℕ → Store → Store
expire_agents now s =
    let (agents, s') = sweep_values (expire_agent now) s.agents s in record s' { agents = agents }

-- What the sweep does with a message.
pub data Verdict : Type 0 where
  leave : Verdict
  time_out : (reason : String) → Verdict
  deliver : Verdict
  lapse : Verdict

abbrev grace_verdict : ℕ → Message → Verdict
grace_verdict now m =
    if not (is_zero m.grace_until) && after now m.grace_until then lapse else leave

abbrev queue_verdict : ℕ → Message → Option Agent → Verdict
queue_verdict now m none = grace_verdict now m
queue_verdict now m (some target) = if is_active target.status then deliver else grace_verdict now m

-- The conditions of the message loop, in the order of the code.
unfoldable pub verdict : ℕ → (ack_timeout : ℕ) → Dict Agent → Message → Verdict
verdict now ack_timeout agents m =
    if not (is_request m.type) || is_terminal m.state
    then leave
    else if not (is_zero m.ttl_expires_at) && after now m.ttl_expires_at
    then time_out "ttl timeout"
    else if is_waiting m.state
        && not (is_zero m.delivered_at)
        && older_than now m.delivered_at ack_timeout
    then time_out "ack timeout"
    else if m.queued_for_agent
    then queue_verdict now m (lookup m.to agents)
    else leave

-- The message after its verdict.
abbrev pub settle : ℕ → Message → Verdict → Message
settle now m leave = m
settle now m (time_out reason) = record m { state = error; terminal_at = now }
settle now m deliver = record m { queued_for_agent = false; state = waiting; delivered_at = now }
settle now m lapse = record m { queued_for_agent = false; state = error; terminal_at = now }

unfoldable pub message_event : Message → InboxEvent
message_event m = record {
  message_id = m.message_id;
  type = m.type;
  from = m.from;
  conversation_id = m.conversation_id;
  body = m.body;
  meta = m.meta;
  attachments = m.attachments;
  created_at = m.created_at;
}

-- The inbox event or the observe event of a verdict.
unfoldable pub announce : ℕ → Message → Verdict → Store → Store
announce now m leave s = s
announce now m (time_out reason) s =
    publish (state_failure m.message_id m.state now reason) m.conversation_id (m.from ∷ m.to ∷ [])
      now s
announce now m deliver s = append_inbox m.to (message_event m) s
announce now m lapse s =
    publish
      (state_failure m.message_id m.state now "target agent did not re-register in grace period")
      m.conversation_id (m.from ∷ m.to ∷ []) now s

unfoldable pub sweep_message :
    ℕ → (ack_timeout : ℕ) → Dict Agent → String → Message → Store → Message × Store
sweep_message now ack_timeout agents key m s =
    let v = verdict now ack_timeout agents m in (settle now m v, announce now m v s)

unfoldable pub sweep_messages : ℕ → Store → Store
sweep_messages now s =
    let (messages, s') = sweep_values (sweep_message now s.cfg.ack_timeout s.agents) s.messages s in
    record s' { messages = messages }

-- The sweep is skipped within SweepMinInterval of the last one.
unfoldable pub sweep_due : ℕ → Store → Bool
sweep_due now s = not (
    ltb 0 s.cfg.sweep_min_interval
    && not (is_zero s.last_sweep_at)
    && younger_than now s.last_sweep_at s.cfg.sweep_min_interval)

-- sweepLocked
unfoldable pub sweep : ℕ → Store → Store
sweep now s =
    if sweep_due now s
    then prune now (
        sweep_messages now (
          expire_agents now
            (forget_keys now (record s { last_sweep_at = now; sweep_ran = suc s.sweep_ran }))))
    else record s { sweep_skipped = suc s.sweep_skipped }
