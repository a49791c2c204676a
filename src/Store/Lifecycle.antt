-- ===== src/Store/Lifecycle.antt =====
-- Ack and PostEvent of pkg/bus/store.go: what the target of a request reports of it.
pub mod Laws
pub mod Moves
pub mod Rate
use pinakes.Base.{
  ℕ, ◌+◌, ◌-◌, String, Bool, true, false, not, ◌&&◌, ◌||◌, List, [], ◌∷◌, Option, none, some, ◌==◌,
  if◌then◌else◌,
}
use pinakes.Base.Dict.{lookup, insert}
use pinakes.Text.{trim_space}
use pinakes.Types.{
  Message, MessageState, pending, waiting, executing, completed, rejected, error, AckInput,
  EventInput, state_change, state_result,
}
use pinakes.Types
use pinakes.Errors
use pinakes.Errors.{
  Result, ok, err, fail, new_error, validation, unauthorized, not_found, rate_limited, reject_if,
  ◌>>=◌, ◌>>◌,
}
use pinakes.Store.{Store, Operation, try, guarded, is_zero, younger_than}
use pinakes.Store.Status.{is_terminal, is_request, is_waiting}
use pinakes.Store.Observe.{publish}
use pinakes.Store.Sweep.{sweep}
use pinakes.Store.Acceptance.{Barrier}

abbrev found : Option Message → Result Message
found none = fail not_found "message not found"
found (some m) = ok m

-- `*m = next`, where m is the message under the id
unfoldable pub put_message : String → Message → Store → Store
put_message id m s = record s { messages = insert id m s.messages }

unfoldable pub check_ack : AckInput → Result (Unit {0})
check_ack input = do
  let status = trim_space input.status
  reject_if (trim_space input.agent_id == "" || trim_space input.message_id == "") validation
      "agent_id and message_id are required"
  reject_if (not (status == "accepted") && not (status == "rejected")) validation
      "status must be accepted or rejected"

-- The message that the agent may ack.
unfoldable pub ack_target : AckInput → Store → Result Message
ack_target input s = do
  m ← found (lookup (trim_space input.message_id) s.messages)
  reject_if (not (is_request m.type)) validation "acks only apply to request messages"
  reject_if (not (m.to == trim_space input.agent_id)) unauthorized
      "agent_id does not own this message"
  ok m

unfoldable pub acked : ℕ → String → Message → Message
acked now status m =
    let delivered = if is_zero m.delivered_at then now else m.delivered_at in
    if status == "rejected"
    then record m {
      queued_for_agent = false;
      delivered_at = delivered;
      state = rejected;
      terminal_at = now;
    }
    else record m { queued_for_agent = false; delivered_at = delivered; state = executing }

unfoldable pub finish_ack : ℕ → AckInput → Message → Message → Store → Store
finish_ack now input m next s =
    let between = next.from ∷ next.to ∷ [] in
    publish (state_change next.message_id m.state next.state now) next.conversation_id between now (
      publish (Types.ack next.message_id (trim_space input.agent_id) (trim_space input.status) now)
        next.conversation_id between now (put_message (trim_space input.message_id) next s))

unfoldable pub ack_to : ℕ → AckInput → Barrier Message → Message → Operation (Unit {0})
ack_to now input commit m s =
    let next = acked now (trim_space input.status) m in
    if is_terminal m.state
    then (ok tt, s)
    else guarded (commit next) (λ (s : Store). (ok tt, finish_ack now input m next s)) s

unfoldable pub ack_locked : ℕ → AckInput → Barrier Message → Operation (Unit {0})
ack_locked now input commit s = try (ack_target input s) (ack_to now input commit) s

unfoldable pub ack : ℕ → AckInput → Barrier Message → Operation (Unit {0})
ack now input commit s =
    guarded (check_ack input) (λ (s : Store). ack_locked now input commit (sweep now s)) s

pub data EventKind : Type 0 where
  progress final failed : EventKind

unfoldable pub parse_event_kind : String → Result EventKind
parse_event_kind raw =
    if raw == "progress"
    then ok progress
    else if raw == "final"
    then ok final
    else if raw == "error"
    then ok failed
    else fail validation "type must be progress, final, or error"

unfoldable pub check_event : EventInput → Result EventKind
check_event input = do
  reject_if (trim_space input.actor_agent_id == "") unauthorized "X-Agent-ID is required"
  reject_if
      (trim_space input.message_id == ""
        || trim_space input.type == ""
        || trim_space input.body == "")
      validation "message_id, type, and body are required"
  parse_event_kind (trim_space input.type)

unfoldable pub event_target : EventInput → Store → Result Message
event_target input s = do
  m ← found (lookup (trim_space input.message_id) s.messages)
  reject_if (not (m.to == trim_space input.actor_agent_id)) unauthorized
      "actor does not own this message"
  reject_if (not (is_request m.type)) validation "events only apply to request messages"
  ok m

-- The message after an event, or the refusal of progress that comes too soon.
unfoldable pub advanced : ℕ → (min_interval : ℕ) → EventKind → Message → Result Message
advanced now min_interval progress m =
    if not (is_zero m.last_progress_at) && younger_than now m.last_progress_at min_interval
    then err (
        new_error rate_limited "progress event too frequent" true
          (min_interval + m.last_progress_at - now))
    else ok (record m {
      state = if is_waiting m.state then executing else m.state;
      last_progress_at = now;
    })
advanced now min_interval final m = ok (record m { state = completed; terminal_at = now })
advanced now min_interval failed m = ok (record m { state = error; terminal_at = now })

-- Whether a progress event changes the state: it does so only from waiting.
abbrev pub starts_execution : MessageState → Bool
starts_execution = is_waiting

unfoldable pub publish_event : ℕ → EventInput → EventKind → Message → Message → Store → Store
publish_event now input progress m next s =
    let between = next.from ∷ next.to ∷ [] in
    let changed =
      if starts_execution m.state
      then publish (state_change next.message_id m.state next.state now) next.conversation_id
          between now s
      else s in
    publish (Types.progress next.message_id (trim_space input.body) input.meta now)
      next.conversation_id between now changed
publish_event now input kind m next s =
    publish (state_result next.message_id m.state next.state now (trim_space input.body) input.meta)
      next.conversation_id (next.from ∷ next.to ∷ []) now s

unfoldable pub post_to :
    ℕ → EventInput → EventKind → Barrier Message → Message → Operation (Unit {0})
post_to now input kind commit m s =
    if is_terminal m.state
    then (commit m, s)
    else try (advanced now s.cfg.progress_min_interval kind m)
        (λ next. guarded (commit next) (λ (s : Store). (
          ok tt,
          publish_event now input kind m next (put_message (trim_space input.message_id) next s),
        )))
        s

unfoldable pub post_locked : ℕ → EventInput → EventKind → Barrier Message → Operation (Unit {0})
post_locked now input kind commit s = try (event_target input s) (post_to now input kind commit) s

unfoldable pub post_event : ℕ → EventInput → Barrier Message → Operation (Unit {0})
post_event now input commit s =
    try (check_event input) (λ kind (s : Store). post_locked now input kind commit (sweep now s)) s
