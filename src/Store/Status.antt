-- ===== src/Store/Status.antt =====
-- Tests on the states and types of messages and agents.
use pinakes.Base.{Bool, true, false}
use pinakes.Types.{
  AgentStatus, active, expired, MessageType, request, response, inform, MessageState, pending,
  waiting, executing, completed, rejected, error,
}

abbrev pub is_terminal : MessageState → Bool
is_terminal completed = true
is_terminal rejected = true
is_terminal error = true
is_terminal pending = false
is_terminal waiting = false
is_terminal executing = false

abbrev pub is_request : MessageType → Bool
is_request request = true
is_request response = false
is_request inform = false

abbrev pub is_waiting : MessageState → Bool
is_waiting waiting = true
is_waiting _ = false

abbrev pub is_active : AgentStatus → Bool
is_active active = true
is_active expired = false
