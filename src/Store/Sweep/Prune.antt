-- ===== src/Store/Sweep/Prune.antt =====
-- pruneLocked of pkg/bus/store.go.
use pinakes.Base.{ℕ, String, Bool, true, false, not, ◌&&◌, ◌||◌, List, [], ◌∷◌, ltb, if◌then◌else◌}
use pinakes.Base.Dict.{Dict, lookup, lookup_or, keep_if, remove}
use pinakes.Types.{Agent, Message, Conversation}
use pinakes.Config.{Config}
use pinakes.Store.{Store, is_zero, older_than}
use pinakes.Store.Status.{is_terminal, is_active}
use pinakes.Scope.{is_some}

unfoldable pub prunes_message : ℕ → Config → Message → Bool
prunes_message now cfg m =
    if ltb 0 cfg.message_max_age && older_than now m.created_at cfg.message_max_age
    then true
    else if ltb 0 cfg.message_retention && is_terminal m.state
    then (let terminal_at = if is_zero m.terminal_at then m.created_at else m.terminal_at in
        older_than now terminal_at cfg.message_retention)
    else false

unfoldable pub prune_messages : ℕ → Store → Store
prune_messages now s =
    if ltb 0 s.cfg.message_retention || ltb 0 s.cfg.message_max_age
    then record s { messages = keep_if (λ m. not (prunes_message now s.cfg m)) s.messages }
    else s

-- Whether one of the ids is that of a message.
unfoldable pub any_live : Dict Message → List String → Bool
any_live messages [] = false
any_live messages (id ∷ rest) = is_some (lookup id messages) || any_live messages rest

unfoldable pub prunes_conversation : ℕ → Store → String → Conversation → Bool
prunes_conversation now s id c =
    older_than now c.last_message_at s.cfg.conversation_retention
    && not (any_live s.messages (lookup_or [] id s.conversation_messages))

unfoldable pub prune_conversations : ℕ → Dict Conversation → Store → Store
prune_conversations now [] s = s
prune_conversations now ((id, c) ∷ rest) s = prune_conversations now rest (
    if prunes_conversation now s id c
    then record s {
      conversations = remove id s.conversations;
      conversation_messages = remove id s.conversation_messages;
    }
    else s)

unfoldable pub prune_agents : ℕ → Dict Agent → Store → Store
prune_agents now [] s = s
prune_agents now ((id, a) ∷ rest) s = prune_agents now rest (
    if not (is_active a.status) && older_than now a.expires_at s.cfg.agent_retention
    then record s {
      agents = remove id s.agents;
      inboxes = remove id s.inboxes;
      inbox_base = remove id s.inbox_base;
      inbox_bytes = remove id s.inbox_bytes;
    }
    else s)

unfoldable pub prune_idle : ℕ → Store → Store
prune_idle now s =
    if ltb 0 s.cfg.conversation_retention then prune_conversations now s.conversations s else s

unfoldable pub prune_expired : ℕ → Store → Store
prune_expired now s = if ltb 0 s.cfg.agent_retention then prune_agents now s.agents s else s

unfoldable pub prune : ℕ → Store → Store
prune now s = prune_expired now (prune_idle now (prune_messages now s))
