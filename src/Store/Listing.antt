-- ===== src/Store/Listing.antt =====
-- The queries of pkg/bus/store.go: the agents, the conversations, the messages of a conversation, the
-- counts.
use Prim.Native.String.{compare as compare_text}
use Prim.Native.Nat.{Ordering}
use pinakes.Base.{
  ℕ, zero, suc, ◌+◌, ◌-◌, String, Bool, true, false, not, ◌&&◌, ◌||◌, List, [], ◌∷◌, none, some,
  contains, select, take, drop, length, leb, ltb, ◌==◌, if◌then◌else◌,
}
use pinakes.Base.Int.{ℤ, pos, negsuc}
use pinakes.Base.Dict.{Dict, lookup, lookup_or}
use pinakes.Text.{trim_space}
use pinakes.Types.{
  Agent, Conversation, Message, ListConversationsFilter, ListConversationMessagesInput,
  CreateConversationInput,
}
use pinakes.Errors.{ok, fail, validation, not_found}
use pinakes.Store.{Store, Operation, guarded}
use pinakes.Store.Status.{is_active}
use pinakes.Store.Access.{actor_can_access_conversation}
use pinakes.Store.Conversations.{check_participants, ensure_conversation}
use pinakes.Store.Sweep.{sweep}

-- The values of a map, in the order of the association list.
abbrev pub values {ℓ} : {V : Type ℓ} → Dict V → List V
values [] = []
values ((k, v) ∷ m) = v ∷ values m

-- sort.Slice by the order `before`. Items of which neither is before the other keep their order
-- here; Go leaves it open.
module _ {ℓ} {A : Type ℓ} (before : A → A → Bool) where
  unfoldable pub insert_sorted : A → List A → List A
  insert_sorted x [] = x ∷ []
  insert_sorted x (y ∷ ys) = if before y x then y ∷ insert_sorted x ys else x ∷ y ∷ ys

  unfoldable pub sort_slice : List A → List A
  sort_slice [] = []
  sort_slice (x ∷ xs) = insert_sorted x (sort_slice xs)

unfoldable pub offers : String → Agent → Bool
offers capability a = is_active a.status && (capability == "" || contains a.capabilities capability)

abbrev pub agent_before : Agent → Agent → Bool
agent_before a b = elim (compare_text a.agent_id b.agent_id) [ Ordering.lt ↦ true | _ ↦ false ]

unfoldable pub list_agents : ℕ → String → Store → List Agent × Store
list_agents now capability s =
    let swept = sweep now s in
    (sort_slice agent_before (select (offers (trim_space capability)) (values swept.agents)), swept)

unfoldable pub create_conversation : ℕ → CreateConversationInput → Operation Conversation
create_conversation now input s =
    guarded (check_participants s.cfg input.participants)
      (λ (s : Store). ensure_conversation input now (sweep now s)) s

unfoldable pub lists_conversation : Store → ListConversationsFilter → Conversation → Bool
lists_conversation s filter c =
    let participant = trim_space filter.participant in
    let status = trim_space filter.status in
    (status == "" || c.status == status)
    && actor_can_access_conversation s.cfg (trim_space filter.actor_agent_id) c
    && (participant == "" || contains c.participants participant)

abbrev pub created_before : Conversation → Conversation → Bool
created_before a b = ltb a.created_at b.created_at

unfoldable pub list_conversations : ℕ → ListConversationsFilter → Store → List Conversation × Store
list_conversations now filter s =
    let swept = sweep now s in
    (
      sort_slice created_before
          (select (lists_conversation swept filter) (values swept.conversations)),
      swept,
    )

-- The page size: 50 where none is asked for, and 200 at most.
unfoldable pub page_limit : ℤ → ℕ
page_limit (pos zero) = 50
page_limit (pos (suc n)) = if leb (suc n) 200 then suc n else 200
page_limit (negsuc n) = 50

-- A cursor brought into 0 .. length.
unfoldable pub clamp_cursor : ℤ → ℕ → ℕ
clamp_cursor (negsuc n) size = 0
clamp_cursor (pos n) size = if leb n size then n else size

-- The messages that are still there, in order.
unfoldable pub messages_of : Dict Message → List String → List Message
messages_of messages [] = []
messages_of messages (id ∷ rest) =
    let others = messages_of messages rest in
    elim (lookup id messages) [ none ↦ others | some m ↦ m ∷ others ]

unfoldable pub page : Store → Conversation → ℤ → ℤ → String × List Message × ℕ
page s conv cursor limit =
    let ids = lookup_or [] conv.conversation_id s.conversation_messages in
    let start = clamp_cursor cursor (length ids) in
    let past = start + page_limit limit in
    let end = if leb past (length ids) then past else length ids in
    (conv.conversation_id, messages_of s.messages (take (end - start) (drop start ids)), end)

unfoldable pub list_page : ListConversationMessagesInput → Operation (String × List Message × ℕ)
list_page input s = elim (lookup input.conversation_id s.conversations) [
  | none ↦ (fail not_found "conversation not found", s)
  | some conv ↦
      if actor_can_access_conversation s.cfg (trim_space input.actor_agent_id) conv
      then (ok (page s conv input.cursor input.limit), s)
      else (fail not_found "conversation not found", s)
]

unfoldable pub list_conversation_messages :
    ℕ → ListConversationMessagesInput → Operation (String × List Message × ℕ)
list_conversation_messages now input s =
    if trim_space input.conversation_id == ""
    then (fail validation "conversation_id is required", s)
    else list_page input (sweep now s)

pub record SnapshotCounts : Type 0 where
  pub active : ℕ
  pub expired : ℕ
  pub conversations : ℕ
  pub messages : ℕ
  pub observe_events : ℕ
  pub push_successes : ℕ
  pub push_failures : ℕ

unfoldable pub snapshot_counts : ℕ → Store → SnapshotCounts × Store
snapshot_counts now s =
    let swept = sweep now s in
    (
      record {
        active = length (select (λ (a : Agent). is_active a.status) (values swept.agents));
        expired = length (select (λ (a : Agent). not (is_active a.status)) (values swept.agents));
        conversations = length swept.conversations;
        messages = length swept.messages;
        observe_events = length swept.observe_events;
        push_successes = swept.push_successes;
        push_failures = swept.push_failures;
      },
      swept,
    )
