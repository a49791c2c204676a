-- ===== src/Store/Sound/Operations.antt =====
-- Every operation keeps the invariant of the store.
use pinakes.Base.{
  ℕ, suc, ◌+◌, ◌≡◌, refl, Option, none, some, String, List, [], ◌∷◌, arith, Option-cases,
  Bool-cases, inl, inr, if_keeps, ltb, length, total, ◌==◌,
}
use pinakes.Base.Dict.{Dict, lookup, lookup_or, insert}
use pinakes.Base.Dict.Laws.{Entries, Entries-insert, lookup_or-insert}
use pinakes.Types.{
  EventData, Agent, Message, Conversation, InboxEvent, RegisterAgentInput, CreateConversationInput,
}
use pinakes.Text.{trim_space}
use pinakes.Errors.{Result}
use pinakes.Store.{Store, PushJob}
use pinakes.Store.Inbox.{inbox_event_size}
use pinakes.Store.Inbox.Laws.{IsAccounted}
use pinakes.Store.Push.{enqueue_push_job}
use pinakes.Store.Conversations.{
  conversation_id, ensure_conversation, open_conversation, create_new, reuse,
}
use pinakes.Store.Observe.{publish}
use pinakes.Store.Listing.{create_conversation}
use pinakes.Store.Sweep.{sweep}
use pinakes.Store.Register.{register_agent, register_locked, add_agent, open_inbox}
use pinakes.Store.Acceptance.{
  SendAcceptance, install, hand_in, publish_message, schedule_push, message_id,
}
use pinakes.Store.Sound.{IsNumbered, IsSound}
use pinakes.Store.Sound.Parts.{sweep-IsSound, publish-IsSound, append_inbox-IsSound}

-- The invariant as a record, so that a goal shows the operation that it is about.
pub record Sound (s : Store) : Type 0 where
  pub holds : IsSound s

-- A new inbox is empty, and so is its account.
open_inbox-Sound : (a : String) (s : Store) → Sound s → Sound (open_inbox a s)
unfolding open_inbox
open_inbox-Sound a s h = elim (Option-cases (lookup a s.inboxes)) [
  | inr (events, e) ↦ rw (e, open_inbox) h
  | inl e ↦
      rw (e, open_inbox) (record { holds = (λ b. opened a b s h.holds.0, h.holds.1, h.holds.2) })
]
  where
    opened :
        (a b : String) (s : Store)
        → IsAccounted s
        → lookup_or 0 b (insert a 0 s.inbox_bytes)
          ≡ total inbox_event_size (lookup_or [] b (insert a [] s.inboxes))
    opened a b s acc =
        rw (lookup_or-insert 0 a b 0 s.inbox_bytes, lookup_or-insert [] a b [] s.inboxes)
          (elim (Bool-cases (a == b)) [ inl same ↦ rw same | inr other ↦ rw other (acc b) ])

add_agent-Sound : (now : ℕ) (a : Agent) (s : Store) → Sound s → Sound (add_agent now a s).1
unfolding add_agent
add_agent-Sound now a s h = record {
  holds =
      publish-IsSound _ _ _ now _
        (open_inbox-Sound a.agent_id _ (record { holds = h.holds })).holds;
}

pub sweep-Sound : (now : ℕ) (s : Store) → Sound s → Sound (sweep now s)
sweep-Sound now s h = record { holds = sweep-IsSound now s h.holds }

pub register_agent-Sound :
    (now : ℕ) (input : RegisterAgentInput) (s : Store)
    → Sound s
    → Sound (register_agent now input s).1
unfolding register_agent register_locked
register_agent-Sound now input s h = grind (arith, sweep-Sound, add_agent-Sound)

pub publish-Sound :
    (c : EventData) (cid : String) (ids : List String) (at : ℕ) (s : Store)
    → Sound s
    → Sound (publish c cid ids at s)
publish-Sound c cid ids at s h = record { holds = publish-IsSound c cid ids at s h.holds }

create_new-Sound :
    (input : CreateConversationInput) (id : String) (now : ℕ) (s : Store)
    → Sound s
    → Sound (create_new input id now s).1
unfolding create_new
create_new-Sound input id now s h = record { holds = h.holds }

reuse-Sound :
    (c : Conversation) (input : CreateConversationInput) (id : String) (s : Store)
    → Sound s
    → Sound (reuse c input id s).1
unfolding reuse
reuse-Sound c input id s h = record { holds = h.holds }

open_conversation-Sound :
    (input : CreateConversationInput) (id : String) (now : ℕ) (s : Store)
    → Sound s
    → Sound (open_conversation input id now s).1
unfolding open_conversation
open_conversation-Sound input id now s h = grind (arith, create_new-Sound, reuse-Sound)

ensure_conversation-Sound :
    (input : CreateConversationInput) (now : ℕ) (s : Store)
    → Sound s
    → Sound (ensure_conversation input now s).1
unfolding ensure_conversation
ensure_conversation-Sound input now s h =
    if_keeps (λ (r : Result Conversation × Store). Sound r.1)
      (trim_space input.conversation_id == "") _ _
      (open_conversation-Sound input (conversation_id (suc s.next_conversation_id)) now _
        (record { holds = h.holds }))
      (open_conversation-Sound input (trim_space input.conversation_id) now s h)

pub create_conversation-Sound :
    (now : ℕ) (input : CreateConversationInput) (s : Store)
    → Sound s
    → Sound (create_conversation now input s).1
unfolding create_conversation
create_conversation-Sound now input s h = grind (arith, sweep-Sound, ensure_conversation-Sound)

-- The message of a plan carries the next number.
abbrev pub IsNext : Store → SendAcceptance → Type 0
IsNext s a =
    (a.next_message_id ≡ s.next_message_id + 1)
    × (a.message.message_id ≡ message_id a.next_message_id)

hand_in-Sound : (to : String) (e : Option InboxEvent) (s : Store) → Sound s → Sound (hand_in to e s)
hand_in-Sound to none s h = h
hand_in-Sound to (some e) s h = record { holds = append_inbox-IsSound to e s h.holds }

IsNumbered-later :
    (n : ℕ) (m : Dict Message) → Entries (IsNumbered n) m → Entries (IsNumbered (n + 1)) m
IsNumbered-later n [] h = h
IsNumbered-later n ((k, m) ∷ rest) h = (
  record {
    own_key = h.0.own_key;
    number = h.0.number;
    printed = h.0.printed;
    given = omega (arith, h.0.given);
  },
  IsNumbered-later n rest h.1,
)

pub install-Sound : (a : SendAcceptance) (s : Store) → IsNext s a → Sound s → Sound (install a s)
unfolding install
install-Sound a s next h = hand_in-Sound a.message.to a.inbox_event _ (record {
  holds = (
    h.holds.0,
    h.holds.1,
    rw next.0 (
        Entries-insert (IsNumbered (s.next_message_id + 1)) a.message.message_id a.message
          s.messages
          (record {
            own_key = refl;
            number = a.next_message_id;
            printed = next.1;
            given = omega (arith, next.0);
          })
          (IsNumbered-later s.next_message_id s.messages h.holds.2)),
  );
})

pub schedule_push-Sound : (job : Option PushJob) (s : Store) → Sound s → Sound (schedule_push job s)
unfolding schedule_push enqueue_push_job
schedule_push-Sound none s h = h
schedule_push-Sound (some job) s h =
    let same = λ (r : Option String × Store). Sound r.1 in
    if_keeps same s.push_closed _ _ (record { holds = h.holds })
      (if_keeps same (ltb (length s.push_queue) s.cfg.push_queue_size) _ _
        (record { holds = h.holds }) (record { holds = h.holds }))

pub publish_message-Sound :
    (m : Message) (now : ℕ) (s : Store) → Sound s → Sound (publish_message m now s)
unfolding publish_message
publish_message-Sound m now s h = publish-Sound _ _ _ now s h
