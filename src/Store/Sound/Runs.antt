-- ===== src/Store/Sound/Runs.antt =====
-- A property of the messages that each change of them keeps holds along every run of the store.
use pinakes.Base.{ℕ, ◌≡◌, true, false, if_keeps, none, some, String, [], arith, ◌==◌}
use pinakes.Base.Int.{ℤ}
use pinakes.Base.Dict.{Dict, lookup, insert}
use pinakes.Text.{trim_space}
use pinakes.Types.{
  Agent, Message, Conversation, RegisterAgentInput, CreateConversationInput, SendMessageInput,
  AckInput, EventInput, InjectInput,
}
use pinakes.Errors.{Result, ok}
use pinakes.Store.{Store}
use pinakes.Store.Status.{is_terminal, is_request}
use pinakes.Store.Conversations.{ensure_conversation, open_conversation, create_new, reuse}
use pinakes.Store.Listing.{create_conversation}
use pinakes.Store.Register.{register_agent, register_locked, add_agent, open_inbox}
use pinakes.Store.Acceptance.{SendAcceptance, Barrier, publish_message}
use pinakes.Store.Send.{SendRequest, send_message, send_locked, send_once, send_new, accept}
use pinakes.Store.Inject.{inject, inject_locked, accept_injection}
use pinakes.Store.Poll.{Advance, poll_round, read_inbox, answer_from}
use pinakes.Store.Lifecycle.{
  EventKind, progress, put_message, finish_ack, ack_to, ack_locked, ack, advanced, publish_event,
  post_to, post_locked, post_event,
}
use pinakes.Store.Lifecycle.Laws.{ack_target_lem, event_target_lem}
use pinakes.Store.Sound.Sending.{plan_send-IsNext, plan_inject-IsNext}
use pinakes.Store.Sound.Operations.{IsNext}
use pinakes.Store.Sound.Reach.{
  Step, registers, creates, sends, injects, polls, acks, posts, sweeps, Reach, start, next,
}
use pinakes.Store.Sound.History.{
  Rule, Keeps, keeping, kept, by_ack, by_event, publish-Keeps, drop_inbox_prefix-Keeps,
  schedule_push-Keeps, sweep-Keeps, install-Keeps, put_message-Keeps,
}

module _ {ℓ} {P : ℕ → Dict Message → Type ℓ} where
  open_inbox-Keeps : (a : String) (s : Store) → Keeps P s → Keeps P (open_inbox a s)
  unfolding open_inbox
  open_inbox-Keeps a s h =
      elim (lookup a s.inboxes)
        as (λ x. Keeps P (elim x as (λ y. Store) [
          | none ↦ record s {
            inboxes = insert a [] s.inboxes;
            inbox_base = insert a 0 s.inbox_base;
            inbox_bytes = insert a 0 s.inbox_bytes;
          }
          | some events ↦ s
        ])) [ some events ↦ h | none ↦ keeping ((kept h)) ]

  add_agent-Keeps : (now : ℕ) (a : Agent) (s : Store) → Keeps P s → Keeps P (add_agent now a s).1
  unfolding add_agent
  add_agent-Keeps now a s h =
      publish-Keeps _ _ _ now _ (open_inbox-Keeps a.agent_id _ (keeping ((kept h))))

  create_new-Keeps :
      (input : CreateConversationInput) (id : String) (now : ℕ) (s : Store)
      → Keeps P s
      → Keeps P (create_new input id now s).1
  unfolding create_new
  create_new-Keeps input id now s h = keeping ((kept h))

  reuse-Keeps :
      (c : Conversation) (input : CreateConversationInput) (id : String) (s : Store)
      → Keeps P s
      → Keeps P (reuse c input id s).1
  unfolding reuse
  reuse-Keeps c input id s h = keeping ((kept h))

  open_conversation-Keeps :
      (input : CreateConversationInput) (id : String) (now : ℕ) (s : Store)
      → Keeps P s
      → Keeps P (open_conversation input id now s).1
  unfolding open_conversation
  open_conversation-Keeps input id now s h = grind (arith, create_new-Keeps, reuse-Keeps)

  ensure_conversation-Keeps :
      (input : CreateConversationInput) (now : ℕ) (s : Store)
      → Keeps P s
      → Keeps P (ensure_conversation input now s).1
  unfolding ensure_conversation
  ensure_conversation-Keeps input now s h =
      if_keeps (λ (r : Result Conversation × Store). Keeps P r.1)
        (trim_space input.conversation_id == "") _ _
        (open_conversation-Keeps input _ now _ (keeping ((kept h))))
        (open_conversation-Keeps input (trim_space input.conversation_id) now s h)

  publish_event-Keeps :
      (now : ℕ) (input : EventInput) (kind : EventKind) (m to : Message) (s : Store)
      → Keeps P s
      → Keeps P (publish_event now input kind m to s)
  unfolding publish_event
  publish_event-Keeps now input progress m to s h =
      publish-Keeps _ _ _ now _ (if_keeps (Keeps P) _ _ s (publish-Keeps _ _ _ now s h) h)
  publish_event-Keeps now input _ m to s h = publish-Keeps _ _ _ now s h

  read_inbox-Keeps :
      (a : String) (raw limit : ℤ) (advance : Advance) (s : Store)
      → Keeps P s
      → Keeps P (read_inbox a raw limit advance s).1
  unfolding read_inbox answer_from
  read_inbox-Keeps a raw limit advance s h = grind (arith, drop_inbox_prefix-Keeps {P = P})

module _ {ℓ} {P : ℕ → Dict Message → Type ℓ} (rule : Rule P) where
  register_agent-Keeps :
      (now : ℕ) (input : RegisterAgentInput) (s : Store)
      → Keeps P s
      → Keeps P (register_agent now input s).1
  unfolding register_agent register_locked
  register_agent-Keeps now input s h = grind (arith, sweep-Keeps rule, add_agent-Keeps {P = P})

  create_conversation-Keeps :
      (now : ℕ) (input : CreateConversationInput) (s : Store)
      → Keeps P s
      → Keeps P (create_conversation now input s).1
  unfolding create_conversation
  create_conversation-Keeps now input s h =
      grind (arith, sweep-Keeps rule, ensure_conversation-Keeps {P = P})

  accept-Keeps :
      (now : ℕ) (a : SendAcceptance) (s : Store) → IsNext s a → Keeps P s → Keeps P (accept now a s)
  unfolding accept publish_message
  accept-Keeps now a s is_next h =
      schedule_push-Keeps a.push_job _
        (publish-Keeps _ _ _ now _ (install-Keeps rule a s is_next h))

  send_new-Keeps :
      (now : ℕ) (input : SendMessageInput) (r : SendRequest) (commit : Barrier SendAcceptance)
      (target : Agent) (s : Store)
      → Keeps P s
      → Keeps P (send_new now input r commit target s).1
  unfolding send_new
  send_new-Keeps now input r commit target s h =
      grind (arith, accept-Keeps, plan_send-IsNext now input r s target)

  send_message-Keeps :
      (now : ℕ) (input : SendMessageInput) (commit : Barrier SendAcceptance) (s : Store)
      → Keeps P s
      → Keeps P (send_message now input commit s).1
  unfolding send_message send_locked send_once
  send_message-Keeps now input commit s h = grind (arith, send_new-Keeps, sweep-Keeps rule)

  accept_injection-Keeps :
      (now : ℕ) (input : InjectInput) (a : SendAcceptance) (s : Store)
      → IsNext s a
      → Keeps P s
      → Keeps P (accept_injection now input a s)
  unfolding accept_injection publish_message
  accept_injection-Keeps now input a s is_next h =
      schedule_push-Keeps a.push_job _
        (publish-Keeps _ _ _ now _ (publish-Keeps _ _ _ now _ (install-Keeps rule a s is_next h)))

  inject_locked-Keeps :
      (now : ℕ) (input : InjectInput) (commit : Barrier SendAcceptance) (s : Store)
      → Keeps P s
      → Keeps P (inject_locked now input commit s).1
  unfolding inject_locked
  inject_locked-Keeps now input commit s h =
      grind (arith, accept_injection-Keeps, plan_inject-IsNext now input s)

  inject-Keeps :
      (now : ℕ) (input : InjectInput) (commit : Barrier SendAcceptance) (s : Store)
      → Keeps P s
      → Keeps P (inject now input commit s).1
  unfolding inject
  inject-Keeps now input commit s h = grind (arith, inject_locked-Keeps, sweep-Keeps rule)

  poll_round-Keeps :
      (now : ℕ) (a : String) (cursor limit : ℤ) (advance : Advance) (s : Store)
      → Keeps P s
      → Keeps P (poll_round now a cursor limit advance s).1
  unfolding poll_round
  poll_round-Keeps now a cursor limit advance s h =
      grind (arith, read_inbox-Keeps {P = P}, sweep-Keeps rule)

  ack_to-Keeps :
      (now : ℕ) (input : AckInput) (commit : Barrier Message) (m : Message) (s : Store)
      → Keeps P s
      → lookup (trim_space input.message_id) s.messages ≡ some m
      → is_request m.type ≡ true
      → Keeps P (ack_to now input commit m s).1
  unfolding ack_to finish_ack
  ack_to-Keeps now input commit m s h found asks =
      grind (arith, publish-Keeps {P = P}, put_message-Keeps rule, by_ack)

  ack-Keeps :
      (now : ℕ) (input : AckInput) (commit : Barrier Message) (s : Store)
      → Keeps P s
      → Keeps P (ack now input commit s).1
  unfolding ack ack_locked
  ack-Keeps now input commit s h =
      grind (arith, ack_to-Keeps, ack_target_lem input, sweep-Keeps rule)

  store_event-Keeps :
      (now gap : ℕ) (input : EventInput) (kind : EventKind) (m to : Message) (s : Store)
      → Keeps P s
      → lookup (trim_space input.message_id) s.messages ≡ some m
      → is_request m.type ≡ true
      → is_terminal m.state ≡ false
      → advanced now gap kind m ≡ ok to
      → Keeps P (publish_event now input kind m to (put_message (trim_space input.message_id) to s))
  store_event-Keeps now gap input kind m to s h found asks going moved =
      publish_event-Keeps now input kind m to _ (
        put_message-Keeps rule (trim_space input.message_id) m to s found
          (by_event now gap kind to asks going moved) h)

  post_to-Keeps :
      (now : ℕ) (input : EventInput) (kind : EventKind) (commit : Barrier Message) (m : Message)
      (s : Store)
      → Keeps P s
      → lookup (trim_space input.message_id) s.messages ≡ some m
      → is_request m.type ≡ true
      → Keeps P (post_to now input kind commit m s).1
  unfolding post_to
  post_to-Keeps now input kind commit m s h found asks = grind (arith, store_event-Keeps)

  post_event-Keeps :
      (now : ℕ) (input : EventInput) (commit : Barrier Message) (s : Store)
      → Keeps P s
      → Keeps P (post_event now input commit s).1
  unfolding post_event post_locked
  post_event-Keeps now input commit s h =
      grind (arith, post_to-Keeps, event_target_lem input, sweep-Keeps rule)

  Step-Keeps : {s t : Store} → Step s t → Keeps P s → Keeps P t
  Step-Keeps {s} (registers now input) h = register_agent-Keeps now input s h
  Step-Keeps {s} (creates now input) h = create_conversation-Keeps now input s h
  Step-Keeps {s} (sends now input commit) h = send_message-Keeps now input commit s h
  Step-Keeps {s} (injects now input commit) h = inject-Keeps now input commit s h
  Step-Keeps {s} (polls now a cursor limit advance) h =
      poll_round-Keeps now a cursor limit advance s h
  Step-Keeps {s} (acks now input commit) h = ack-Keeps now input commit s h
  Step-Keeps {s} (posts now input commit) h = post_event-Keeps now input commit s h
  Step-Keeps {s} (sweeps now) h = sweep-Keeps rule now s h

  -- Every run keeps a property of the messages that each change of them keeps.
  pub Reach-Keeps : {s t : Store} → Reach s t → Keeps P s → Keeps P t
  Reach-Keeps start h = h
  Reach-Keeps (next r step) h = Step-Keeps step (Reach-Keeps r h)
