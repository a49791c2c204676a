-- ===== src/Store/Lifecycle/Laws.antt =====
-- Ack and PostEvent: who may report on a request, what a report does to it, and what a refusal leaves.
use pinakes.Base.{
  ℕ, ◌≡◌, ◌⊎◌, inl, inr, true, false, some, String, arith, eq_iff, if◌then◌else◌, if_keeps,
  Bool-cases,
}
use pinakes.Base.Dict.{lookup}
use pinakes.Base.Dict.Laws.{lookup-insert_self}
use pinakes.Text.{trim_space}
use pinakes.Types.{Message, MessageState, pending, waiting, executing, AckInput, EventInput}
use pinakes.Errors.{ok, err, Error}
use pinakes.Store.{Store}
use pinakes.Store.Status.{is_terminal, is_request}
use pinakes.Store.Observe.Laws.{messages-publish}
use pinakes.Store.Sweep.{sweep}
use pinakes.Store.Acceptance.{Barrier}
use pinakes.Store.Lifecycle.{
  put_message, ack_target, acked, finish_ack, ack_to, ack_locked, ack, EventKind, progress, final,
  failed, event_target, advanced, publish_event, starts_execution, post_to, post_locked, post_event,
}

-- What a report that was taken has done: the reporter is the target of the request, and the message is
-- as before if it had ended, and as `next` says if it had not.
pub record Reported (agent_id message_id : String) (next : Message → Message → Type 0) (s t : Store)
    : Type 0 where
  pub message : Message
  pub found : lookup message_id s.messages ≡ some message
  pub owner : message.to ≡ agent_id
  pub asks : is_request message.type ≡ true
  pub outcome :
      ((is_terminal message.state ≡ true) × (t ≡ s))
      ⊎ ((is_terminal message.state ≡ false)
          × (m : Message) × next message m
          × (lookup message_id t.messages ≡ some m))

-- The message that an ack may be about.
pub record Target (agent_id message_id : String) (s : Store) (m : Message) : Type 0 where
  pub found : lookup message_id s.messages ≡ some m
  pub owner : m.to ≡ agent_id
  pub asks : is_request m.type ≡ true

pub ack_target_lem :
    (input : AckInput) (s : Store) (m : Message)
    → ack_target input s ≡ ok m
    → Target (trim_space input.agent_id) (trim_space input.message_id) s m
unfolding ack_target
ack_target_lem input s m h = ground (arith, h, eq_iff m.to (trim_space input.agent_id))

pub event_target_lem :
    (input : EventInput) (s : Store) (m : Message)
    → event_target input s ≡ ok m
    → Target (trim_space input.actor_agent_id) (trim_space input.message_id) s m
unfolding event_target
event_target_lem input s m h = ground (arith, h, eq_iff m.to (trim_space input.actor_agent_id))

lookup-finish_ack :
    (now : ℕ) (input : AckInput) (m next : Message) (s : Store)
    → lookup (trim_space input.message_id) (finish_ack now input m next s).messages ≡ some next
unfolding finish_ack put_message
lookup-finish_ack now input m next s = simp (messages-publish, lookup-insert_self)

lookup-publish_event :
    (now : ℕ) (input : EventInput) (kind : EventKind) (m next : Message) (s : Store)
    → lookup
        (trim_space input.message_id)
        (publish_event now input kind m next
          (put_message (trim_space input.message_id) next s)).messages
      ≡ some next
unfolding publish_event put_message
lookup-publish_event now input progress m next s =
    rw (messages-publish _ _ _ now (if starts_execution m.state then _ else _)) (
      if_keeps (λ (t : Store). lookup (trim_space input.message_id) t.messages ≡ some next)
        (starts_execution m.state) _ _ (simp (messages-publish, lookup-insert_self))
        (lookup-insert_self (trim_space input.message_id) next s.messages))
lookup-publish_event now input _ m next s = simp (messages-publish, lookup-insert_self)

-- An ack that fails leaves the store as it was, or as the sweep alone leaves it.
pub ack_refused :
    (now : ℕ) (input : AckInput) (commit : Barrier Message) (s : Store) (e : Error)
    → (ack now input commit s).0 ≡ err e
    → ((ack now input commit s).1 ≡ s) ⊎ ((ack now input commit s).1 ≡ sweep now s)
unfolding ack ack_locked ack_to
ack_refused now input commit s e h = ground (arith, h)

-- An event that fails leaves the store as it was, or as the sweep alone leaves it.
pub post_refused :
    (now : ℕ) (input : EventInput) (commit : Barrier Message) (s : Store) (e : Error)
    → (post_event now input commit s).0 ≡ err e
    → ((post_event now input commit s).1 ≡ s) ⊎ ((post_event now input commit s).1 ≡ sweep now s)
unfolding post_event post_locked post_to
post_refused now input commit s e h = ground (arith, h)

ack_to_lem :
    (now : ℕ) (input : AckInput) (commit : Barrier Message) (s : Store) (m : Message)
    → Target (trim_space input.agent_id) (trim_space input.message_id) s m
    → (ack_to now input commit m s).0 ≡ ok tt
    → Reported
        (trim_space input.agent_id)
        (trim_space input.message_id)
        (λ m next. next ≡ acked now (trim_space input.status) m)
        s
        (ack_to now input commit m s).1
unfolding ack_to
ack_to_lem now input commit s m t h = elim (Bool-cases (is_terminal m.state)) [
  | inl ended ↦ record {
    message = m;
    found = t.found;
    owner = t.owner;
    asks = t.asks;
    outcome = inl (ended, rw ended);
  }
  | inr going ↦ ground (
    arith,
    h,
    going,
    t.found,
    t.owner,
    t.asks,
    lookup-finish_ack now input m (acked now (trim_space input.status) m) s,
  )
]

-- An ack that succeeds under the lock names a request that stands in the store and is addressed
-- to the acking agent. If the request had ended, the store stays as it is; if not, the acked form
-- of the request stands under the id.
pub ack_locked-Reported :
    (now : ℕ) (input : AckInput) (commit : Barrier Message) (s : Store)
    → (ack_locked now input commit s).0 ≡ ok tt
    → Reported
        (trim_space input.agent_id)
        (trim_space input.message_id)
        (λ m next. next ≡ acked now (trim_space input.status) m)
        s
        (ack_locked now input commit s).1
unfolding ack_locked
ack_locked-Reported now input commit s h =
    grind (arith, ack_to_lem now input commit s, ack_target_lem input s)

post_to_lem :
    (now : ℕ) (input : EventInput) (kind : EventKind) (commit : Barrier Message) (s : Store)
    (m : Message)
    → Target (trim_space input.actor_agent_id) (trim_space input.message_id) s m
    → (post_to now input kind commit m s).0 ≡ ok tt
    → Reported
        (trim_space input.actor_agent_id)
        (trim_space input.message_id)
        (λ m next. advanced now s.cfg.progress_min_interval kind m ≡ ok next)
        s
        (post_to now input kind commit m s).1
unfolding post_to
post_to_lem now input kind commit s m t h = elim (Bool-cases (is_terminal m.state)) [
  | inl ended ↦ record {
    message = m;
    found = t.found;
    owner = t.owner;
    asks = t.asks;
    outcome = inl (ended, rw ended);
  }
  | inr going ↦
      grind (arith, h, going, t.found, t.owner, t.asks, lookup-publish_event now input kind m)
]

-- An event that succeeds under the lock names a request that stands in the store and is addressed
-- to the acting agent. If the request had ended, the store stays as it is; if not, the advanced
-- request stands under the id.
pub post_locked-Reported :
    (now : ℕ) (input : EventInput) (kind : EventKind) (commit : Barrier Message) (s : Store)
    → (post_locked now input kind commit s).0 ≡ ok tt
    → Reported
        (trim_space input.actor_agent_id)
        (trim_space input.message_id)
        (λ m next. advanced now s.cfg.progress_min_interval kind m ≡ ok next)
        s
        (post_locked now input kind commit s).1
unfolding post_locked
post_locked-Reported now input kind commit s h =
    grind (arith, post_to_lem now input kind commit s, event_target_lem input s)

-- Where a report may move the state of a request.
abbrev pub Allowed : MessageState → MessageState → Type 0
Allowed pending to = (to ≡ pending) ⊎ (to ≡ executing) ⊎ (is_terminal to ≡ true)
Allowed waiting to = (to ≡ executing) ⊎ (is_terminal to ≡ true)
Allowed executing to = (to ≡ executing) ⊎ (is_terminal to ≡ true)
Allowed ended to = ⊥

pub acked-Allowed :
    (now : ℕ) (status : String) (m : Message)
    → is_terminal m.state ≡ false
    → Allowed m.state (acked now status m).state
unfolding acked
acked-Allowed now status m h = ground (arith, h)

pub advanced-Allowed :
    (now gap : ℕ) (kind : EventKind) (m to : Message)
    → is_terminal m.state ≡ false
    → advanced now gap kind m ≡ ok to
    → Allowed m.state to.state
unfolding advanced
advanced-Allowed now gap progress m to h moved = ground (arith, h, moved)
advanced-Allowed now gap final m to h moved = ground (arith, h, moved)
advanced-Allowed now gap failed m to h moved = ground (arith, h, moved)
