-- ===== src/Store/Sound/History.antt =====
-- What an operation may do to the messages of the store: the sweep settles and prunes them, a send adds
-- one under the next id, an ack or an event replaces one. A property that these keep is kept by all.
use pinakes.Base.{
  ℕ, ◌+◌, ◌≡◌, refl, ap, Bool, true, false, not, if_keeps, Option, none, some, String, List, [],
  ◌∷◌, ◌∙◌, length, ◌&&◌, ◌||◌, ltb,
}
use pinakes.Base.Dict.{Dict, lookup, insert, keep_if, sweep_values}
use pinakes.Base.Dict.Laws.{sweep_values-keeps}
use pinakes.Types.{EventData, Agent, Message, InboxEvent, Conversation, agent_expired}
use pinakes.Store.{Store, PushJob, after, older_than}
use pinakes.Store.Status.{is_terminal, is_request, is_active}
use pinakes.Store.Inbox.{append_inbox, drop_inbox_prefix}
use pinakes.Store.Inbox.Laws.{append_inbox-blind, drop_inbox_prefix-blind}
use pinakes.Store.Observe.{publish, trim_observe}
use pinakes.Store.Push.{enqueue_push_job}
use pinakes.Store.Sound.Parts.{announce-next_message_id}
use pinakes.Store.Acceptance.{SendAcceptance, message_id, install, hand_in, schedule_push}
use pinakes.Store.Sweep.{
  sweep, sweep_due, forget_keys, expire_agents, expire_agent, sweep_messages, sweep_message,
  Verdict, leave, time_out, deliver, lapse, announce, verdict,
}
use pinakes.Store.Sweep.Prune.{
  prune, prune_idle, prune_expired, prunes_conversation, prune_messages, prune_conversations,
  prune_agents, prunes_message,
}
use pinakes.Store.Lifecycle.{acked, advanced, EventKind, put_message}
use pinakes.Errors.{ok}
use pinakes.Store.Sound.Operations.{IsNext}

-- The ways in which the target of a request moves it on.
pub data Move (m : Message) : Message → Type 0 where
  by_ack :
      (now : ℕ) (status : String)
      → is_request m.type ≡ true
      → is_terminal m.state ≡ false
      → Move m (acked now status m)
  by_event :
      (now gap : ℕ) (kind : EventKind) (next : Message)
      → is_request m.type ≡ true
      → is_terminal m.state ≡ false
      → advanced now gap kind m ≡ ok next
      → Move m next

-- A property of the message counter and the messages that every change of them keeps.
pub record Rule {ℓ} (P : ℕ → Dict Message → Type ℓ) : Type ℓ where
  pub settles :
      (now t n : ℕ) (agents : Dict Agent) (m : Dict Message) (s : Store)
      → P n m
      → P n (sweep_values (sweep_message now t agents) m s).0
  pub prunes : (p : Message → Bool) (n : ℕ) (m : Dict Message) → P n m → P n (keep_if p m)
  pub accepts :
      (new : Message) (n : ℕ) (m : Dict Message)
      → new.message_id ≡ message_id (n + 1)
      → P n m
      → P (n + 1) (insert new.message_id new m)
  pub moves :
      (id : String) (old new : Message) (n : ℕ) (m : Dict Message)
      → lookup id m ≡ some old
      → Move old new
      → P n m
      → P n (insert id new m)

-- The property as one of the store.
pub data Keeps {ℓ} (P : ℕ → Dict Message → Type ℓ) (s : Store) : Type ℓ where
  keeping : P s.next_message_id s.messages → Keeps P s

pub kept {ℓ} :
    {P : ℕ → Dict Message → Type ℓ} {s : Store} → Keeps P s → P s.next_message_id s.messages
kept (keeping h) = h

module _ {ℓ} {P : ℕ → Dict Message → Type ℓ} where
  pub publish-Keeps :
      (c : EventData) (cid : String) (ids : List String) (at : ℕ) (s : Store)
      → Keeps P s
      → Keeps P (publish c cid ids at s)
  unfolding publish trim_observe
  publish-Keeps c cid ids at s h = keeping ((kept h))

  pub append_inbox-Keeps :
      (a : String) (e : InboxEvent) (s : Store) → Keeps P s → Keeps P (append_inbox a e s)
  append_inbox-Keeps = append_inbox-blind (Keeps P) (λ i j k s h. keeping ((kept h)))

  pub drop_inbox_prefix-Keeps :
      (a : String) (n : ℕ) (s : Store) → Keeps P s → Keeps P (drop_inbox_prefix a n s)
  drop_inbox_prefix-Keeps = drop_inbox_prefix-blind (Keeps P) (λ i j k s h. keeping ((kept h)))

  expire_agent-Keeps :
      (now : ℕ) (k : String) (a : Agent) (s : Store)
      → Keeps P s
      → Keeps P (expire_agent now k a s).1
  unfolding expire_agent
  expire_agent-Keeps now k a s h =
      if_keeps (λ (r : Agent × Store). Keeps P r.1) (is_active a.status && after now a.expires_at) _
        _ (publish-Keeps (agent_expired a.agent_id now) "" (a.agent_id ∷ []) now s h) h

  expire_agents-Keeps : (now : ℕ) (s : Store) → Keeps P s → Keeps P (expire_agents now s)
  unfolding expire_agents
  expire_agents-Keeps now s h =
      keeping (
        kept
          (sweep_values-keeps (expire_agent now) (Keeps P) (expire_agent-Keeps now) s.agents s h))

  announce-Keeps :
      (now : ℕ) (m : Message) (v : Verdict) (s : Store) → Keeps P s → Keeps P (announce now m v s)
  unfolding announce
  announce-Keeps now m leave s h = h
  announce-Keeps now m (time_out reason) s h = publish-Keeps _ _ _ now s h
  announce-Keeps now m deliver s h = append_inbox-Keeps _ _ s h
  announce-Keeps now m lapse s h = publish-Keeps _ _ _ now s h

  prune_conversations-Keeps :
      (now : ℕ) (m : Dict Conversation) (s : Store)
      → Keeps P s
      → Keeps P (prune_conversations now m s)
  unfolding prune_conversations
  prune_conversations-Keeps now [] s h = h
  prune_conversations-Keeps now ((id, c) ∷ rest) s h =
      prune_conversations-Keeps now rest _
        (if_keeps (Keeps P) (prunes_conversation now s id c) _ s (keeping ((kept h))) h)

  prune_agents-Keeps :
      (now : ℕ) (m : Dict Agent) (s : Store) → Keeps P s → Keeps P (prune_agents now m s)
  unfolding prune_agents
  prune_agents-Keeps now [] s h = h
  prune_agents-Keeps now ((id, a) ∷ rest) s h = prune_agents-Keeps now rest _ (
      if_keeps (Keeps P)
        (not (is_active a.status) && older_than now a.expires_at s.cfg.agent_retention) _ s
        (keeping ((kept h))) h)

  pub schedule_push-Keeps :
      (job : Option PushJob) (s : Store) → Keeps P s → Keeps P (schedule_push job s)
  unfolding schedule_push enqueue_push_job
  schedule_push-Keeps none s h = h
  schedule_push-Keeps (some job) s h =
      let same = λ (r : Option String × Store). Keeps P r.1 in
      if_keeps same s.push_closed _ _ (keeping ((kept h))) (
        if_keeps same (ltb (length s.push_queue) s.cfg.push_queue_size) _ _ (keeping ((kept h)))
          (keeping ((kept h))))

module _ {ℓ} {P : ℕ → Dict Message → Type ℓ} (rule : Rule P) where
  sweep_messages-Keeps : (now : ℕ) (s : Store) → Keeps P s → Keeps P (sweep_messages now s)
  unfolding sweep_messages sweep_message
  sweep_messages-Keeps now s h =
      let v = verdict now s.cfg.ack_timeout s.agents in
      let same =
        sweep_values-keeps (sweep_message now s.cfg.ack_timeout s.agents)
          (λ t. t.next_message_id ≡ s.next_message_id)
          (λ k m t e. announce-next_message_id now m (v m) t ∙ e) s.messages s refl in
      keeping (
        rw same
          (rule.settles now s.cfg.ack_timeout s.next_message_id s.agents s.messages s (kept h)))

  prune_messages-Keeps : (now : ℕ) (s : Store) → Keeps P s → Keeps P (prune_messages now s)
  unfolding prune_messages
  prune_messages-Keeps now s h =
      if_keeps (Keeps P) (ltb 0 s.cfg.message_retention || ltb 0 s.cfg.message_max_age) _ s
        (keeping (
          rule.prunes (λ m. not (prunes_message now s.cfg m)) s.next_message_id s.messages
            (kept h)))
        h

  prune_idle-Keeps : (now : ℕ) (s : Store) → Keeps P s → Keeps P (prune_idle now s)
  unfolding prune_idle
  prune_idle-Keeps now s h =
      if_keeps (Keeps P) (ltb 0 s.cfg.conversation_retention) _ s
        (prune_conversations-Keeps now s.conversations s h) h

  prune_expired-Keeps : (now : ℕ) (s : Store) → Keeps P s → Keeps P (prune_expired now s)
  unfolding prune_expired
  prune_expired-Keeps now s h =
      if_keeps (Keeps P) (ltb 0 s.cfg.agent_retention) _ s (prune_agents-Keeps now s.agents s h) h

  prune-Keeps : (now : ℕ) (s : Store) → Keeps P s → Keeps P (prune now s)
  unfolding prune
  prune-Keeps now s h =
      prune_expired-Keeps now _ (prune_idle-Keeps now _ (prune_messages-Keeps now s h))

  pub sweep-Keeps : (now : ℕ) (s : Store) → Keeps P s → Keeps P (sweep now s)
  unfolding sweep forget_keys
  sweep-Keeps now s h =
      if_keeps (Keeps P) (sweep_due now s) _ _
        (prune-Keeps now _
          (sweep_messages-Keeps now _ (expire_agents-Keeps now _ (keeping ((kept h))))))
        (keeping ((kept h)))

  hand_in-Keeps :
      (to : String) (e : Option InboxEvent) (s : Store) → Keeps P s → Keeps P (hand_in to e s)
  hand_in-Keeps to none s h = h
  hand_in-Keeps to (some e) s h = append_inbox-Keeps to e s h

  pub install-Keeps :
      (a : SendAcceptance) (s : Store) → IsNext s a → Keeps P s → Keeps P (install a s)
  unfolding install
  install-Keeps a s next h = hand_in-Keeps a.message.to a.inbox_event _ (
      keeping (
        rw next.0 (
          rule.accepts a.message s.next_message_id s.messages (next.1 ∙ ap message_id next.0)
            (kept h))))

  pub put_message-Keeps :
      (id : String) (old new : Message) (s : Store)
      → lookup id s.messages ≡ some old
      → Move old new
      → Keeps P s
      → Keeps P (put_message id new s)
  unfolding put_message
  put_message-Keeps id old new s found move h =
      keeping (rule.moves id old new s.next_message_id s.messages found move (kept h))
