-- ===== src/Store/Sound/Parts.antt =====
-- The parts of the operations keep the invariant.
use text.Mathlib.TextLemmas.{append_cancel_left}
use pinakes.Base.{
  ℕ, ◌+◌, ◌≡◌, refl, ◌∙◌, none, String, List, [], ◌∷◌, arith, Option-cases, inl, inr, Bool-cases,
  ◌&&◌, ◌||◌, not, ltb, if_keeps, ◌==◌, total,
}
use pinakes.Base.Dict.{Dict, lookup, remove, lookup_or}
use pinakes.Base.Dict.Laws.{
  Entries, Entries-lookup, Entries-keep_if, Entries-sweep_values, sweep_values-keeps,
  lookup_or-remove,
}
use pinakes.Text.Decimal.{format_padded-inj}
use pinakes.Types.{Message, Agent, EventData, InboxEvent, Conversation, agent_expired}
use pinakes.Store.Status.{is_active}
use pinakes.Store.{Store, after, older_than}
use pinakes.Store.Inbox.{append_inbox, inbox_event_size}
use pinakes.Store.Inbox.Laws.{IsAccounted, append_inbox-IsAccounted, append_inbox-blind}
use pinakes.Store.Observe.{publish, trim_observe}
use pinakes.Store.Observe.Laws.{IsRing, publish-IsRing}
use pinakes.Store.Acceptance.{message_id}
use pinakes.Store.Sweep.{
  sweep, sweep_due, forget_keys, expire_agents, expire_agent, sweep_messages, sweep_message,
  verdict, settle, announce, Verdict, leave, time_out, deliver, lapse,
}
use pinakes.Store.Sweep.Prune.{
  prune, prune_idle, prune_expired, prunes_conversation, prune_messages, prune_conversations,
  prune_agents,
}
use pinakes.Store.Sound.{IsNumbered, IsSound}

-- Two counters with the same message id are the same.
pub message_id-inj : (m n : ℕ) → message_id m ≡ message_id n → m ≡ n
unfolding message_id
message_id-inj m n h = format_padded-inj m n (append_cancel_left "m-" _ _ h)

-- In a sound store no message stands under the id that the next send will give out.
pub lookup-next_id :
    (s : Store) → IsSound s → lookup (message_id (s.next_message_id + 1)) s.messages ≡ none
lookup-next_id s h = elim (Option-cases (lookup (message_id (s.next_message_id + 1)) s.messages)) [
  | inl free ↦ free
  | inr (m, taken) ↦
      let r = Entries-lookup (IsNumbered s.next_message_id) _ m s.messages h.2 taken in
      absurd (
        omega
          (arith, r.given, message_id-inj (s.next_message_id + 1) r.number (r.own_key ∙ r.printed)))
]

pub publish-IsSound :
    (c : EventData) (cid : String) (ids : List String) (at : ℕ) (s : Store)
    → IsSound s
    → IsSound (publish c cid ids at s)
unfolding publish trim_observe
publish-IsSound c cid ids at s h = (h.0, publish-IsRing c cid ids at s h.1, h.2)

pub append_inbox-IsSound :
    (a : String) (e : InboxEvent) (s : Store) → IsSound s → IsSound (append_inbox a e s)
append_inbox-IsSound a e s h = (
  append_inbox-IsAccounted a e s h.0,
  append_inbox-blind (λ t. IsRing t) (λ i j k t r. r) a e s h.1,
  append_inbox-blind (λ t. Entries (IsNumbered t.next_message_id) t.messages) (λ i j k t r. r) a e s
      h.2,
)

-- A loop whose steps keep the invariant keeps it.
forget_keys-IsSound : (now : ℕ) (s : Store) → IsSound s → IsSound (forget_keys now s)
unfolding forget_keys
forget_keys-IsSound now s h = h

expire_agent-IsSound :
    (now : ℕ) (k : String) (a : Agent) (s : Store) → IsSound s → IsSound (expire_agent now k a s).1
unfolding expire_agent
expire_agent-IsSound now k a s h =
    elim (Bool-cases (is_active a.status && after now a.expires_at)) [
      | inl lapsed ↦
          rw lapsed (publish-IsSound (agent_expired a.agent_id now) "" (a.agent_id ∷ []) now s h)
      | inr stays ↦ rw stays h
    ]

expire_agents-IsSound : (now : ℕ) (s : Store) → IsSound s → IsSound (expire_agents now s)
unfolding expire_agents
expire_agents-IsSound now s h =
    sweep_values-keeps (expire_agent now) IsSound (expire_agent-IsSound now) s.agents s h

announce-IsSound :
    (now : ℕ) (m : Message) (v : Verdict) (s : Store) → IsSound s → IsSound (announce now m v s)
unfolding announce
announce-IsSound now m leave s h = h
announce-IsSound now m (time_out reason) s h = publish-IsSound _ _ _ now s h
announce-IsSound now m deliver s h = append_inbox-IsSound m.to _ s h
announce-IsSound now m lapse s h = publish-IsSound _ _ _ now s h

settle-IsNumbered :
    (now n : ℕ) (k : String) (m : Message) (v : Verdict)
    → IsNumbered n k m
    → IsNumbered n k (settle now m v)
settle-IsNumbered now n k m leave h = h
settle-IsNumbered now n k m v h = ground (arith, h.own_key, h.printed, h.given)

pub announce-next_message_id :
    (now : ℕ) (m : Message) (v : Verdict) (s : Store)
    → (announce now m v s).next_message_id ≡ s.next_message_id
unfolding announce publish trim_observe
announce-next_message_id now m leave s = refl
announce-next_message_id now m (time_out reason) s = refl
announce-next_message_id now m deliver s =
    append_inbox-blind (λ t. t.next_message_id ≡ s.next_message_id) (λ i j k t e. e) m.to _ s refl
announce-next_message_id now m lapse s = refl

sweep_messages-IsSound : (now : ℕ) (s : Store) → IsSound s → IsSound (sweep_messages now s)
unfolding sweep_messages sweep_message
sweep_messages-IsSound now s h =
    let f = sweep_message now s.cfg.ack_timeout s.agents in
    let v = verdict now s.cfg.ack_timeout s.agents in
    let kept =
      sweep_values-keeps f IsSound (λ k m t. announce-IsSound now m (v m) t) s.messages s h in
    let same =
      sweep_values-keeps f (λ t. t.next_message_id ≡ s.next_message_id)
        (λ k m t e. announce-next_message_id now m (v m) t ∙ e) s.messages s refl in
    (
      kept.0,
      kept.1,
      rw same (
          Entries-sweep_values f (IsNumbered s.next_message_id)
            (λ k m t. settle-IsNumbered now s.next_message_id k m (v m)) s.messages s h.2),
    )

prune_messages-IsSound : (now : ℕ) (s : Store) → IsSound s → IsSound (prune_messages now s)
unfolding prune_messages
prune_messages-IsSound now s h =
    elim (Bool-cases (ltb 0 s.cfg.message_retention || ltb 0 s.cfg.message_max_age)) [
      | inl prunes ↦
          rw prunes (h.0, h.1, Entries-keep_if (IsNumbered s.next_message_id) _ s.messages h.2)
      | inr all ↦ rw all h
    ]

prune_conversations-IsSound :
    (now : ℕ) (m : Dict Conversation) (s : Store)
    → IsSound s
    → IsSound (prune_conversations now m s)
unfolding prune_conversations
prune_conversations-IsSound now [] s h = h
prune_conversations-IsSound now ((id, c) ∷ m) s h =
    prune_conversations-IsSound now m _ (if_keeps IsSound (prunes_conversation now s id c) _ s h h)

-- An inbox that goes takes its account with it.
remove-IsAccounted :
    (id : String) (s : Store)
    → IsAccounted s
    → (a : String)
    → lookup_or 0 a (remove id s.inbox_bytes)
      ≡ total inbox_event_size (lookup_or [] a (remove id s.inboxes))
remove-IsAccounted id s h a =
    rw (lookup_or-remove 0 id a s.inbox_bytes, lookup_or-remove [] id a s.inboxes)
      (elim (Bool-cases (id == a)) [ inl same ↦ rw same | inr other ↦ rw other (h a) ])

prune_agents-IsSound :
    (now : ℕ) (m : Dict Agent) (s : Store) → IsSound s → IsSound (prune_agents now m s)
unfolding prune_agents
prune_agents-IsSound now [] s h = h
prune_agents-IsSound now ((id, a) ∷ m) s h = prune_agents-IsSound now m _ (
    if_keeps IsSound (not (is_active a.status) && older_than now a.expires_at s.cfg.agent_retention)
      _ s (remove-IsAccounted id s h.0, h.1, h.2) h)

prune_idle-IsSound : (now : ℕ) (s : Store) → IsSound s → IsSound (prune_idle now s)
unfolding prune_idle
prune_idle-IsSound now s h = elim (Bool-cases (ltb 0 s.cfg.conversation_retention)) [
  | inl on ↦ rw on (prune_conversations-IsSound now s.conversations s h)
  | inr off ↦ rw off h
]

prune_expired-IsSound : (now : ℕ) (s : Store) → IsSound s → IsSound (prune_expired now s)
unfolding prune_expired
prune_expired-IsSound now s h = elim (Bool-cases (ltb 0 s.cfg.agent_retention)) [
  | inl on ↦ rw on (prune_agents-IsSound now s.agents s h)
  | inr off ↦ rw off h
]

prune-IsSound : (now : ℕ) (s : Store) → IsSound s → IsSound (prune now s)
unfolding prune
prune-IsSound now s h =
    prune_expired-IsSound now _ (prune_idle-IsSound now _ (prune_messages-IsSound now s h))

-- A sweep keeps the invariant, whether it is due or skipped.
pub sweep-IsSound : (now : ℕ) (s : Store) → IsSound s → IsSound (sweep now s)
unfolding sweep
sweep-IsSound now s h = elim (Bool-cases (sweep_due now s)) [
  | inl due ↦ rw due (
      prune-IsSound now _
        (sweep_messages-IsSound now _ (expire_agents-IsSound now _ (forget_keys-IsSound now _ h))))
  | inr skipped ↦ rw skipped h
]
