-- ===== src/Store/Send/Memory.antt =====
-- The idempotency keys of SendMessage over the sweep: no key within the window is forgotten.
use pinakes.Base.{
  ℕ, ◌≡◌, refl, subst, sym, ap, ◌∙◌, Bool, true, false, not, ◌&&◌, ◌||◌, Bool-cases, inl, inr,
  if_keeps, some, String, List, [], ◌∷◌, ltb, ◌==◌,
}
use pinakes.Base.Dict.{Dict, lookup, keep_if}
use pinakes.Base.Dict.Laws.{sweep_values-keeps}
use pinakes.Types.{Agent, Message, Conversation, InboxEvent, EventData, agent_expired}
use pinakes.Config.{Config}
use pinakes.Store.{Store, IdempotencyEntry, after, older_than}
use pinakes.Store.Status.{is_active}
use pinakes.Store.Inbox.{append_inbox}
use pinakes.Store.Inbox.Laws.{append_inbox-blind}
use pinakes.Store.Observe.{publish, trim_observe}
use pinakes.Store.Sweep.{
  sweep, sweep_due, forget_keys, expire_agents, expire_agent, sweep_messages, sweep_message,
  Verdict, leave, time_out, deliver, lapse, announce, verdict,
}
use pinakes.Store.Sweep.Prune.{
  prune, prune_idle, prune_expired, prunes_conversation, prune_messages, prune_conversations,
  prune_agents,
}

-- A store with the configuration and the keys of another.
pub record Same (s t : Store) : Type 0 where
  pub config : t.cfg ≡ s.cfg
  pub keys : t.idempotency ≡ s.idempotency

pub self-Same : (s : Store) → Same s s
self-Same s = record { config = refl; keys = refl }

pub join-Same : {s t u : Store} → Same s t → Same t u → Same s u
join-Same h k = record { config = k.config ∙ h.config; keys = k.keys ∙ h.keys }

pub publish-Same :
    (c : EventData) (cid : String) (ids : List String) (at : ℕ) (s : Store)
    → Same s (publish c cid ids at s)
unfolding publish trim_observe
publish-Same c cid ids at s = record { config = refl; keys = refl }

pub append_inbox-Same : (a : String) (e : InboxEvent) (s : Store) → Same s (append_inbox a e s)
append_inbox-Same a e s =
    append_inbox-blind (Same s) (λ i j k t h. record { config = h.config; keys = h.keys }) a e s
      (self-Same s)

expire_agents-Same : (now : ℕ) (s : Store) → Same s (expire_agents now s)
unfolding expire_agents expire_agent
expire_agents-Same now s =
    let h =
      sweep_values-keeps (expire_agent now) (Same s)
        (λ k a t h.
          if_keeps (λ (r : Agent × Store). Same s r.1)
            (is_active a.status && after now a.expires_at) _ _
            (join-Same h (publish-Same (agent_expired a.agent_id now) "" (a.agent_id ∷ []) now t))
            h)
        s.agents s (self-Same s) in
    record { config = h.config; keys = h.keys }

announce-Same : (now : ℕ) (m : Message) (v : Verdict) (s : Store) → Same s (announce now m v s)
unfolding announce
announce-Same now m leave s = self-Same s
announce-Same now m (time_out reason) s = publish-Same _ _ _ now s
announce-Same now m deliver s = append_inbox-Same _ _ s
announce-Same now m lapse s = publish-Same _ _ _ now s

sweep_messages-Same : (now : ℕ) (s : Store) → Same s (sweep_messages now s)
unfolding sweep_messages sweep_message
sweep_messages-Same now s =
    let v = verdict now s.cfg.ack_timeout s.agents in
    let h =
      sweep_values-keeps (sweep_message now s.cfg.ack_timeout s.agents) (Same s)
        (λ k m t h. join-Same h (announce-Same now m (v m) t)) s.messages s (self-Same s) in
    record { config = h.config; keys = h.keys }

prune_conversations-Same :
    (now : ℕ) (m : Dict Conversation) (s : Store) → Same s (prune_conversations now m s)
unfolding prune_conversations
prune_conversations-Same now [] s = self-Same s
prune_conversations-Same now ((id, c) ∷ rest) s =
    join-Same
      (if_keeps (Same s) (prunes_conversation now s id c) _ s
        (record { config = refl; keys = refl }) (self-Same s))
      (prune_conversations-Same now rest _)

prune_agents-Same : (now : ℕ) (m : Dict Agent) (s : Store) → Same s (prune_agents now m s)
unfolding prune_agents
prune_agents-Same now [] s = self-Same s
prune_agents-Same now ((id, a) ∷ rest) s =
    join-Same
      (if_keeps (Same s)
        (not (is_active a.status) && older_than now a.expires_at s.cfg.agent_retention) _ s
        (record { config = refl; keys = refl }) (self-Same s))
      (prune_agents-Same now rest _)

prune-Same : (now : ℕ) (s : Store) → Same s (prune now s)
unfolding prune prune_messages prune_idle prune_expired
prune-Same now s =
    let a =
      if_keeps (Same s) (ltb 0 s.cfg.message_retention || ltb 0 s.cfg.message_max_age) _ s
        (record { config = refl; keys = refl }) (self-Same s) in
    let idle = λ (t : Store).
      if_keeps (Same t) (ltb 0 t.cfg.conversation_retention) _ t
        (prune_conversations-Same now t.conversations t) (self-Same t) in
    let expired = λ (t : Store).
      if_keeps (Same t) (ltb 0 t.cfg.agent_retention) _ t (prune_agents-Same now t.agents t)
        (self-Same t) in
    join-Same a (join-Same (idle _) (expired _))

lookup-keep_if :
    (k : String) (e : IdempotencyEntry) (p : IdempotencyEntry → Bool) (m : Dict IdempotencyEntry)
    → lookup k m ≡ some e
    → p e ≡ true
    → lookup k (keep_if p m) ≡ some e
unfolding lookup keep_if
lookup-keep_if k e p [] found stays = found
lookup-keep_if k e p ((j, x) ∷ m) found stays = elim (Bool-cases (j == k)) [
  | inl same ↦
      let hit : some x ≡ some e = rw same at found in
      let here : p x ≡ true = subst (λ z. p z ≡ true) (sym (cc hit)) stays in rw (here, same) hit
  | inr other ↦
      let rest = lookup-keep_if k e p m (rw other at found) stays in
      elim (Bool-cases (p x)) [ inl here ↦ rw (here, other) rest | inr gone ↦ rw gone rest ]
]

-- A sweep forgets no key within the window.
pub record Remembers (window : ℕ) (key : String) (e : IdempotencyEntry) (s : Store) : Type 0 where
  pub span : s.cfg.idempotency_window ≡ window
  pub entry : lookup key s.idempotency ≡ some e

pub carry :
    (window : ℕ) (key : String) (e : IdempotencyEntry) (s t : Store)
    → Same s t
    → Remembers window key e s
    → Remembers window key e t
carry window key e s t same h = record {
  span = ap (λ (c : Config). c.idempotency_window) same.config ∙ h.span;
  entry = ap (λ d. lookup key d) same.keys ∙ h.entry;
}

forgotten-Remembers :
    (now window : ℕ) (key : String) (e : IdempotencyEntry) (s : Store)
    → older_than now e.created_at window ≡ false
    → Remembers window key e s
    → Remembers window key e (forget_keys now s)
unfolding forget_keys
forgotten-Remembers now window key e s fresh h = record {
  span = h.span;
  entry = lookup-keep_if key e _ s.idempotency h.entry (rw (h.span, fresh));
}

pub sweep-Remembers :
    (now window : ℕ) (key : String) (e : IdempotencyEntry) (s : Store)
    → older_than now e.created_at window ≡ false
    → Remembers window key e s
    → Remembers window key e (sweep now s)
unfolding sweep
sweep-Remembers now window key e s fresh h =
    if_keeps (Remembers window key e) (sweep_due now s) _ _
      (carry window key e _ _
        (join-Same (expire_agents-Same now _)
          (join-Same (sweep_messages-Same now _) (prune-Same now _)))
        (forgotten-Remembers now window key e _ fresh (record { span = h.span; entry = h.entry })))
      (record { span = h.span; entry = h.entry })
