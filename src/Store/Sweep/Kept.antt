-- ===== src/Store/Sweep/Kept.antt =====
-- What the pruning leaves: a conversation stands as long as one of its messages does, and an agent as
-- long as it is active.
use pinakes.Base.{
  ℕ, if_keeps, ◌≡◌, refl, sym, ap, ◌∙◌, false≢true, Bool, true, false, not, ◌&&◌, Bool-cases, inl,
  inr, String, [], ◌∷◌, arith, ltb, ◌==◌, eq_iff, if◌then◌else◌,
}
use pinakes.Base.Dict.{Dict, lookup, lookup_or, remove}
use pinakes.Base.Dict.Laws.{lookup-remove, lookup_or-remove}
use pinakes.Types.{Agent, Conversation}
use pinakes.Store.{Store, older_than}
use pinakes.Store.Status.{is_active}
use pinakes.Store.Sweep.Prune.{
  prune, prune_idle, prune_expired, prune_messages, prunes_conversation, prune_conversations,
  prune_agents, any_live,
}

-- The conversation under an id and its messages are as before, and so are the messages of the store.
record Stays (id : String) (s t : Store) : Type 0 where
  here : lookup id t.conversations ≡ lookup id s.conversations
  listed : lookup_or [] id t.conversation_messages ≡ lookup_or [] id s.conversation_messages
  messages : t.messages ≡ s.messages

self-Stays : (id : String) (s : Store) → Stays id s s
self-Stays id s = record { here = refl; listed = refl; messages = refl }

join-Stays : (id : String) {s t u : Store} → Stays id s t → Stays id t u → Stays id s u
join-Stays id h k = record {
  here = k.here ∙ h.here;
  listed = k.listed ∙ h.listed;
  messages = k.messages ∙ h.messages;
}

abbrev is_live : String → Store → Bool
is_live id s = any_live s.messages (lookup_or [] id s.conversation_messages)

live-Stays : (id : String) (s t : Store) → Stays id s t → is_live id s ≡ true → is_live id t ≡ true
live-Stays id s t h live =
    ap (λ x. any_live x (lookup_or [] id t.conversation_messages)) h.messages
    ∙ ap (any_live s.messages) h.listed
    ∙ live

pruned_not_live :
    (now : ℕ) (j : String) (c : Conversation) (s : Store)
    → prunes_conversation now s j c ≡ true
    → is_live j s ≡ false
unfolding prunes_conversation
pruned_not_live now j c s goes = ground (arith, goes)

not_live :
    (now : ℕ) (id j : String) (c : Conversation) (s : Store)
    → is_live id s ≡ true
    → prunes_conversation now s j c ≡ true
    → (j == id) ≡ false
not_live now id j c s live goes = elim (Bool-cases (j == id)) [
  | inr other ↦ other
  | inl same ↦ absurd (
      false≢true (
        sym (pruned_not_live now j c s goes) ∙ ap (λ k. is_live k s) ((eq_iff j id).0 same) ∙ live))
]

-- One step of the loop spares a conversation with a message.
step-Stays :
    (now : ℕ) (id j : String) (c : Conversation) (s : Store)
    → is_live id s ≡ true
    → Stays id s (
        if prunes_conversation now s j c
        then record s {
          conversations = remove j s.conversations;
          conversation_messages = remove j s.conversation_messages;
        }
        else s)
step-Stays now id j c s live = elim (Bool-cases (prunes_conversation now s j c)) [
  | inr stays ↦ rw stays (self-Stays id s)
  | inl goes ↦
      let other : (j == id) ≡ false = not_live now id j c s live goes in
      rw goes (record {
        here = lookup-remove j id s.conversations ∙ rw other;
        listed = lookup_or-remove [] j id s.conversation_messages ∙ rw other;
        messages = refl;
      })
]

prune_conversations-Stays :
    (now : ℕ) (id : String) (m : Dict Conversation) (s : Store)
    → is_live id s ≡ true
    → Stays id s (prune_conversations now m s)
unfolding prune_conversations
prune_conversations-Stays now id [] s live = self-Stays id s
prune_conversations-Stays now id ((j, c) ∷ m) s live =
    let h = step-Stays now id j c s live in
    join-Stays id h (prune_conversations-Stays now id m _ (live-Stays id s _ h live))

prune_agents-Stays :
    (now : ℕ) (id : String) (m : Dict Agent) (s : Store) → Stays id s (prune_agents now m s)
unfolding prune_agents
prune_agents-Stays now id [] s = self-Stays id s
prune_agents-Stays now id ((j, a) ∷ m) s =
    join-Stays id
      (if_keeps (Stays id s)
        (not (is_active a.status) && older_than now a.expires_at s.cfg.agent_retention) _ s
        (record { here = refl; listed = refl; messages = refl }) (self-Stays id s))
      (prune_agents-Stays now id m _)

prune_messages-conversations :
    (now : ℕ) (s : Store)
    → ((prune_messages now s).conversations ≡ s.conversations)
      × ((prune_messages now s).conversation_messages ≡ s.conversation_messages)
unfolding prune_messages
prune_messages-conversations now s = ground arith

-- If one of the messages of a conversation is left after the pruning of messages, the pruning
-- leaves the conversation and its list of messages as they are.
pub live_conversation_stays :
    (now : ℕ) (id : String) (s : Store)
    → any_live (prune_messages now s).messages (lookup_or [] id s.conversation_messages) ≡ true
    → (lookup id (prune now s).conversations ≡ lookup id s.conversations)
      × (lookup_or [] id (prune now s).conversation_messages
          ≡ lookup_or [] id s.conversation_messages)
unfolding prune prune_idle prune_expired
live_conversation_stays now id s live =
    let p = prune_messages now s in
    let (same, listed) = prune_messages-conversations now s in
    let idle : Stays id p (prune_idle now p) =
      if_keeps (Stays id p) (ltb 0 p.cfg.conversation_retention) _ p
        (prune_conversations-Stays now id p.conversations p
          (ap (λ d. any_live p.messages (lookup_or [] id d)) listed ∙ live))
        (self-Stays id p) in
    let q = prune_idle now p in
    let gone : Stays id q (prune_expired now q) =
      if_keeps (Stays id q) (ltb 0 q.cfg.agent_retention) _ q (prune_agents-Stays now id q.agents q)
        (self-Stays id q) in
    let h = join-Stays id idle gone in
    (h.here ∙ ap (lookup id) same, h.listed ∙ ap (lookup_or [] id) listed)
